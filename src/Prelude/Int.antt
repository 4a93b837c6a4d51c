-- ===== src/Prelude/Int.antt =====
-- Go's signed `int` where the code lets it go below zero: `negsuc n` is -(n + 1).
use Prim.Native.Nat.{ℕ, ◌-◌}
use cslearning.Prelude.Tests.{leb, if◌then◌else◌}

pub data ℤ : Type 0 where
  pos : ℕ → ℤ
  negsuc : ℕ → ℤ

-- a - b, as an integer.
abbrev pub sub_ℕ : ℕ → ℕ → ℤ
sub_ℕ a b = if leb b a then pos (a - b) else negsuc (b - a - 1)

-- an index that has been used, so is not negative
abbrev pub to_index : ℤ → ℕ
to_index (pos i) = i
to_index (negsuc i) = 0
