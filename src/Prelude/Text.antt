-- ===== src/Prelude/Text.antt =====
-- Equality of texts as Go's `==` on strings, and finite maps keyed by them.
use Prim.Native.String.{String}
use mathlib.Core.Option.{Option, some}
use text.Mathlib.Text.{◌==◌}
use cslearning.Prelude.Tests.{if◌then◌else◌}
pub use text.Mathlib.Text.{◌==◌ as str_eq}
pub use text.Mathlib.TextEquality.{eq_iff}
pub use text.Mathlib.TextPositions.{eq_refl}

-- `m[k] = v` on a Go map
abbrev pub assign {ℓ} : {V : Type ℓ} → (String → Option V) → String → V → String → Option V
assign m k v j = if k == j then some v else m j
