-- ===== src/Prelude/Panics.antt =====
-- What a piece of Go code comes to: a result, or a run-time panic (an index out of range).
use mathlib.Core.Path.{◌≡◌, refl, subst}
use mathlib.Core.Logic.{◌⊎◌, inl, inr}
use mathlib.Core.Option.{Option, none, some}
use mathlib.Core.List.{List}
use cslearning.Prelude.Tests.{leb, if◌then◌else◌}
use cslearning.Prelude.Lists.{length, get_elem?, drop}
use cslearning.Prelude.Int.{ℤ, pos, negsuc}

pub data Run {ℓ} (A : Type ℓ) : Type ℓ where
  done : A → Run A
  panic : Run A

infixl 5 ◌>>=◌
abbrev pub ◌>>=◌ {ℓ κ} : {A : Type ℓ} {B : Type κ} → Run A → (A → Run B) → Run B
done a >>= f = f a
panic >>= f = panic

-- The code returns, and its result satisfies `P`.
abbrev pub Returns {ℓ} : {A : Type ℓ} → Run A → (A → Type 0) → Type 0
Returns (done a) P = P a
Returns panic P = ⊥

abbrev pub of_option {ℓ} : {A : Type ℓ} → Option A → Run A
of_option none = panic
of_option (some a) = done a

module _ {ℓ} {A : Type ℓ} where
  -- `xs[i]`
  abbrev pub index : List A → ℤ → Run A
  index xs (pos i) = of_option (get_elem? xs i)
  index xs (negsuc i) = panic

  -- `xs[i:]`
  abbrev pub slice_from : List A → ℤ → Run (List A)
  slice_from xs (pos i) = if leb i (length xs) then done (drop i xs) else panic
  slice_from xs (negsuc i) = panic

-- If the code returns, its result satisfies `P`.
abbrev pub OnReturn {ℓ} : {A : Type ℓ} → Run A → (A → Type 0) → Type 0
OnReturn (done a) P = P a
OnReturn panic P = Unit

pub done-injective {ℓ} : {A : Type ℓ} {a b : A} → done a ≡ done b → a ≡ b
done-injective e = cc

pub OnReturn-elim {ℓ} :
    {A : Type ℓ} (P : A → Type 0) (m : Run A) (a : A) → OnReturn m P → m ≡ done a → P a
OnReturn-elim P (done b) a h e = subst P (done-injective e) h
OnReturn-elim P panic a h e = cc

pub OnReturn_imp {ℓ} :
    {A : Type ℓ} (P Q : A → Type 0) (m : Run A)
    → ((a : A) → P a → Q a)
    → OnReturn m P
    → OnReturn m Q
OnReturn_imp P Q (done a) f h = f a h
OnReturn_imp P Q panic f h = h

pub Returns-elim {ℓ} :
    {A : Type ℓ} (P : A → Type 0) (m : Run A) (a : A) → Returns m P → m ≡ done a → P a
Returns-elim P (done b) a h e = subst P (done-injective e) h
Returns-elim P panic a h e = cc

pub OnReturn-bind {ℓ κ} :
    {A : Type ℓ} {B : Type κ} (Q : B → Type 0) (m : Run A) (f : A → Run B)
    → ((a : A) → OnReturn (f a) Q)
    → OnReturn (m >>= f) Q
OnReturn-bind Q (done a) f h = h a
OnReturn-bind Q panic f h = tt

-- A bind that keeps a state beside its result.
pub OnReturn_keep :
    {A B : Type 0} (P : A → Type 0) (a : A) (m : Run B)
    → P a
    → OnReturn {A = A × B} (m >>= λ b. done (a, b)) (λ x. P x.0)
OnReturn_keep P a (done b) h = h
OnReturn_keep P a panic h = tt

pub Returns_imp {ℓ} :
    {A : Type ℓ} (P Q : A → Type 0) (m : Run A) → ((a : A) → P a → Q a) → Returns m P → Returns m Q
Returns_imp P Q (done a) f h = f a h
Returns_imp P Q panic f h = h

-- A bind returns where both its parts do.
pub Returns-bind {ℓ κ} :
    {A : Type ℓ} {B : Type κ} (P : A → Type 0) (Q : B → Type 0) (m : Run A) (f : A → Run B)
    → Returns m P
    → ((a : A) → P a → Returns (f a) Q)
    → Returns (m >>= f) Q
Returns-bind P Q (done a) f h k = k a h
Returns-bind P Q panic f h k = absurd h

pub Run-cases {ℓ} : {A : Type ℓ} (m : Run A) → (m ≡ panic) ⊎ ((a : A) × (m ≡ done a))
Run-cases (done a) = inr (a, refl)
Run-cases panic = inl refl

-- Code that returns comes to some result.
pub Returns-done :
    {A : Type 0} (P : A → Type 0) (m : Run A) → Returns m P → Returns m (λ a. m ≡ done a)
Returns-done P (done a) h = refl
Returns-done P panic h = absurd h
