-- ===== src/Ballot.antt =====
-- A peer's term and vote, apart from the rest of its state: what lab3/lab3-A/raft.go and
-- lab3/lab3-B/raft.go, which keep nothing on disk, have in common.
use cslearning.Prelude.{ℕ, ◌<◌, ◌≡◌, refl, ◌∙◌, ◌⊎◌, inl, inr, Option, some, arith}

pub record Ballot : Type 0 where
  pub term : ℕ
  pub voted_for : Option ℕ

-- The term does not fall, and within a term a vote that is cast stays.
abbrev pub Kept : Ballot → Ballot → Type 0
Kept b c =
    (b.term < c.term)
    ⊎ ((c.term ≡ b.term) × ((v : ℕ) → b.voted_for ≡ some v → c.voted_for ≡ some v))

pub Kept-refl : (b : Ballot) → Kept b b
Kept-refl b = inr (refl, λ v e. e)

pub Kept-trans : (b c d : Ballot) → Kept b c → Kept c d → Kept b d
Kept-trans b c d (inl p) (inl q) = inl (omega arith)
Kept-trans b c d (inl p) (inr (e, k)) = inl (omega arith)
Kept-trans b c d (inr (e, k)) (inl q) = inl (omega arith)
Kept-trans b c d (inr (e, k)) (inr (f, l)) = inr (omega arith, λ v h. l v (k v h))

-- A vote for `candidate` in `term`, where no other was cast in that term before.
pub record Grants (term candidate : ℕ) (before after : Ballot) : Type 0 where
  pub in_term : after.term ≡ term
  pub voted : after.voted_for ≡ some candidate
  pub sole : (v : ℕ) → before.term ≡ term → before.voted_for ≡ some v → v ≡ candidate

pub same_candidate :
    (b₁ b₂ b₃ b₄ : Ballot) (t x u y : ℕ)
    → Grants t x b₁ b₂
    → Kept b₂ b₃
    → Kept b₃ b₄
    → Grants u y b₃ b₄
    → t ≡ u
    → x ≡ y
same_candidate b₁ b₂ b₃ b₄ t x u y g (inr (e, k)) _ h same =
    h.sole x (e ∙ g.in_term ∙ same) (k x g.voted)
same_candidate b₁ b₂ b₃ b₄ t x u y g (inl p) (inl q) h same =
    absurd (omega (arith, g.in_term, h.in_term))
same_candidate b₁ b₂ b₃ b₄ t x u y g (inl p) (inr (e, k)) h same =
    absurd (omega (arith, g.in_term, h.in_term))

-- The states that steps lead to.
pub data Trace {S : Type 0} (Step : S → S → Type 0) (s : S) : S → Type 0 where
  here : Trace Step s s
  next : {t u : S} → Trace Step s t → Step t u → Trace Step s u

module _ {S : Type 0} (Step : S → S → Type 0) (ballot : S → Ballot)
    (keeps : (s t : S) → Step s t → Kept (ballot s) (ballot t)) where
  pub Trace-Kept : {s t : S} → Trace Step s t → Kept (ballot s) (ballot t)
  Trace-Kept {s = s} here = Kept-refl (ballot s)
  Trace-Kept {s = s} {t = u} (next {t = t} w st) =
      Kept-trans (ballot s) (ballot t) (ballot u) (Trace-Kept w) (keeps t u st)
