-- ===== src/Lab3C/Extend.antt =====
-- lab3-C/raft.go: matching logs, and the entry that `Start` appends.
use cslearning.Prelude.{
  subst, ℕ, zero, suc, ◌≡◌, ◌≢◌, refl, sym, ap, ◌∙◌, ◌⊎◌, inl, inr, some, List, [], ◌∷◌, ◌++◌,
  length, take, get_elem?, arith,
}
use cslearning.Raft.State.{Log}
use cslearning.Lab3C.Matching.{Matching}

pub Matching-sym : (l m : List Log) → Matching l m → Matching m l
Matching-sym l m h i e f p q same = sym (h i f e q p (sym same))

-- An entry of the longer log is the new one or an old one.
pub entry_cases :
    (l : List Log) (x : Log) (i : ℕ) (e : Log)
    → get_elem? (l ++ x ∷ []) i ≡ some e
    → ((get_elem? l i ≡ some e) × (take (suc i) (l ++ x ∷ []) ≡ take (suc i) l))
      ⊎ ((i ≡ length l) × (x ≡ e))
entry_cases [] x zero e h = inr (refl, ground arith)
entry_cases [] x (suc i) e h = cc
entry_cases (y ∷ l) x zero e h = inl (h, refl)
entry_cases (y ∷ l) x (suc i) e h = elim (entry_cases l x i e h) [
  | inl (old, same) ↦ inl (old, ap (λ t. y ∷ t) same)
  | inr (last, new) ↦ inr (ap suc last, new)
]

-- The log of a leader that appends still matches a log with no entry of its term at that place.
pub Matching-append :
    (l m : List Log) (x : Log)
    → Matching l m
    → ((f : Log) → get_elem? m (length l) ≡ some f → f.term ≢ x.term)
    → Matching (l ++ x ∷ []) m
Matching-append l m x h free i e f p q same = elim (entry_cases l x i e p) [
  | inl (old, short) ↦ short ∙ h i e f old q same
  | inr (last, new) ↦ absurd (
      free f (subst (λ n. get_elem? m n ≡ some f) last q)
        (sym same ∙ ap (λ (y : Log). y.term) (sym new)))
]

pub Matching-both : (l : List Log) (x : Log) → Matching (l ++ x ∷ []) (l ++ x ∷ [])
Matching-both l x i e f p q same = refl
