-- ===== src/Raft/Replication/Agreement.antt =====
-- lab3-D/raft.go: a leader's entries merged into a log that has some of them.
use cslearning.Prelude.{
  ap₂, take-append-drop, length-append, length-take, ==→eq, eq→==, ℕ, zero, suc, ◌+◌, ◌≤◌, ◌≡◌,
  refl, sym, ap, ◌∙◌, inl, inr, List, [], ◌∷◌, ◌++◌, length, take, drop, ◌==◌, Bool-cases, arith,
}
use cslearning.Raft.State.{Log}
use native.Mathlib.Nat.{zero-add, suc-add}
use cslearning.Raft.Replication.{append_loop}
use cslearning.Raft.Replication.Merge.{merge, append_loop-merge}

-- The terms of `es` lead the log `l`.
abbrev pub Leads : List Log → List Log → Type 0
Leads [] l = Unit
Leads (e ∷ es) [] = ⊥
Leads (e ∷ es) (x ∷ l) = (x.term ≡ e.term) × Leads es l

-- The first `c` entries of `l` have, as far as `es` reaches, the terms of `es`.
abbrev pub Coheres : ℕ → List Log → List Log → Type 0
Coheres zero l es = Unit
Coheres (suc c) [] es = ⊥
Coheres (suc c) (x ∷ l) [] = suc c ≤ length (x ∷ l)
Coheres (suc c) (x ∷ l) (e ∷ es) = (x.term ≡ e.term) × Coheres c l es

Leads-refl : (es : List Log) → Leads es es
Leads-refl [] = tt
Leads-refl (e ∷ es) = (refl, Leads-refl es)

-- The merged log begins with entries of the leader's terms.
pub merge-Leads : (l es : List Log) → Leads es (merge l es)
unfolding merge
merge-Leads [] es = Leads-refl es
merge-Leads (x ∷ l) [] = tt
merge-Leads (x ∷ l) (e ∷ es) = elim (Bool-cases (x.term == e.term)) [
  | inl same ↦ rw same (==→eq _ _ same, merge-Leads l es)
  | inr differs ↦ rw differs (refl, Leads-refl es)
]

-- A log that the entries lead already is left as it is: nothing behind them is cut off.
pub merge_led : (l es : List Log) → Leads es l → merge l es ≡ l
unfolding merge
merge_led [] [] h = refl
merge_led (x ∷ l) [] h = refl
merge_led [] (e ∷ es) h = absurd h
merge_led (x ∷ l) (e ∷ es) h = rw (eq→== _ _ h.0) (ap (λ t. x ∷ t) (merge_led l es h.1))

-- Entries that cohere with the leader's, such as committed ones, survive the merge.
pub merge-take : (c : ℕ) (l es : List Log) → Coheres c l es → take c (merge l es) ≡ take c l
unfolding merge
merge-take zero l es h = refl
merge-take (suc c) [] es h = absurd h
merge-take (suc c) (x ∷ l) [] h = refl
merge-take (suc c) (x ∷ l) (e ∷ es) h = rw (eq→== _ _ h.0) (ap (λ t. x ∷ t) (merge-take c l es h.1))

-- A request that arrives twice, or a log that has the entries already, is left as it is.
pub merge_twice : (l es : List Log) → merge (merge l es) es ≡ merge l es
merge_twice l es = merge_led (merge l es) es (merge-Leads l es)

take-take_append :
    (at c : ℕ) (l m : List Log)
    → at ≤ length l
    → take (at + c) (take at l ++ m) ≡ take at l ++ take c m
take-take_append zero c l m h = rw (zero-add c) refl
take-take_append (suc at) c [] m h = absurd (omega arith)
take-take_append (suc at) c (x ∷ l) m h =
    rw (suc-add at c) (ap (λ t. x ∷ t) (take-take_append at c l m (omega arith)))

drop-take_append : (at : ℕ) (l m : List Log) → at ≤ length l → drop at (take at l ++ m) ≡ m
drop-take_append zero l m h = refl
drop-take_append (suc at) [] m h = absurd (omega arith)
drop-take_append (suc at) (x ∷ l) m h = drop-take_append at l m (omega arith)

take_self : (at : ℕ) (l m : List Log) → at ≤ length l → take at (take at l ++ m) ≡ take at l
take_self zero l m h = refl
take_self (suc at) [] m h = absurd (omega arith)
take_self (suc at) (x ∷ l) m h = ap (λ t. x ∷ t) (take_self at l m (omega arith))

-- The loop of `AppendEntries`, begun within the log or at its end, never removes or changes an
-- entry that the leader's entries do not contradict: if the first `c` entries behind the starting
-- position have the leader's terms as far as the leader's entries reach, they and all before them
-- stay.
pub append_loop-take :
    (at c : ℕ) (es l : List Log)
    → at ≤ length l
    → Coheres c (drop at l) es
    → take (at + c) (append_loop at es l) ≡ take (at + c) l
append_loop-take at c es l h agree =
    ap (take (at + c)) (append_loop-merge at es l h)
    ∙ take-take_append at c l (merge (drop at l) es) h
    ∙ ap (λ t. take at l ++ t) (merge-take c (drop at l) es agree)
    ∙ sym (take-take_append at c l (drop at l) h)
    ∙ ap (take (at + c)) (take-append-drop at l)

-- A request that is delivered twice does its work once: running the loop again from the same
-- position, within the log or at its end, with the same entries changes nothing.
pub append_loop_twice :
    (at : ℕ) (es l : List Log)
    → at ≤ length l
    → append_loop at es (append_loop at es l) ≡ append_loop at es l
append_loop_twice at es l h = rw (append_loop-merge at es l h) (
    append_loop-merge at es (take at l ++ m)
      (omega (arith, length-append (take at l) m, length-take at l))
    ∙ ap₂ ◌++◌ (take_self at l m h)
        (ap (λ t. merge t es) (drop-take_append at l m h) ∙ merge_twice (drop at l) es))
  where
    m : List Log
    m = merge (drop at l) es
