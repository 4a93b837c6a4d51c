-- ===== src/Raft/Replication/Merge.antt =====
-- lab3-D/raft.go: what the loop of `AppendEntries` makes of the log.
use cslearning.Prelude.{
  length-take, le→leb, ℕ, ◌+◌, ◌≤◌, ◌≡◌, refl, sym, ap, ◌∙◌, inl, inr, false, List, [], ◌∷◌, ◌++◌,
  length, length-append, take, drop, leb, ◌==◌, if◌then◌else◌, Bool-cases, take-append-drop, arith,
}
use mathlib.Core.List.{append_assoc, append-nil}
use cslearning.Raft.State.{Log, term_at}
use cslearning.Raft.Replication.{append_one, append_loop}

-- The log after position `at`, with the leader's entries taken in: entries of the same term are
-- kept, and the first of another term goes with all that follow it.
unfoldable pub merge : List Log → List Log → List Log
merge [] es = es
merge (o ∷ os) [] = o ∷ os
merge (o ∷ os) (e ∷ es) = if o.term == e.term then o ∷ merge os es else e ∷ es

term_at-append :
    (pre : List Log) (o : Log) (os : List Log) → term_at (pre ++ o ∷ os) (length pre) ≡ o.term
term_at-append [] o os = refl
term_at-append (x ∷ pre) o os = term_at-append pre o os

take-append : (pre os : List Log) → take (length pre) (pre ++ os) ≡ pre
take-append [] os = refl
take-append (x ∷ pre) os = ap (λ l. x ∷ l) (take-append pre os)

append_one_end :
    (at : ℕ) (x : Log) (pre l : List Log)
    → at ≡ length pre
    → l ≡ pre ++ []
    → append_one at x l ≡ (pre ++ x ∷ []) ++ []
unfolding append_one
append_one_end at x pre l n e =
    rw (e, append-nil pre, append-nil (pre ++ x ∷ []))
      (rw (le→leb (length pre) at (omega (arith, n))))

append_one_at :
    (at : ℕ) (x o : Log) (pre old l : List Log)
    → at ≡ length pre
    → l ≡ pre ++ o ∷ old
    → append_one at x l
      ≡ (if o.term == x.term then (pre ++ o ∷ []) ++ old else (pre ++ x ∷ []) ++ [])
unfolding append_one
append_one_at at x o pre old l n e =
    rw (e, n, past pre, term_at-append, take-append pre (o ∷ old))
      (elim (Bool-cases (o.term == x.term)) [
        | inl same ↦ rw same (sym (append_assoc pre (o ∷ []) old))
        | inr differs ↦ rw differs (sym (append-nil (pre ++ x ∷ [])))
      ])
  where
    past : (q : List Log) → leb (length (q ++ o ∷ old)) (length q) ≡ false
    past q = ground (arith, length-append q (o ∷ old))

append_loop_split :
    (at : ℕ) (es pre old l : List Log)
    → at ≡ length pre
    → l ≡ pre ++ old
    → append_loop at es l ≡ pre ++ merge old es
unfolding append_loop merge
append_loop_split at [] pre [] l n e = e
append_loop_split at [] pre (o ∷ old) l n e = e
append_loop_split at (x ∷ es) pre [] l n e =
    append_loop_split (at + 1) es (pre ++ x ∷ []) [] _
      (omega (arith, length-append pre (x ∷ []), n)) (append_one_end at x pre l n e)
    ∙ append_assoc pre (x ∷ []) es
append_loop_split at (x ∷ es) pre (o ∷ old) l n e = elim (Bool-cases (o.term == x.term)) [
  | inl same ↦ rw same (
      append_loop_split (at + 1) es (pre ++ o ∷ []) old _ (snoc o)
        (append_one_at at x o pre old l n e ∙ (rw same))
      ∙ append_assoc pre (o ∷ []) (merge old es))
  | inr differs ↦ rw differs (
      append_loop_split (at + 1) es (pre ++ x ∷ []) [] _ (snoc x)
        (append_one_at at x o pre old l n e ∙ (rw differs))
      ∙ append_assoc pre (x ∷ []) es)
]
  where
    snoc : (y : Log) → at + 1 ≡ length (pre ++ y ∷ [])
    snoc y = omega (arith, length-append pre (y ∷ []), n)

-- The loop that appends, skips or truncates entry by entry, begun at a position within the log or
-- at its end, keeps the log up to that position, and turns what follows into its `merge` with the
-- leader's entries.
pub append_loop-merge :
    (at : ℕ) (es l : List Log)
    → at ≤ length l
    → append_loop at es l ≡ take at l ++ merge (drop at l) es
append_loop-merge at es l h =
    append_loop_split at es (take at l) (drop at l) l (omega (arith, length-take at l))
      (sym (take-append-drop at l))
