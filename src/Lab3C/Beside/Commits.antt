-- ===== src/Lab3C/Beside/Commits.antt =====
-- lab3-C/raft.go: what the leader commits and sends, beside lab3-D.
use cslearning.Prelude.{
  ℕ, zero, suc, ◌+◌, ◌-◌, ◌≤◌, ◌<◌, ◌≡◌, refl, sym, ap, true, false, List, [], ◌∷◌, length, set,
  leb, ltb, ◌==◌, ◌&&◌, ◌||◌, not, Bool-cases, inl, inr, arith, Option-cases, get_elem?, sub_ℕ, pos,
}
use native.Mathlib.Nat.{add-zero}
use cslearning.Raft.State.{Raft as FullRaft, is_leader, term_at, index_add, index_sub}
use cslearning.Raft.Commit.{
  holders, commit_visit as full_visit, commit_scan as full_scan, push_to_followers as full_push,
}
use cslearning.Raft.Leader.{build_entries as full_build_entries}
use cslearning.Lab3C.State.{Raft, killed}
use cslearning.Lab3C.Vote.{majority}
use cslearning.Lab3C.Leader.{build_entries}
use cslearning.Lab3C.Commit.{others_holding, commit_visit, commit_scan, push_to_followers}
use cslearning.Lab3C.Beside.{Extra, lift}

-- Past the peer's own place nothing is skipped.
others_past : (me at i : ℕ) (ms : List ℕ) → me < i → others_holding me at i ms ≡ holders at ms
others_past me at i [] h = refl
others_past me at i (m ∷ ms) h =
    let off : (i == me) ≡ false = ground arith in
    rw off (ground (arith, others_past me at (i + 1) ms))

-- Counting the others and the peer itself is counting all, with the peer's own index far enough.
holders-set :
    (me k at own i : ℕ) (ms : List ℕ)
    → me ≡ k + i
    → at ≤ own
    → k < length ms
    → holders at (set ms k own) ≡ 1 + others_holding me at i ms
holders-set me k at own i [] e h lt = absurd (omega arith)
holders-set me zero at own i (m ∷ ms) e h lt =
    let here : (i == me) ≡ true = ground arith in
    let far : leb at own ≡ true = ground arith in
    rw (here, far) (ground (arith, others_past me at (i + 1) ms))
holders-set me (suc k) at own i (m ∷ ms) e h lt =
    let off : (i == me) ≡ false = ground arith in
    rw off (ground (arith, holders-set me k at own (i + 1) ms))

-- lab3-D sets `matchIndex` of the leader itself as well, to `own`.
abbrev pub counted : Extra → ℕ → Raft → Extra
counted x own c = record x {
  commit_index = c.commit_index;
  match_index = set c.match_index c.me own;
}

module _ (x : Extra) (own : ℕ) (c : Raft) (mine : c.me < length c.match_index) where
  visit-Beside :
      (n k : ℕ) (rest : Raft)
      → n ≤ own
      → rest.commit_index ≡ k
      → full_visit n
          (lift (counted x own c) c)
          (lift (record (counted x own c) { commit_index = k }) c)
        ≡ lift (record (counted x own c) { commit_index = (commit_visit n c rest).commit_index }) c
  visit-Beside n k rest h e =
      rw (add-zero, holders-set c.me c.me n own 0 c.match_index (omega arith) h mine)
        (elim (Bool-cases (ltb c.commit_index n)) [
          | inr over ↦ rw over refl
          | inl more ↦
              rw more
                (elim (Bool-cases (
                  leb (majority c) (1 + others_holding c.me n 0 c.match_index)
                  && term_at c.log n == c.term)) [
                    | inl stops ↦ rw stops refl
                    | inr goes_on ↦ rw goes_on (
                        ap (λ (a : ℕ). lift (record (counted x own c) { commit_index = a }) c)
                          (sym e))
                  ])
        ])

  scan-Beside :
      (n : ℕ)
      → n ≤ own
      → full_scan n (lift (counted x own c) c)
        ≡ lift (record (counted x own c) { commit_index = (commit_scan n c).commit_index }) c
  unfolding commit_scan full_scan
  scan-Beside zero h = let over : ltb c.commit_index (0 + 0) ≡ false = ground arith in rw over refl
  scan-Beside (suc n) h =
      rw (scan-Beside n (omega arith)) (visit-Beside (suc n) _ (commit_scan n c) h refl)

-- A round of `pushToFollowers` commits the same index in both versions, and both go on or stop,
-- where they start from the same `commitIndex` and the same `matchIndex` of the other
-- peers, and lab3-D has set the leader's own to the end of the log or further.
pub push-Beside :
    (x : Extra) (own : ℕ) (c : Raft)
    → c.me < length c.match_index
    → length c.log ≤ own + 1
    → full_push (lift (counted x own c) c) ≡ (
      lift (record (counted x own c) { commit_index = (push_to_followers c).0.commit_index }) c,
      (push_to_followers c).1,
    )
unfolding push_to_followers full_push
push-Beside x own c mine far =
    rw add-zero (elim (Bool-cases (leb (length c.log) (c.commit_index + 1))) [
      | inl full ↦ rw full refl
      | inr short ↦ rw short (elim (Bool-cases (killed c || not (is_leader c.state))) [
        | inl over ↦ rw over refl
        | inr at_work ↦ rw at_work (
            ap (λ (r : FullRaft). (r, true))
              (scan-Beside x own c mine (length c.log - 1) (omega arith)))
      ])
    ])

from_start : (n : ℕ) → sub_ℕ n 0 ≡ pos n
from_start n = ground arith

-- With the same `nextIndex` and `commitIndex` the leader sends the same in both.
build_entries-Beside :
    (x : Extra) (i : ℕ) (c : Raft)
    → full_build_entries i
        (lift (record x { commit_index = c.commit_index; next_index = c.next_index }) c)
      ≡ build_entries i c
unfolding build_entries full_build_entries index_add index_sub
build_entries-Beside x i c = rw add-zero (elim (Option-cases (get_elem? c.next_index i)) [
  | inl missing ↦ rw missing refl
  | inr (next, found) ↦ rw found (rw (from_start next) refl)
])
