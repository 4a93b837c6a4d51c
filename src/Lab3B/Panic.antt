-- ===== src/Lab3B/Panic.antt =====
-- lab3-B/raft.go: a `nextIndex` past the end of the log.
use cslearning.Prelude.{
  false, not, ◌||◌, ℕ, zero, suc, ◌+◌, ◌-◌, ◌≤◌, ◌<◌, ◌≡◌, refl, some, none, List, [], ◌∷◌, length,
  get_elem?, sub_ℕ, pos, subst, Run, done, panic, arith, ◌>>=◌,
}
use native.Mathlib.Nat.{zero-add, add-zero}
use cslearning.Raft.State.{Log, leader, is_leader}
use cslearning.Raft.Replication.{AppendEntriesArgs}
use cslearning.Lab3B.Peer.{killed, Raft}
use cslearning.Lab3B.Leader.{args_for, heartbeats, leader_round}

get_elem?_past : (l : List Log) (i : ℕ) → length l ≤ i → get_elem? l i ≡ none
get_elem?_past [] i h = refl
get_elem?_past (e ∷ l) zero h = absurd (omega arith)
get_elem?_past (e ∷ l) (suc i) h = get_elem?_past l i (omega arith)

args_for_past :
    (i next : ℕ) (r : Raft)
    → get_elem? r.next_index i ≡ some next
    → length r.log < next
    → args_for i [] r ≡ panic
unfolding args_for
args_for_past i next r e h =
    rw (e, from_one next (omega arith), get_elem?_past r.log (next - 1) (omega arith)) refl
  where
    from_one : (n : ℕ) → 1 ≤ n → sub_ℕ n 1 ≡ pos (n - 1)
    from_one n le = ground arith

-- One bad position spoils the round, wherever the others stand.
heartbeats_past :
    (left i k next : ℕ) (r : Raft)
    → k < left
    → get_elem? r.next_index (k + i) ≡ some next
    → length r.log < next
    → heartbeats left i r ≡ panic
unfolding heartbeats
heartbeats_past zero i k next r lt e h = absurd (omega arith)
heartbeats_past (suc left) i zero next r lt e h =
    rw (args_for_past i next r (subst (λ n. get_elem? r.next_index n ≡ some next) (zero-add i) e) h)
      refl
heartbeats_past (suc left) i (suc k) next r lt e h = spoiled (args_for i [] r) (
    heartbeats_past left (i + 1) k next r (omega arith)
      (subst (λ n. get_elem? r.next_index n ≡ some next) (omega arith) e) h)
  where
    spoiled :
        (m : Run AppendEntriesArgs)
        → heartbeats left (i + 1) r ≡ panic
        → (m >>= λ args. (heartbeats left (i + 1) r >>= λ rest. done (args ∷ rest))) ≡ panic
    spoiled panic p = refl
    spoiled (done args) p = rw p refl

-- `startLearder` of lab3-B does not reset `nextIndex`. If the `nextIndex` of any peer lies past the
-- end of the leader's log by more than one place, as after an earlier leadership with a longer
-- log, the next round of heartbeats panics with an index out of range.
pub round_panics :
    (now i next : ℕ) (r : Raft)
    → r.state ≡ leader
    → killed r ≡ false
    → i < r.peers
    → get_elem? r.next_index i ≡ some next
    → length r.log < next
    → leader_round now r ≡ panic
unfolding leader_round
round_panics now i next r leads lives lt e h =
    let goes_on : (killed r || not (is_leader r.state)) ≡ false = ground arith in
    rw (goes_on, heartbeats_past r.peers 0 i next r lt (rw add-zero e) h) refl
