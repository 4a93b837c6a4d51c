-- ===== src/Raft/Replication/Panic.antt =====
-- lab3-D/raft.go: the negative index of `AppendEntries`.
use cslearning.Prelude.{
  dec_lt, zero, ℕ, suc, ◌-◌, ◌≤◌, ◌<◌, ◌≡◌, refl, ◌≢◌, ◌↔◌, false, List, [], ◌∷◌, length, ltb,
  arith, pos, negsuc, panic, sub_ℕ, get_elem?, none,
}
use cslearning.Raft.State.{Raft, Log, index_sub, persist}
use cslearning.Raft.Replication.{AppendEntriesArgs, reject, match_prev, see_leader, append_entries}

get_elem?_in : (l : List Log) (i : ℕ) → get_elem? l i ≡ none → length l ≤ i
get_elem?_in [] i h = omega arith
get_elem?_in (x ∷ l) zero h = cc
get_elem?_in (x ∷ l) (suc i) h = omega (arith, get_elem?_in l i h)

-- At a position that is not negative, the read is in range whenever it is made.
match_prev_pos : (at : ℕ) (args : AppendEntriesArgs) (r : Raft) → match_prev (pos at) args r ≢ panic
unfolding match_prev reject
match_prev_pos at args r = ground (arith, get_elem?_in r.log at)

match_prev_neg :
    (k : ℕ) (args : AppendEntriesArgs) (r : Raft) → match_prev (negsuc k) args r ≡ panic
unfolding match_prev
match_prev_neg k args r = refl

match_prev_below :
    (i c : ℕ) (args : AppendEntriesArgs) (r : Raft) → i < c → match_prev (sub_ℕ i c) args r ≡ panic
match_prev_below i c args r h = rw (sub-below i c h) (match_prev_neg (c - i - 1) args r)
  where
    sub-below : (a b : ℕ) → a < b → sub_ℕ a b ≡ negsuc (b - a - 1)
    sub-below a b below = ground arith

match_prev_above :
    (i c : ℕ) (args : AppendEntriesArgs) (r : Raft) → c ≤ i → match_prev (sub_ℕ i c) args r ≢ panic
match_prev_above i c args r h = rw (sub-above i c h) (match_prev_pos (i - c) args r)
  where
    sub-above : (a b : ℕ) → b ≤ a → sub_ℕ a b ≡ pos (a - b)
    sub-above a b above = ground arith

see_leader_commit :
    (now : ℕ) (args : AppendEntriesArgs) (r : Raft)
    → (see_leader now args r).last_snapshot_commit ≡ r.last_snapshot_commit
unfolding see_leader persist
see_leader_commit now args r = ground arith

-- `AppendEntries` panics, by a negative index, exactly when the request's term is current and its
-- `PrevLogIndex` lies below the follower's snapshot, as in a request that was delayed while
-- the follower took a snapshot. On every other request it returns.
pub append_entries_panics :
    (now : ℕ) (args : AppendEntriesArgs) (r : Raft)
    → (append_entries now args r ≡ panic)
      ↔ ((r.term ≤ args.term) × (args.prev_log_index < r.last_snapshot_commit))
unfolding append_entries index_sub
append_entries_panics now args r =
    let s = see_leader now args r in
    (
      λ e. (
        ground arith,
        elim (dec_lt args.prev_log_index r.last_snapshot_commit) [
          | yes below ↦ below
          | no above ↦ absurd (
              match_prev_above args.prev_log_index s.last_snapshot_commit args s
                (omega (arith, see_leader_commit now args r)) (ground arith))
        ],
      ),
      λ h. rw (current h.0) (
          match_prev_below args.prev_log_index s.last_snapshot_commit args s
            (omega (arith, h.1, see_leader_commit now args r))),
    )
  where
    current : r.term ≤ args.term → ltb args.term r.term ≡ false
    current h = ground arith
