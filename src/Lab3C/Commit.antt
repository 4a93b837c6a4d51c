-- ===== src/Lab3C/Commit.antt =====
-- lab3-C/raft.go: `pushToFollowers`, which commits what a majority holds, and `ReachToCommit`,
-- which hands committed commands to the service one at a time.
use cslearning.Prelude.{
  ℕ, zero, suc, ◌+◌, ◌-◌, Bool, true, false, Option, none, some, List, [], ◌∷◌, ltb, leb, ◌==◌,
  ◌&&◌, ◌||◌, not, if◌then◌else◌, length, pos, Run, done, index, ◌>>=◌,
}
use cslearning.Raft.State.{is_leader, term_at}
use cslearning.Raft.Commit.{ApplyMsg, command_msg}
use cslearning.Lab3C.State.{Raft, killed}
use cslearning.Lab3C.Vote.{majority}

-- The loop over `rf.matchIndex` from index `i` on, which skips the peer itself.
abbrev pub others_holding : (me at i : ℕ) → List ℕ → ℕ
others_holding me at i [] = 0
others_holding me at i (m ∷ ms) =
    (if leb at m && not (i == me) then 1 else 0) + others_holding me at (i + 1) ms

-- One round of the loop below at `n`, where `rest` is what the later rounds come to.
abbrev pub commit_visit : ℕ → Raft → Raft → Raft
commit_visit n r rest =
    if ltb r.commit_index n
    then (if leb (majority r) (1 + others_holding r.me n 0 r.match_index)
          && term_at r.log n == r.term
        then record r { commit_index = n }
        else rest)
    else r

-- The loop `for N := len(rf.log) - 1; N > rf.commitIndex; N--`.
unfoldable pub commit_scan : ℕ → Raft → Raft
commit_scan zero r = r
commit_scan (suc n) r = commit_visit (suc n) r (commit_scan n r)

-- One round of the goroutine of `pushToFollowers`: whether it goes on, and the new state.
unfoldable pub push_to_followers : Raft → Raft × Bool
unfolding commit_scan killed
push_to_followers r =
    if leb (length r.log) (r.commit_index + 1)
    then (r, true)
    else if killed r || not (is_leader r.state)
    then (r, false)
    else (commit_scan (length r.log - 1) r, true)

-- One round of `ReachToCommit`; `none` while there is nothing to hand over.
unfoldable pub reach_to_commit : Raft → Run (Option (Raft × ApplyMsg))
unfolding killed
reach_to_commit r =
    if killed r || leb r.commit_index r.last_applied
    then done none
    else (let at = r.last_applied + 1 in
        index r.log (pos at) >>= λ e.
        done (some (record r { last_applied = at }, command_msg e.cmd at)))
