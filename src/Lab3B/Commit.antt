-- ===== src/Lab3B/Commit.antt =====
-- lab3-B/raft.go: the goroutine of `pushToFollowers` that commits, and `ReachToCommit`.
use cslearning.Prelude.{
  ℕ, zero, suc, ◌+◌, ◌-◌, Bool, true, false, Option, none, some, ltb, leb, ◌==◌, ◌&&◌, ◌||◌, not,
  if◌then◌else◌, length, pos, Run, done, index, ◌>>=◌,
}
use cslearning.Raft.State.{is_leader, term_at}
use cslearning.Raft.Commit.{ApplyMsg, command_msg, holders}
use cslearning.Lab3B.Peer.{Raft, killed, majority}

-- One round of the loop below at `n`, where `rest` is what the later rounds come to. The count
-- starts at 1 and takes in every `matchIndex`, the peer's own too.
abbrev pub commit_visit : ℕ → Raft → Raft → Raft
commit_visit n r rest =
    if ltb r.commit_index n
    then (if leb (majority r) (1 + holders n r.match_index) && term_at r.log n == r.term
        then record r { commit_index = n }
        else rest)
    else r

-- The loop `for N := len(rf.log) - 1; N > rf.commitIndex; N--`.
unfoldable pub commit_scan : ℕ → Raft → Raft
commit_scan zero r = r
commit_scan (suc n) r = commit_visit (suc n) r (commit_scan n r)

-- One round of the committing goroutine: whether it goes on, and the new state.
unfoldable pub push_to_followers : Raft → Raft × Bool
unfolding commit_scan killed
push_to_followers r =
    if leb (length r.log) (r.commit_index + 1)
    then (r, true)
    else if killed r || not (is_leader r.state)
    then (r, false)
    else (commit_scan (length r.log - 1) r, true)

-- One round of the loop of `ReachToCommit`; `none` while there is nothing to hand over.
unfoldable pub reach_to_commit : Raft → Run (Option (Raft × ApplyMsg))
unfolding killed
reach_to_commit r =
    if killed r || leb r.commit_index r.last_applied
    then done none
    else (let at = r.last_applied + 1 in
        index r.log (pos at) >>= λ e.
        done (some (record r { last_applied = at }, command_msg e.cmd at)))
