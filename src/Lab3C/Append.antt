-- ===== src/Lab3C/Append.antt =====
-- lab3-C/raft.go: `AppendEntries`. The two loops of the handler, over the entries and back over the
-- conflicting term, are those of lab3-D, word for word. `PrevLogIndex` is not negative here: no
-- leader of this code sends another, since it would have to read `rf.log[-1]` first. The handler of
-- Lab3C/Checked.antt takes any `int`, panics on a negative one that is not stale, and is this one on
-- the others.
use cslearning.Prelude.{
  ℕ, ◌+◌, true, false, ltb, leb, ◌==◌, if◌then◌else◌, length, pos, Run, done, index, ◌>>=◌,
}
use cslearning.Raft.Replication.{
  AppendEntriesArgs, AppendEntriesReply, no_hint, x_len, x_term, append_loop, back_up, is_empty,
}
use cslearning.Lab3C.State.{Raft, persist, step_down}

-- `time_`, and the newer term if there is one
unfoldable pub see_leader : ℕ → AppendEntriesArgs → Raft → Raft
unfolding step_down
see_leader now args r =
    if ltb r.term args.term
    then persist (step_down args.term (record r { time = now }))
    else record r { time = now }

-- The reply that says where the logs part.
unfoldable pub reject : ℕ → Raft → Run AppendEntriesReply
unfolding back_up
reject p r =
    if leb (length r.log) p
    then done (record { term = r.term; success = false; hint = x_len (length r.log) })
    else (index r.log (pos p) >>= λ e.
        done (record {
          term = r.term;
          success = false;
          hint = x_term e.term (back_up r.log e.term p);
        }))

-- `LeaderCommit > commitIndex`: the follower learns what is committed.
unfoldable pub learn_commit : AppendEntriesArgs → Raft → Raft
learn_commit args r =
    if ltb r.commit_index args.leader_commit
    then record r {
      commit_index =
          let last = args.prev_log_index + length args.entries in
          if ltb args.leader_commit last then args.leader_commit else last;
    }
    else r

-- The logs agree at `PrevLogIndex`: take the entries in.
unfoldable pub accept : AppendEntriesArgs → Raft → Raft × AppendEntriesReply
accept args r =
    if is_empty args.entries
    then (learn_commit args r, record { term = r.term; success = true; hint = no_hint })
    else (
      learn_commit args
          (persist (record r { log = append_loop (args.prev_log_index + 1) args.entries r.log })),
      record { term = 0; success = true; hint = no_hint },
    )

-- The check against `PrevLogIndex`, and what follows.
unfoldable pub match_prev : AppendEntriesArgs → Raft → Run (Raft × AppendEntriesReply)
match_prev args r =
    if leb (length r.log) args.prev_log_index
    then reject args.prev_log_index r >>= (λ reply. done (r, reply))
    else (index r.log (pos args.prev_log_index) >>= λ e.
        if e.term == args.prev_log_term
        then done (accept args r)
        else reject args.prev_log_index r >>= (λ reply. done (r, reply)))

unfoldable pub append_entries : ℕ → AppendEntriesArgs → Raft → Run (Raft × AppendEntriesReply)
append_entries now args r =
    let r₁ = see_leader now args r in
    if ltb args.term r₁.term
    then done (r₁, record { term = r₁.term; success = false; hint = no_hint })
    else match_prev args r₁
