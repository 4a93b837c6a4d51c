-- ===== src/Lab3B/Leader.antt =====
-- lab3-B/raft.go: `Start`, the heartbeats of `startLearder`, and the goroutine of `pushToFollowers`
-- that sends entries to one follower.
use cslearning.Prelude.{
  ℕ, zero, suc, ◌+◌, ◌-◌, Bool, Option, none, some, List, [], ◌∷◌, ◌++◌, ltb, ◌||◌, not,
  if◌then◌else◌, length, get_or, get_elem?, set, sub_ℕ, pos, Run, done, of_option, index,
  slice_from, ◌>>=◌,
}
use cslearning.Raft.State.{Log, Cmd, is_leader}
use cslearning.Raft.Replication.{AppendEntriesArgs}
use cslearning.Raft.Leader.{max_int}
use cslearning.Lab3A.Peer.{AppendEntriesReply}
use cslearning.Lab3B.Peer.{Raft, killed, step_down}

-- `Start`: the index and term of the new entry, and whether this peer is the leader.
unfoldable pub start : Cmd → Raft → Raft × (ℕ × ℕ × Bool)
start cmd r =
    let r' =
      if is_leader r.state
      then record r { log = r.log ++ record { term = r.term; cmd = cmd } ∷ [] }
      else r in
    (r', (length r'.log - 1, r'.term, is_leader r.state))

-- The arguments for follower `i`, with the given entries.
unfoldable pub args_for : ℕ → List Log → Raft → Run AppendEntriesArgs
args_for i entries r = of_option (get_elem? r.next_index i) >>= λ next.
    (index r.log (sub_ℕ next 1) >>= λ prev. done (record {
      term = r.term;
      leader_id = r.me;
      prev_log_index = next - 1;
      prev_log_term = prev.term;
      entries = entries;
      leader_commit = r.commit_index;
    }))

-- The loop of `startLearder` over `rf.peers` from `i` on: a heartbeat for each.
unfoldable pub heartbeats : (left i : ℕ) → Raft → Run (List AppendEntriesArgs)
unfolding args_for
heartbeats zero i r = done []
heartbeats (suc left) i r =
    args_for i [] r >>= λ args. (heartbeats left (i + 1) r >>= λ rest. done (args ∷ rest))

-- A round of the loop of `startLearder`; `none` is the end of the loop for a peer that no longer
-- leads or is killed.
unfoldable pub leader_round : ℕ → Raft → Run (Raft × Option (List AppendEntriesArgs))
unfolding heartbeats killed
leader_round now r =
    if killed r || not (is_leader r.state)
    then done (r, none)
    else (heartbeats r.peers 0 r >>= λ sent. done (record r { time = now }, some sent))

-- What `startLearder` does with the reply of peer `i`: on success it goes by the present
-- `nextIndex`.
unfoldable pub heartbeat_reply : ℕ → AppendEntriesReply → Raft → Raft
unfolding step_down
heartbeat_reply i reply r =
    if ltb r.term reply.term
    then step_down reply.term r
    else if reply.success
    then record r { match_index = set r.match_index i (get_or r.next_index i 0 - 1) }
    else record r { next_index = set r.next_index i (max_int 1 (get_or r.next_index i 0 - 1)) }

-- What the sender for follower `i` does when its sleep is over.
pub data Push : Type 0 where
  nothing_new gives_up : Push
  sends : (args : AppendEntriesArgs) (send_index : ℕ) → Push

unfoldable pub push_round : ℕ → Raft → Run Push
unfolding args_for killed
push_round i r = of_option (get_elem? r.next_index i) >>= λ next.
    (if ltb (length r.log - 1) next
      then done nothing_new
      else if killed r || not (is_leader r.state)
      then done gives_up
      else (slice_from r.log (pos next) >>= λ entries.
          (args_for i entries r >>= λ args. done (sends args (length r.log)))))

-- What the sender for follower `i` does with a reply to a request sent at log length `sent`.
unfoldable pub entries_reply : ℕ → ℕ → AppendEntriesReply → Raft → Raft
unfolding step_down
entries_reply i sent reply r =
    if ltb r.term reply.term
    then step_down reply.term r
    else if reply.success
    then record r {
      next_index = set r.next_index i sent;
      match_index = set r.match_index i (sent - 1);
    }
    else record r { next_index = set r.next_index i (max_int 1 (get_or r.next_index i 0 - 1)) }
