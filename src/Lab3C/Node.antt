-- ===== src/Lab3C/Node.antt =====
-- A peer of lab3-C/raft.go as a step relation: all that its handlers and goroutines do, in any
-- order and with any arguments from the network; and a crash with a restart.
use cslearning.Prelude.{ℕ, ◌≡◌, Option, some, List, done}
use cslearning.Raft.State.{Cmd}
use cslearning.Raft.Vote.{RequestVoteArgs, RequestVoteReply}
use cslearning.Raft.Replication.{AppendEntriesArgs, AppendEntriesReply}
use cslearning.Raft.Commit.{ApplyMsg}
use cslearning.Lab3C.State.{Raft, kill, make}
use cslearning.Lab3C.Vote.{request_vote, ticker, start_election, receive_vote, finish_election}
use cslearning.Lab3C.Append.{append_entries}
use cslearning.Lab3C.Leader.{start, start_leader, leader_round, entries_reply}
use cslearning.Lab3C.Commit.{push_to_followers, reach_to_commit}

pub data Step (r : Raft) : Raft → Type 0 where
  votes :
      (args : RequestVoteArgs) (reply : RequestVoteReply) {r' : Raft}
      → request_vote args r ≡ done (r', reply)
      → Step r r'
  appends :
      (now : ℕ) (args : AppendEntriesArgs) (reply : AppendEntriesReply) {r' : Raft}
      → append_entries now args r ≡ done (r', reply)
      → Step r r'
  starts : (cmd : Cmd) → Step r (start cmd r).0
  ticks : (now ms : ℕ) → Step r (ticker now ms r).0
  runs :
      (now : ℕ) (args : Option RequestVoteArgs) {r' : Raft}
      → start_election now r ≡ done (r', args)
      → Step r r'
  hears : (n : ℕ) (reply : RequestVoteReply) → Step r (receive_vote n reply r).0
  wins : (n : ℕ) → Step r (finish_election n r).0
  leads : Step r (start_leader r)
  sends :
      (now : ℕ) (out : Option (List (ℕ × AppendEntriesArgs × ℕ))) {r' : Raft}
      → leader_round now r ≡ done (r', out)
      → Step r r'
  answered : (i sent : ℕ) (reply : AppendEntriesReply) → Step r (entries_reply i sent reply r)
  commits : Step r (push_to_followers r).0
  applies : (msg : ApplyMsg) {r' : Raft} → reach_to_commit r ≡ done (some (r', msg)) → Step r r'
  dies : Step r (kill r)
  -- The decoder of `labgob` gives back what was encoded last.
  restarts :
      (now : ℕ) {r' : Raft}
      → make r.persister.raft_state r.peers r.me r.persister now ≡ done r'
      → Step r r'

pub data Reach (r : Raft) : Raft → Type 0 where
  here : Reach r r
  next : {s t : Raft} → Reach r s → Step s t → Reach r t
