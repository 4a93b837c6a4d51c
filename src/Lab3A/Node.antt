-- ===== src/Lab3A/Node.antt =====
-- A peer of lab3-A/raft.go as a step relation: all that its handlers and goroutines do, in any
-- order and with any arguments from the network. A crash loses everything, since nothing is saved.
use cslearning.Prelude.{ℕ, ◌≡◌, Option, done}
use cslearning.Raft.State.{Cmd}
use cslearning.Raft.Vote.{RequestVoteArgs, RequestVoteReply}
use cslearning.Raft.Replication.{AppendEntriesArgs}
use cslearning.Lab3A.Peer.{
  Raft, AppendEntriesReply, request_vote, ticker, start_election, receive_vote, finish_election,
  leader_round, entries_reply, append_entries, start, kill,
}

pub data Step (r : Raft) : Raft → Type 0 where
  votes : (args : RequestVoteArgs) → Step r (request_vote args r).0
  beats : (now : ℕ) (args : AppendEntriesArgs) → Step r (append_entries now args r).0
  starts : (cmd : Cmd) → Step r (start cmd r).0
  ticks : (now ms : ℕ) → Step r (ticker now ms r).0
  runs :
      (now : ℕ) (args : Option RequestVoteArgs) {r' : Raft}
      → start_election now r ≡ done (r', args)
      → Step r r'
  hears : (n : ℕ) (reply : RequestVoteReply) → Step r (receive_vote n reply r).0
  wins : (n : ℕ) → Step r (finish_election n r).0
  sends : (now : ℕ) → Step r (leader_round now r).0
  answered : (i : ℕ) (reply : AppendEntriesReply) → Step r (entries_reply i reply r)
  dies : Step r (kill r)
