-- ===== src/Raft/Node.antt =====
-- A peer of lab3-D/raft.go as a step relation: everything that any of its goroutines does under
-- the lock, in any order, with any arguments from the network; and a crash with a restart.
pub mod Votes
pub mod OneVote
pub mod Durable
use cslearning.Prelude.{ℕ, ◌≡◌, Bool, true, List, Run, done}
use cslearning.Raft.State.{Raft, Cmd, kill, make}
use cslearning.Raft.Vote.{
  RequestVoteArgs, RequestVoteReply, request_vote, ticker, start_election, receive_vote,
  finish_election,
}
use cslearning.Raft.Replication.{AppendEntriesArgs, AppendEntriesReply, append_entries}
use cslearning.Raft.Leader.{start, start_leader, entries_reply}
use cslearning.Raft.Commit.{push_to_followers}
use cslearning.Raft.Snapshot.{InstallSnapshotArgs, take_snapshot, install_snapshot, snapshot_reply}

pub data Step (r : Raft) : Raft → Type 0 where
  votes : (now : ℕ) (args : RequestVoteArgs) → Step r (request_vote now args r).0
  appends :
      (now : ℕ) (args : AppendEntriesArgs) (reply : AppendEntriesReply) {r' : Raft}
      → append_entries now args r ≡ done (r', reply)
      → Step r r'
  installs : (now : ℕ) (args : InstallSnapshotArgs) → Step r (install_snapshot now args r).0
  snapshots :
      (i : ℕ) (snapshot : List ℕ) {r' : Raft} → take_snapshot i snapshot r ≡ done r' → Step r r'
  starts : (cmd : Cmd) → Step r (start cmd r).0
  ticks : (now ms : ℕ) → Step r (ticker now ms r).0
  runs : (now : ℕ) → Step r (start_election now r).0
  hears : (n : ℕ) (reply : RequestVoteReply) → Step r (receive_vote n reply r).0
  wins : (n : ℕ) → Step r (finish_election n r).0
  leads : Step r (start_leader r)
  entries_answered :
      (i my_next : ℕ) (reply : AppendEntriesReply) → Step r (entries_reply i my_next reply r)
  snapshot_answered : (i reply_term : ℕ) → Step r (snapshot_reply i reply_term r)
  commits : Step r (push_to_followers r).0
  applies : (at : ℕ) → Step r (record r { last_applied = at })
  dies : Step r (kill r)
  -- The decoder of `labgob` gives back what was encoded last.
  restarts :
      (now : ℕ) {r' : Raft}
      → make r.persister.raft_state r.peers r.me r.persister now ≡ done r'
      → Step r r'

pub data Reach (r : Raft) : Raft → Type 0 where
  here : Reach r r
  next : {s t : Raft} → Reach r s → Step s t → Reach r t
