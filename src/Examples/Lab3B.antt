-- ===== src/Examples/Lab3B.antt =====
-- A peer of lab3-B that votes, follows a newer leader without seeing it, and panics as a leader.
use cslearning.Prelude.{pos, ◌≡◌, refl, true, some, [], ◌∷◌, panic, Returns, arith}
use cslearning.Raft.State.{Log, leader, command, Persister}
use cslearning.Raft.Vote.{RequestVoteArgs, RequestVoteReply}
use cslearning.Raft.Replication.{AppendEntriesArgs}
use cslearning.Ballot.{here}
use cslearning.Lab3B.Peer.{killed, Raft, make, request_vote}
use cslearning.Lab3B.Leader.{leader_round}
use cslearning.Lab3B.OneVote.{second_one_vote}
use cslearning.Lab3B.Checked.{append_entries_checked}
use cslearning.Lab3B.Appends.{SameLog, upgrade, append_entries-SameLog}
use cslearning.Lab3B.Panic.{round_panics}
use cslearning.Lab3C.Append.{append_entries as later_append_entries}

abbrev request : RequestVoteArgs
request = record { term = 2; candidate_id = 1; last_log_index = 0; last_log_term = 0 }

abbrev new_peer : Raft
unfolding make
new_peer = make 3 0 5

abbrev voted : Raft
unfolding make
voted = record new_peer { term = 2; voted_for = some 1 }

abbrev granted : RequestVoteReply
granted = record { term = 2; vote_granted = true }

second_one_vote_example : request.candidate_id ≡ request.candidate_id
unfolding make request_vote
second_one_vote_example =
    second_one_vote new_peer voted voted voted request request granted granted refl refl here refl
      refl refl

abbrev entry : Log
entry = record { term = 2; cmd = command 7 }

abbrev batch : AppendEntriesArgs
batch = record {
  term = 2;
  leader_id = 1;
  prev_log_index = 0;
  prev_log_term = 0;
  entries = entry ∷ [];
  leader_commit = 1;
}

abbrev nothing_saved : Persister
nothing_saved = record { raft_state = []; snapshot = [] }

append_entries-SameLog_example :
    Returns
      (append_entries_checked 6 (pos 0) batch new_peer)
      (SameLog (later_append_entries 6 batch (upgrade nothing_saved new_peer)))
append_entries-SameLog_example = append_entries-SameLog nothing_saved 6 batch new_peer

abbrev again_leader : Raft
unfolding make
again_leader = record new_peer { state = leader; next_index = 1 ∷ 4 ∷ 1 ∷ [] }

round_panics_example : leader_round 9 again_leader ≡ panic
unfolding make killed
round_panics_example = round_panics 9 1 4 again_leader refl refl (omega arith) refl (omega arith)
