-- ===== src/Examples/Lab3A.antt =====
-- A peer of lab3-A that votes twice for the same candidate, and one that votes as a leader.
use cslearning.Prelude.{false, ◌<◌, refl}
use cslearning.Raft.Vote.{RequestVoteArgs}
use cslearning.Ballot.{here, next}
use cslearning.Lab3A.Peer.{Raft, make, request_vote, receive_vote}
use cslearning.Lab3A.Node.{hears}
use cslearning.Lab3A.OneVote.{terms_of_votes_rise}

abbrev request : RequestVoteArgs
request = record { term = 2; candidate_id = 1; last_log_index = 0; last_log_term = 0 }

abbrev later_request : RequestVoteArgs
later_request = record request { term = 3 }

abbrev new_peer : Raft
unfolding make
new_peer = make 3 0 5

-- In between it hears of the later term in a reply.
terms_of_votes_rise_example : request.term < later_request.term
unfolding make request_vote receive_vote
terms_of_votes_rise_example =
    terms_of_votes_rise new_peer
      (receive_vote 1 (record { term = 3; vote_granted = false })
        (request_vote request new_peer).0).0
      request later_request refl (next here (hears 1 (record { term = 3; vote_granted = false })))
      refl
