-- ===== src/Examples/Raft.antt =====
-- A peer of three that votes, crashes, and is elected.
use cslearning.Prelude.{◌+◌, ◌≤◌, ◌≡◌, refl, true, none, some, List, [], ◌∷◌, Returns}
use cslearning.Raft.State.{
  Raft, zero_log, leader, candidate, follower, int, logs, make, read_persist, blank, reset_first,
  persist, last_log, kill,
}
use cslearning.Raft.Vote.{
  RequestVoteArgs, request_vote, start_election, majority, receive_vote, finish_election,
}
use cslearning.Raft.Node.{votes, dies, restarts, here, next}
use cslearning.Raft.Node.OneVote.{one_vote_per_term}
use cslearning.Raft.Node.Durable.{Stored}
use cslearning.Raft.Node.Durable.Always.{Step-Stored}
use cslearning.Raft.Node.Durable.Restart.{make-Recovers, Recovers}
use cslearning.Raft.Election.{Turn, reply, run_election}
use cslearning.Raft.Election.Tally.{votes_in}
use cslearning.Raft.Election.Others.{nothing}
use cslearning.Raft.Election.Winner.{elected_by_majority}

abbrev pub new_peer : Raft
new_peer = record {
  peers = 3;
  persister = record { raft_state = []; snapshot = [] };
  me = 0;
  dead = 0;
  term = 0;
  voted_for = none;
  log = zero_log ∷ [];
  commit_index = 0;
  last_applied = 0;
  next_index = 0 ∷ 0 ∷ 0 ∷ [];
  match_index = 0 ∷ 0 ∷ 0 ∷ [];
  time = 0;
  state = follower;
  last_snapshot_commit = 0;
  last_snapshot_term = 0;
  snapshot = [];
}

new_peer-Stored : Stored new_peer
new_peer-Stored = record { starts_at = refl; holds = (refl, refl, (refl, refl), refl, refl) }

abbrev request : RequestVoteArgs
request = record { term = 1; candidate_id = 2; last_log_index = 0; last_log_term = 0 }

abbrev again : RequestVoteArgs
again = record { term = 1; candidate_id = 2; last_log_index = 3; last_log_term = 1 }

-- The peer after its vote.
abbrev voted : Raft
voted = record new_peer {
  persister = record {
    raft_state =
        int (some 1) ∷ int (some 2) ∷ logs (zero_log ∷ []) ∷ int (some 0) ∷ int (some 0) ∷ [];
    snapshot = [];
  };
  term = 1;
  voted_for = some 2;
  time = 5;
}

voted_lem : (request_vote 5 request new_peer).0 ≡ voted
unfolding request_vote persist last_log
voted_lem = refl

-- The second request comes after a crash.
one_vote_per_term_example : request.candidate_id ≡ again.candidate_id
unfolding request_vote persist last_log make read_persist blank reset_first kill
one_vote_per_term_example =
    one_vote_per_term new_peer request again 5 9 new_peer-Stored refl
      (next (next here dies) (restarts 7 refl)) refl refl

Step-Stored_example : Stored (request_vote 5 request new_peer).0
Step-Stored_example = Step-Stored (votes 5 request) new_peer-Stored

make-Recovers_example :
    Returns (make [] 3 0 (record { raft_state = []; snapshot = [] }) 9) (Recovers new_peer)
make-Recovers_example = make-Recovers new_peer 9 new_peer-Stored

abbrev pub standing : Raft
standing = record new_peer { state = candidate }

abbrev pub ballot : List Turn
ballot =
    record {
      before = λ r. r;
      meanwhile = λ r. r;
      signal = reply (record { term = 1; vote_granted = true });
    }
    ∷ []

abbrev pub elected : Raft
elected = record standing {
  persister = record {
    raft_state =
        int (some 1) ∷ int (some 0) ∷ logs (zero_log ∷ []) ∷ int (some 0) ∷ int (some 0) ∷ [];
    snapshot = [];
  };
  term = 1;
  voted_for = some 0;
  time = 3;
  state = leader;
}

elected_by_majority_example :
    (elected.term ≡ 0 + 1) × (majority standing ≤ 1 + votes_in (0 + 1) ballot)
unfolding run_election persist last_log receive_vote finish_election start_election
elected_by_majority_example =
    elected_by_majority 3 ballot (λ r. r) standing elected (λ r. nothing, λ r. nothing, tt)
      (λ r. nothing) refl
