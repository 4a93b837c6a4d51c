-- ===== src/Examples/Cluster.antt =====
-- Three peers that all vote for peer 0 in term 1.
use cslearning.Prelude.{ℕ, zero, suc, ◌≡◌, refl, true, arith}
use cslearning.Raft.State.{Raft, persist, last_log}
use cslearning.Raft.Vote.{
  RequestVoteArgs, request_vote, start_election, receive_vote, finish_election,
}
use cslearning.Raft.Node.{Reach, here, next, votes}
use cslearning.Raft.Election.{run_election}
use cslearning.Raft.Election.Others.{nothing}
use cslearning.Raft.Cluster.{Runs, Wins}
use cslearning.Raft.Cluster.OneLeader.{one_leader_per_term}
use cslearning.Examples.Raft.{standing, ballot, elected}

abbrev for_zero : RequestVoteArgs
for_zero = record { term = 1; candidate_id = 0; last_log_index = 0; last_log_term = 0 }

abbrev course : ℕ → ℕ → Raft
course zero p = standing
course (suc t) p = (request_vote 5 for_zero standing).0

course-Runs : Runs course
course-Runs = record {
  goes_on = moves;
  begins = λ p. record { starts_at = refl; holds = (refl, refl, (refl, refl), refl, refl) };
}
  where
    moves : (t p : ℕ) → Reach (course t p) (course (suc t) p)
    moves zero p = next here (votes 5 for_zero)
    moves (suc t) p = here

zero-Wins : Wins course 3 1 0
unfolding run_election start_election persist last_log receive_vote finish_election request_vote
zero-Wins = record {
  moment = 0;
  now = 3;
  turns = ballot;
  lastly = λ r. r;
  result = elected;
  by_others = (λ r. nothing, λ r. nothing, tt);
  last_by_others = λ r. nothing;
  elected = refl;
  new_term = refl;
  all_peers = refl;
  voters = λ p. true;
  delivered = omega arith;
  voted = λ p v. (1, refl, refl);
}

abbrev winner : ℕ
winner = 0

one_leader_per_term_example : winner ≡ winner
one_leader_per_term_example =
    one_leader_per_term course 3 1 winner winner course-Runs zero-Wins zero-Wins
