-- ===== src/Examples/LogMatching.antt =====
-- Three peers of lab3-C: peer 0 is elected, appends a command and sends it to peer 1.
use mathlib.Core.List.{Memᴰ}
use cslearning.Prelude.{
  ℕ, zero, suc, leb, inr, Bool, ◌≡◌, refl, true, some, List, [], ◌∷◌, take, arith,
}
use cslearning.Raft.State.{Log, command}
use cslearning.Raft.Vote.{RequestVoteArgs, RequestVoteReply}
use cslearning.Raft.Replication.{
  AppendEntriesArgs, AppendEntriesReply, no_hint, append_loop, append_one,
}
use cslearning.Lab3C.State.{root, blank, persist, last_entry, step_down}
use cslearning.Lab3C.Vote.{ticker, start_election, finish_election, request_vote, request_vote_tail}
use cslearning.Lab3C.Leader.{start, build_entries}
use cslearning.Lab3C.Append.{append_entries, see_leader, match_prev, accept, learn_commit}
use cslearning.Lab3C.Node.{ticks, runs, votes}
use cslearning.Lab3C.Cluster.{
  World, Packet, first, Course, here, next, acts, elects, commands, sends, delivers,
}
use cslearning.Lab3C.Cluster.LogMatching.{log_matching, one_leader_at_once}
use cslearning.Lab3C.Cluster.Poll.{Backed, Cast}

abbrev entry : Log
entry = record { term = 1; cmd = command 9 }

abbrev both : List Log
both = root ∷ entry ∷ []

abbrev ask : RequestVoteArgs
ask = record { term = 1; candidate_id = 0; last_log_index = 0; last_log_term = 0 }

abbrev request : AppendEntriesArgs
request = record {
  term = 1;
  leader_id = 0;
  prev_log_index = 0;
  prev_log_term = 0;
  entries = entry ∷ [];
  leader_commit = 0;
}

abbrev taken : AppendEntriesReply
taken = record { term = 0; success = true; hint = no_hint }

abbrev packet : Packet
packet = record { from = 0; log = both; args = request }

abbrev granted : RequestVoteReply
granted = record { term = 1; vote_granted = true }

-- Peer 0 asks, and peer 1 votes for it.
abbrev asked : (w : World) × Course (first 3 5) w
unfolding blank ticker start_election persist last_entry request_vote request_vote_tail step_down
asked = (
  _,
  next (next (next here (acts 0 (ticks 9 0) tt)) (acts 0 (runs 9 (some ask) refl) tt))
      (acts 1 (votes ask granted refl) tt),
)

-- Peer 0 has two votes of three, appends a command and sends it.
abbrev course : (w : World) × Course (first 3 5) w
unfolding blank ticker start_election finish_election start build_entries append_entries persist
    last_entry see_leader match_prev accept learn_commit append_loop append_one request_vote
    request_vote_tail step_down
course = (
  _,
  next
      (next (next (next asked.1 (elects 0 2 refl)) (commands 0 (command 9)))
        (sends 0 1 2 request refl refl))
      (delivers 1 10 packet taken (Memᴰ.head refl) (λ e. absurd (omega arith)) refl),
)

abbrev two : ℕ → Bool
two q = leb q 1

backed : Backed asked.1 3 0 2
unfolding blank ticker start_election persist last_entry request_vote request_vote_tail step_down
backed = record { under_way = refl; voters = two; delivered = omega arith; voted = voted }
  where
    voted : (q : ℕ) → two q ≡ true → Cast asked.1 1 q 0
    voted zero h = inr (refl, refl)
    voted (suc zero) h = inr (refl, refl)
    voted (suc (suc q)) h = absurd (ground (arith, h))

log_matching_example : take 2 both ≡ take 2 both
unfolding blank ticker start_election finish_election start build_entries append_entries persist
    last_entry see_leader match_prev accept learn_commit append_loop append_one request_vote
    request_vote_tail step_down
log_matching_example = log_matching 3 5 0 1 1 entry entry course.1 (tt, backed) refl refl refl

one_leader_at_once_example : ◌≡◌ {A = ℕ} 0 0
unfolding blank ticker start_election finish_election start build_entries append_entries persist
    last_entry see_leader match_prev accept learn_commit append_loop append_one request_vote
    request_vote_tail step_down
one_leader_at_once_example = one_leader_at_once 3 5 0 0 course.1 (tt, backed) refl refl refl
