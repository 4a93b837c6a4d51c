-- ===== src/Examples/Lab3C.antt =====
-- A peer of lab3-C beside lab3-D: a vote, an append and a commit.
use cslearning.Prelude.{
  ℕ, ◌≡◌, refl, true, some, [], ◌∷◌, Returns, arith, ℤ, pos, negsuc, ltb, false, done, panic,
}
use cslearning.Raft.State.{Log, leader, candidate, command, int, logs}
use cslearning.Raft.Vote.{RequestVoteArgs, RequestVoteReply}
use cslearning.Raft.Replication.{AppendEntriesArgs, append_entries as full_append_entries}
use cslearning.Raft.Commit.{push_to_followers as full_push}
use cslearning.Lab3C.State.{Raft, root, persist, blank}
use cslearning.Lab3C.Vote.{request_vote, start_election, finish_election}
use cslearning.Lab3C.Leader.{start, start_leader}
use cslearning.Lab3C.Append.{append_entries}
use cslearning.Lab3C.Checked.{append_entries_checked}
use cslearning.Lab3C.Commit.{push_to_followers}
use cslearning.Lab3C.Unasked.{commits_unasked}
use cslearning.Lab3C.Node.{here, next, votes}
use cslearning.Lab3C.Beside.{Extra, lift}
use cslearning.Lab3C.Beside.Appends.{SameOutcome, heard, append_entries-Beside}
use cslearning.Lab3C.Beside.Commits.{push-Beside, counted}
use cslearning.Lab3C.Beside.OneVote.{fresh, plain_one_vote, reads_in_range}

abbrev request : RequestVoteArgs
request = record { term = 2; candidate_id = 1; last_log_index = 0; last_log_term = 0 }

abbrev granted : RequestVoteReply
granted = record { term = 2; vote_granted = true }

abbrev apart : Extra
apart = record {
  time = 1;
  commit_index = 0;
  last_applied = 0;
  next_index = 1 ∷ 1 ∷ 1 ∷ [];
  match_index = 0 ∷ 0 ∷ 0 ∷ [];
}

abbrev new_peer : Raft
unfolding blank
new_peer = fresh 3 0 5

abbrev voted : Raft
unfolding blank
voted = record new_peer {
  persister = record {
    raft_state = int (some 2) ∷ int (some 1) ∷ logs (root ∷ []) ∷ [];
    snapshot = [];
  };
  term = 2;
  voted_for = some 1;
}

plain_one_vote_example : request.candidate_id ≡ request.candidate_id
unfolding blank request_vote persist
plain_one_vote_example =
    plain_one_vote 3 0 5 request request {c = new_peer} {c₁ = voted} {s = voted} {s₁ = voted}
      {first = granted} {second = granted} here refl refl here refl refl refl

reads_in_range_example :
    ((args : RequestVoteArgs) → Returns (request_vote args voted) (λ out. Unit {0}))
    × ((later : ℕ) → Returns (start_election later voted) (λ out. Unit {0}))
    × ((later p : ℕ) (args : AppendEntriesArgs)
        → Returns
            (append_entries_checked later (pos p) args voted)
            (λ out. append_entries later (record args { prev_log_index = p }) voted ≡ done out))
    × ((later : ℕ) (p : ℤ) (args : AppendEntriesArgs)
        → ltb args.term voted.term ≡ true
        → Returns (append_entries_checked later p args voted) (λ out. out.1.success ≡ false))
    × ((later p : ℕ) (args : AppendEntriesArgs)
        → ltb args.term voted.term ≡ false
        → append_entries_checked later (negsuc p) args voted ≡ panic)
unfolding blank request_vote persist
reads_in_range_example = reads_in_range 3 0 5 (next here (votes request granted refl))

abbrev entry : Log
entry = record { term = 2; cmd = command 7 }

abbrev batch : AppendEntriesArgs
batch = record {
  term = 2;
  leader_id = 1;
  prev_log_index = 0;
  prev_log_term = 0;
  entries = entry ∷ [];
  leader_commit = 1;
}

append_entries-Beside_example : Returns (append_entries 6 batch new_peer) (
    SameOutcome
      (heard apart 6 batch new_peer)
      new_peer
      (full_append_entries 6 batch (lift apart new_peer)))
append_entries-Beside_example = append_entries-Beside apart 6 batch new_peer

-- A leader whose entry peer 1 has taken in.
abbrev leading : Raft
unfolding blank
leading = record new_peer {
  term = 2;
  log = root ∷ entry ∷ [];
  match_index = 0 ∷ 1 ∷ 0 ∷ [];
  state = leader;
}

push-Beside_example : full_push (lift (counted apart 1 leading) leading) ≡ (
  lift
      (record (counted apart 1 leading) {
        commit_index = (push_to_followers leading).0.commit_index;
      })
      leading,
  (push_to_followers leading).1,
)
unfolding blank
push-Beside_example = push-Beside apart 1 leading (omega arith) (omega arith)

-- A candidate of three that led before, when both others acknowledged index 2; its log has become
-- shorter since.
abbrev stale : Raft
stale = record {
  peers = 3;
  persister = record { raft_state = []; snapshot = [] };
  me = 0;
  dead = 0;
  term = 5;
  voted_for = some 0;
  log = root ∷ record { term = 1; cmd = command 7 } ∷ [];
  commit_index = 1;
  last_applied = 1;
  next_index = 3 ∷ 3 ∷ 3 ∷ [];
  match_index = 0 ∷ 2 ∷ 2 ∷ [];
  time = 0;
  state = candidate;
}

commits_unasked_example :
    (push_to_followers
      (start (command 8) (start_leader (finish_election 2 stale).0)).0).0.commit_index
    ≡ 2
unfolding finish_election
commits_unasked_example = commits_unasked 2 (command 8) stale refl refl (omega arith) (omega arith)
