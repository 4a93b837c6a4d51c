-- ===== src/Lab3A/OneVote.antt =====
-- lab3-A/raft.go: the votes of a peer over all that it does.
use cslearning.Prelude.{
  ◌<◌, ◌⊎◌, ◌≤◌, none, ℕ, ◌+◌, ◌≡◌, inl, inr, true, some, Run, done, panic, index, pos, dec_lt,
  arith, Bool-cases, OnReturn, OnReturn-elim, ◌>>=◌, Option,
}
use cslearning.Raft.State.{Log, is_candidate}
use cslearning.Raft.Vote.{RequestVoteArgs, RequestVoteReply}
use cslearning.Raft.Replication.{AppendEntriesArgs}
use cslearning.Ballot.{Ballot, Kept, Kept-refl, Trace, Trace-Kept}
use cslearning.Lab3A.Peer.{
  Raft, AppendEntriesReply, request_vote, ticker, start_election, receive_vote, finish_election,
  leader_round, entries_reply, append_entries, start, kill,
}
use cslearning.Lab3A.Node.{
  Step, votes, beats, starts, ticks, runs, hears, wins, sends, answered, dies,
}

abbrev pub ballot : Raft → Ballot
ballot r = record { term = r.term; voted_for = r.voted_for }

-- Nothing that matters to the vote has changed.
same_ballot :
    (r s : Raft) → s.term ≡ r.term → s.voted_for ≡ r.voted_for → Kept (ballot r) (ballot s)
same_ballot r s e v = inr (e, λ c h. cc)

request_vote-Kept :
    (args : RequestVoteArgs) (r : Raft) → Kept (ballot r) (ballot (request_vote args r).0)
unfolding request_vote
request_vote-Kept args r = elim (dec_lt r.term args.term) [
  | yes newer ↦ inl (ground arith)
  | no older ↦ inr (ground arith, λ c e. ground arith)
]

append_entries-Kept :
    (now : ℕ) (args : AppendEntriesArgs) (r : Raft)
    → Kept (ballot r) (ballot (append_entries now args r).0)
unfolding append_entries
append_entries-Kept now args r = elim (dec_lt r.term args.term) [
  | yes newer ↦ inl (ground arith)
  | no older ↦ inr (ground arith, λ c e. ground arith)
]

receive_vote-Kept :
    (n : ℕ) (reply : RequestVoteReply) (r : Raft)
    → Kept (ballot r) (ballot (receive_vote n reply r).0)
unfolding receive_vote
receive_vote-Kept n reply r = elim (dec_lt r.term reply.term) [
  | yes newer ↦ inl (ground arith)
  | no older ↦ inr (ground arith, λ c e. ground arith)
]

entries_reply-Kept :
    (i : ℕ) (reply : AppendEntriesReply) (r : Raft)
    → Kept (ballot r) (ballot (entries_reply i reply r))
unfolding entries_reply
entries_reply-Kept i reply r = elim (dec_lt r.term reply.term) [
  | yes newer ↦ inl (ground arith)
  | no older ↦ inr (ground arith, λ c e. ground arith)
]

start_election-Kept :
    (now : ℕ) (r : Raft) → OnReturn (start_election now r) (λ out. Kept (ballot r) (ballot out.0))
unfolding start_election
start_election-Kept now r = elim (Bool-cases (is_candidate r.state)) [
  | inl at_work ↦ rw at_work (read (index r.log (pos r.last_applied)))
  | inr idle ↦ rw idle (Kept-refl (ballot r))
]
  where
    read :
        (m : Run Log)
        → OnReturn {A = Raft × Option RequestVoteArgs}
            (m >>= λ e. done (
              record r { time = now; term = r.term + 1; voted_for = some r.me },
              some (record {
                term = r.term + 1;
                candidate_id = r.me;
                last_log_index = r.last_applied;
                last_log_term = e.term;
              }),
            ))
            (λ out. Kept (ballot r) (ballot out.0))
    read panic = tt
    read (done e) = inl (omega arith)

pub Step-Kept : (r s : Raft) → Step r s → Kept (ballot r) (ballot s)
unfolding ticker finish_election leader_round start kill
Step-Kept r s (votes args) = request_vote-Kept args r
Step-Kept r s (beats now args) = append_entries-Kept now args r
Step-Kept r s (starts cmd) = Kept-refl (ballot r)
Step-Kept r s (ticks now ms) = same_ballot r (ticker now ms r).0 (ground arith) (ground arith)
Step-Kept r s (runs now args e) =
    OnReturn-elim (λ out. Kept (ballot r) (ballot out.0)) _ _ (start_election-Kept now r) e
Step-Kept r s (hears n reply) = receive_vote-Kept n reply r
Step-Kept r s (wins n) = same_ballot r (finish_election n r).0 (ground arith) (ground arith)
Step-Kept r s (sends now) = same_ballot r (leader_round now r).0 (ground arith) (ground arith)
Step-Kept r s (answered i reply) = entries_reply-Kept i reply r
Step-Kept r s dies = Kept-refl (ballot r)

cast :
    (args : RequestVoteArgs) (r : Raft)
    → (request_vote args r).1.vote_granted ≡ true
    → ((request_vote args r).0.term ≡ args.term)
      × ((request_vote args r).0.voted_for ≡ some args.candidate_id)
unfolding request_vote
cast args r h = (ground arith, ground arith)

-- A vote is given in a newer term, or where none was given yet.
free :
    (args : RequestVoteArgs) (r : Raft)
    → (request_vote args r).1.vote_granted ≡ true
    → (r.term < args.term) ⊎ ((r.term ≤ args.term) × (r.voted_for ≡ none))
unfolding request_vote
free args r h = elim (dec_lt r.term args.term) [
  | yes newer ↦ inl newer
  | no older ↦ inr (ground arith, ground arith)
]

-- In lab3-A a peer grants at most one request in each term, even to the same candidate: if it
-- grants two, whatever it did in between, then the second is of a greater term.
pub terms_of_votes_rise :
    (r s : Raft) (a b : RequestVoteArgs)
    → (request_vote a r).1.vote_granted ≡ true
    → Trace Step (request_vote a r).0 s
    → (request_vote b s).1.vote_granted ≡ true
    → a.term < b.term
terms_of_votes_rise r s a b first run second =
    rises (cast a r first) (Trace-Kept Step ballot Step-Kept run) (free b s second)
  where
    taken : s.voted_for ≡ some a.candidate_id → s.voted_for ≡ none → ⊥
    taken e f = cc

    rises :
        ((request_vote a r).0.term ≡ a.term)
          × ((request_vote a r).0.voted_for ≡ some a.candidate_id)
        → Kept (ballot (request_vote a r).0) (ballot s)
        → (s.term < b.term) ⊎ ((s.term ≤ b.term) × (s.voted_for ≡ none))
        → a.term < b.term
    rises (t, v) (inl later) (inl newer) = omega arith
    rises (t, v) (inl later) (inr (level, none_yet)) = omega arith
    rises (t, v) (inr (same, kept)) (inl newer) = omega arith
    rises (t, v) (inr (same, kept)) (inr (level, none_yet)) =
        absurd (taken (kept a.candidate_id v) none_yet)
