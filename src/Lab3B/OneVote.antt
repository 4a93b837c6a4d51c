-- ===== src/Lab3B/OneVote.antt =====
-- lab3-B/raft.go: the votes of a peer over all that it does.
use cslearning.Prelude.{
  not, ◌||◌, ◌⊎◌, zero, suc, ap, ◌&&◌, subst, sym, ℕ, ◌+◌, ◌-◌, ◌<◌, ◌≡◌, refl, inl, inr, true,
  some, none, Option, Run, done, panic, index, length, arith, Bool-cases, OnReturn, OnReturn-elim,
  ◌>>=◌, ltb, leb, ◌==◌, List, pos,
}
use cslearning.Raft.State.{Log, term_at, is_leader}
use cslearning.Raft.Vote.{RequestVoteArgs, RequestVoteReply}
use cslearning.Raft.Replication.{AppendEntriesArgs}
use cslearning.Raft.Commit.{holders, ApplyMsg, command_msg}
use cslearning.Ballot.{Kept, Kept-refl, same_candidate, Trace, Trace-Kept}
use cslearning.Lab3B.Peer.{
  killed, Raft, request_vote, ticker, receive_vote, finish_election, majority, kill, step_down,
}
use cslearning.Lab3B.Leader.{start, leader_round, heartbeats, heartbeat_reply, entries_reply}
use cslearning.Lab3B.Commit.{commit_scan, push_to_followers, reach_to_commit}
use cslearning.Lab3B.Node.{
  Step, votes, appends, starts, ticks, runs, hears, wins, beats, beat_answered, answered, commits,
  applies, dies,
}
use cslearning.Lab3B.Votes.{
  ballot, same_ballot, Voted, request_vote-Voted, append_entries-Kept, start_election-Kept,
}

-- Only the term and the vote of a peer that hears of a newer term change.
reply-Kept :
    (term : ℕ) (r s : Raft)
    → ((r.term < term) × (s ≡ step_down term r)) ⊎ ((s.term ≡ r.term) × (s.voted_for ≡ r.voted_for))
    → Kept (ballot r) (ballot s)
unfolding step_down
reply-Kept term r s (inl (newer, e)) = inl (omega (arith, ap (λ (x : Raft). x.term) e))
reply-Kept term r s (inr (e, v)) = same_ballot r s e v

ballot-commit_scan : (n : ℕ) (r : Raft) → ballot (commit_scan n r) ≡ ballot r
unfolding commit_scan
ballot-commit_scan zero r = refl
ballot-commit_scan (suc n) r = elim (Bool-cases (ltb r.commit_index (suc n))) [
  | inr over ↦ rw over refl
  | inl more ↦
      elim (Bool-cases
        (leb (majority r) (1 + holders (suc n) r.match_index) && term_at r.log (suc n) == r.term)) [
          | inl stops ↦ rw (more, stops) refl
          | inr goes_on ↦ rw (more, goes_on) (ballot-commit_scan n r)
        ]
]

ballot-push_to_followers : (r : Raft) → ballot (push_to_followers r).0 ≡ ballot r
unfolding push_to_followers
ballot-push_to_followers r = ground (arith, ballot-commit_scan (length r.log - 1) r)

round_ballot : (now : ℕ) (r : Raft) → OnReturn (leader_round now r) (λ out. ballot out.0 ≡ ballot r)
unfolding leader_round
round_ballot now r = elim (Bool-cases (killed r || not (is_leader r.state))) [
  | inl no_more ↦ rw no_more refl
  | inr goes_on ↦ rw goes_on (sent_frame (heartbeats r.peers 0 r))
]
  where
    sent_frame :
        (m : Run (List AppendEntriesArgs))
        → OnReturn
            (◌>>=◌ {B = Raft × Option (List AppendEntriesArgs)} m
              (λ sent. done (record r { time = now }, some sent)))
            (λ out. ballot out.0 ≡ ballot r)
    sent_frame panic = tt
    sent_frame (done sent) = refl

abbrev Handed : Raft → Option (Raft × ApplyMsg) → Type 0
Handed r none = Unit {0}
Handed r (some (s, msg)) = ballot s ≡ ballot r

reach_ballot : (r : Raft) → OnReturn (reach_to_commit r) (Handed r)
unfolding reach_to_commit
reach_ballot r = elim (Bool-cases (killed r || leb r.commit_index r.last_applied)) [
  | inl idle ↦ rw idle tt
  | inr due ↦ rw due (read (index r.log (pos (r.last_applied + 1))))
]
  where
    read :
        (m : Run Log)
        → OnReturn
            (◌>>=◌ {B = Option (Raft × ApplyMsg)} m (λ e. done (
              some (
                record r { last_applied = r.last_applied + 1 },
                command_msg e.cmd (r.last_applied + 1),
              ))))
            (Handed r)
    read panic = tt
    read (done e) = refl

keeps : (r s : Raft) → ballot s ≡ ballot r → Kept (ballot r) (ballot s)
keeps r s e = subst (Kept (ballot r)) (sym e) (Kept-refl (ballot r))

pub Step-Kept : (r s : Raft) → Step r s → Kept (ballot r) (ballot s)
unfolding ticker finish_election start kill receive_vote heartbeat_reply entries_reply step_down
Step-Kept r s (votes args reply e) =
    (OnReturn-elim (Voted args r) _ _ (request_vote-Voted args r) e).0
Step-Kept r s (appends now args reply e) =
    OnReturn-elim (λ out. Kept (ballot r) (ballot out.0)) _ _ (append_entries-Kept now args r) e
Step-Kept r s (starts cmd) = same_ballot r (start cmd r).0 (ground arith) (ground arith)
Step-Kept r s (ticks now ms) = same_ballot r (ticker now ms r).0 (ground arith) (ground arith)
Step-Kept r s (runs now args e) =
    OnReturn-elim (λ out. Kept (ballot r) (ballot out.0)) _ _ (start_election-Kept now r) e
Step-Kept r s (hears n reply) = reply-Kept reply.term r (receive_vote n reply r).0 (ground arith)
Step-Kept r s (wins n) = same_ballot r (finish_election n r).0 (ground arith) (ground arith)
Step-Kept r s (beats now out e) =
    keeps r s (OnReturn-elim (λ o. ballot o.0 ≡ ballot r) _ _ (round_ballot now r) e)
Step-Kept r s (beat_answered i reply) =
    reply-Kept reply.term r (heartbeat_reply i reply r) (ground arith)
Step-Kept r s (answered i sent reply) =
    reply-Kept reply.term r (entries_reply i sent reply r) (ground arith)
Step-Kept r s commits = keeps r (push_to_followers r).0 (ballot-push_to_followers r)
Step-Kept r s (applies msg e) = keeps r s (OnReturn-elim (Handed r) _ _ (reach_ballot r) e)
Step-Kept r s dies = Kept-refl (ballot r)

-- One vote in each term, in lab3-B: if a peer grants two requests of the same term, whatever it did
-- in between, then both come from the same candidate.
pub second_one_vote :
    (r r' s s' : Raft) (a b : RequestVoteArgs) (first second : RequestVoteReply)
    → request_vote a r ≡ done (r', first)
    → first.vote_granted ≡ true
    → Trace Step r' s
    → request_vote b s ≡ done (s', second)
    → second.vote_granted ≡ true
    → a.term ≡ b.term
    → a.candidate_id ≡ b.candidate_id
second_one_vote r r' s s' a b first second e given run f again same =
    let voted_a = OnReturn-elim (Voted a r) _ _ (request_vote-Voted a r) e in
    let voted_b = OnReturn-elim (Voted b s) _ _ (request_vote-Voted b s) f in
    same_candidate (ballot r) (ballot r') (ballot s) (ballot s') a.term a.candidate_id b.term
      b.candidate_id (voted_a.1 given) (Trace-Kept Step ballot Step-Kept run) voted_b.0
      (voted_b.1 again) same
