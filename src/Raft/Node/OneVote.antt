-- ===== src/Raft/Node/OneVote.antt =====
-- lab3-D/raft.go: the votes of a peer over all that it does, crashes included.
use cslearning.Prelude.{
  ◌∙◌, ◌∙◌, ℕ, ◌<◌, ◌≡◌, refl, subst, inl, inr, true, some, Run, done, panic, OnReturn-elim,
  Returns, arith, done-injective,
}
use cslearning.Raft.State.{Raft, persist, kill}
use cslearning.Raft.Vote.{RequestVoteArgs, request_vote}
use cslearning.Raft.Leader.{start_leader, reset_followers}
use cslearning.Raft.Node.{
  Step, votes, appends, installs, snapshots, starts, ticks, runs, hears, wins, leads,
  entries_answered, snapshot_answered, commits, applies, dies, restarts, Reach, here, next,
}
use cslearning.Raft.Node.Durable.{Stored}
use cslearning.Raft.Node.Durable.Restart.{Recovers, make-Recovers}
use cslearning.Raft.Node.Durable.Always.{Step-Stored}
use cslearning.Raft.Node.Votes.{
  VoteKept, VoteKept-refl, VoteKept-trans, same_vote, request_vote-VoteKept, receive_vote-VoteKept,
  entries_reply-VoteKept, snapshot_reply-VoteKept, start_election-VoteKept, append_entries-VoteKept,
  install_snapshot-VoteKept, take_snapshot-VoteKept, push_to_followers-VoteKept, start-VoteKept,
  ticker-VoteKept, finish_election-VoteKept,
}

restart-VoteKept :
    (m : Run Raft) (r r' : Raft) → Returns m (Recovers r) → m ≡ done r' → VoteKept r r'
restart-VoteKept panic r r' h e = absurd h
restart-VoteKept (done s) r r' h e =
    subst (VoteKept r) (done-injective e) (same_vote r s h.same_term h.same_vote)

Step-VoteKept : {r r' : Raft} → Step r r' → Stored r → VoteKept r r'
unfolding start_leader reset_followers kill
Step-VoteKept {r} (votes now args) v = request_vote-VoteKept now args r
Step-VoteKept {r} (appends now args reply e) v =
    OnReturn-elim (λ x. VoteKept r x.0) _ _ (append_entries-VoteKept now args r) e
Step-VoteKept {r} (installs now args) v = install_snapshot-VoteKept now args r
Step-VoteKept {r} (snapshots i snapshot e) v =
    OnReturn-elim (VoteKept r) _ _ (take_snapshot-VoteKept i snapshot r) e
Step-VoteKept {r} (starts cmd) v = start-VoteKept cmd r
Step-VoteKept {r} (ticks now ms) v = ticker-VoteKept now ms r
Step-VoteKept {r} (runs now) v = start_election-VoteKept now r
Step-VoteKept {r} (hears n reply) v = receive_vote-VoteKept n reply r
Step-VoteKept {r} (wins n) v = finish_election-VoteKept n r
Step-VoteKept leads v = inr (refl, λ c e. e)
Step-VoteKept {r} (entries_answered i my_next reply) v = entries_reply-VoteKept i my_next reply r
Step-VoteKept {r} (snapshot_answered i reply_term) v = snapshot_reply-VoteKept i reply_term r
Step-VoteKept {r} commits v = push_to_followers-VoteKept r
Step-VoteKept (applies at) v = inr (refl, λ c e. e)
Step-VoteKept dies v = inr (refl, λ c e. e)
Step-VoteKept {r} {r'} (restarts now e) v = restart-VoteKept _ r r' (make-Recovers r now v) e

pub Reach-Stored : {r s : Raft} → Reach r s → Stored r → Stored s
Reach-Stored here v = v
Reach-Stored (next w st) v = Step-Stored st (Reach-Stored w v)

-- From a peer whose durable state is on disk, over any run of its handlers, goroutines, crashes
-- and restarts, the term never falls, and in one term the peer never takes back or changes the
-- vote it has cast.
pub votes_kept : {r s : Raft} → Stored r → Reach r s → VoteKept r s
votes_kept {r} v here = VoteKept-refl r
votes_kept {r} {s} v (next {s = m} w st) =
    VoteKept-trans r m s (votes_kept v w) (Step-VoteKept st (Reach-Stored w v))

-- A granted vote: the peer is then in the candidate's term, has voted for it, and had not voted for
-- anyone else in that term.
pub granted_vote :
    (now : ℕ) (args : RequestVoteArgs) (r : Raft)
    → (request_vote now args r).1.vote_granted ≡ true
    → ((request_vote now args r).0.term ≡ args.term)
      × ((request_vote now args r).0.voted_for ≡ some args.candidate_id)
      × ((c : ℕ) → r.term ≡ args.term → r.voted_for ≡ some c → c ≡ args.candidate_id)
unfolding request_vote persist
granted_vote now args r h = (ground arith, ground arith, λ c e v. ground arith)

-- One vote in each term: if a peer whose durable state is on disk grants two requests of the same
-- term, whatever it did in between, crashes and restarts included, then both come from the same
-- candidate.
pub one_vote_per_term :
    (r : Raft) (a b : RequestVoteArgs) (now later : ℕ) {s : Raft}
    → Stored r
    → (request_vote now a r).1.vote_granted ≡ true
    → Reach (request_vote now a r).0 s
    → (request_vote later b s).1.vote_granted ≡ true
    → a.term ≡ b.term
    → a.candidate_id ≡ b.candidate_id
one_vote_per_term r a b now later {s} v first run second same =
    let (term_a, vote_a, _) = granted_vote now a r first in
    let (term_b, _, sole) = granted_vote later b s second in
    elim (votes_kept (Step-Stored (votes now a) v) run) [
      | inl later_term ↦ absurd (rises (request_vote-VoteKept later b s) term_a term_b later_term)
      | inr (e, kept) ↦ sole a.candidate_id (e ∙ term_a ∙ same) (kept a.candidate_id vote_a)
    ]
  where
    rises :
        VoteKept s (request_vote later b s).0
        → (request_vote now a r).0.term ≡ a.term
        → (request_vote later b s).0.term ≡ b.term
        → (request_vote now a r).0.term < s.term
        → ⊥
    rises (inl f) ta tb lt = omega arith
    rises (inr f) ta tb lt = omega (arith, f.0)
