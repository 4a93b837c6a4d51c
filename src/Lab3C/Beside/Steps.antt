-- ===== src/Lab3C/Beside/Steps.antt =====
-- lab3-C/raft.go beside lab3-D/raft.go: what one peer does step by step, the other can do.
use cslearning.Prelude.{
  ℕ, ◌+◌, ◌-◌, ◌*◌, ◌≡◌, refl, sym, ap, subst, true, false, map, length, set, ltb, ◌&&◌, not, done,
  Returns-elim, Bool-cases, inl, inr, arith, OnReturn-elim,
}
use cslearning.Raft.State.{
  Raft as FullRaft, Role, leader, follower, is_leader, is_follower, candidate, make as full_make,
  kill as full_kill,
}
use cslearning.Raft.Vote.{
  request_vote as full_request_vote, start_election as full_start_election, ticker as full_ticker,
}
use cslearning.Raft.Replication.{append_entries as full_append_entries}
use cslearning.Raft.Leader.{start_leader as full_start_leader, reset_followers}
use cslearning.Raft.Node.{Reach as FullReach, Step as FullStep}
use cslearning.Lab3C.State.{Raft, kill}
use cslearning.Lab3C.Vote.{ticker}
use cslearning.Lab3C.Leader.{start_leader}
use cslearning.Lab3C.Node.{
  Step, votes, appends, starts, ticks, runs, hears, wins, leads, sends, answered, commits, applies,
  dies, restarts, Reach, here, next,
}
use cslearning.Lab3C.Beside.Votes.{
  request_vote-Beside, start_election-Beside, receive_vote-Beside, finish_election-Beside,
}
use cslearning.Lab3C.Beside.Appends.{SameOutcome, heard, append_entries-Beside}
use cslearning.Lab3C.Beside.Always.{Applied, round_frame, push_frame, reach_frame, Reach-Sound}
use cslearning.Lab3C.Beside.{Extra, lift, Sound, pad}
use cslearning.Lab3C.Beside.Others.{start-Beside, entries_reply-Beside, make-Beside}

-- lab3-D gets from one to the other in some steps.
abbrev pub Follows : Extra → Raft → Raft → Type 0
Follows x c s = (x' : Extra) × FullReach (lift x c) (lift x' s)

by_one : {r s t : FullRaft} → FullStep r s → s ≡ t → FullReach r t
by_one {r} st e = subst (FullReach r) e (FullReach.next FullReach.here st)

role_left : (role : Role) → is_leader role ≡ false → is_follower role ≡ false → role ≡ candidate
role_left leader l f = cc
role_left candidate l f = refl
role_left follower l f = cc

-- A follower whose time is up; for a candidate nothing changes.
ticker-Follows : (x : Extra) (now ms : ℕ) (c : Raft) → Follows x c (ticker now ms c).0
unfolding ticker full_ticker
ticker-Follows x now ms c =
    elim (Bool-cases (ltb (ms * 1_000_000) (now - c.time) && not (is_leader c.state))) [
      | inr early ↦ rw early (x, FullReach.here)
      | inl due ↦ rw due (elim (Bool-cases (is_follower c.state)) [
        | inl follows ↦ (x, by_one (FullStep.ticks (x.time + 1) 0) (wakes follows))
        | inr runs_already ↦ (
          x,
          subst (λ s. FullReach (lift x c) (lift x s)) (candidate_stays due runs_already)
              FullReach.here,
        )
      ])
    ]
  where
    wakes :
        is_follower c.state ≡ true
        → (full_ticker (x.time + 1) 0 (lift x c)).0 ≡ lift x (record c { state = candidate })
    wakes follows =
        let elapsed : ltb (0 * 1_000_000) (x.time + 1 - x.time) ≡ true = ground arith in
        rw (elapsed, follows) refl

    candidate_stays :
        (ltb (ms * 1_000_000) (now - c.time) && not (is_leader c.state)) ≡ true
        → is_follower c.state ≡ false
        → c ≡ record c { state = candidate }
    candidate_stays due already =
        ap (λ role. record c { state = role }) (role_left c.state (ground arith) already)

-- What lab3-D keeps apart changes alone.
stays :
    (x : Extra) (c : Raft) {s : Raft} {t k a : ℕ}
    → s ≡ record c { time = t; commit_index = k; last_applied = a }
    → Follows x c s
stays x c e = (x, subst (λ s. FullReach (lift x c) (lift x s)) (sym e) FullReach.here)

chain : {r s t : FullRaft} → FullReach r s → FullReach s t → FullReach r t
chain w FullReach.here = w
chain w (FullReach.next v st) = FullReach.next (chain w v) st

pub Step-Follows : (x : Extra) {c s : Raft} → Sound c → Step c s → Follows x c s
unfolding start_leader kill full_kill full_start_leader reset_followers
Step-Follows x {c} h (votes args reply e) =
    let same =
      Returns-elim
        (λ out. full_request_vote 0 args (lift x c) ≡ (lift (record x { time = 0 }) out.0, out.1)) _
        _ (request_vote-Beside x 0 args c h.rooted) e in
    (record x { time = 0 }, by_one (FullStep.votes 0 args) (ap (λ p. p.0) same))
Step-Follows x {c} h (appends now args reply e) =
    let x₁ = heard x now args c in
    let (k, same, _) =
      Returns-elim (SameOutcome x₁ c (full_append_entries now args (lift x c))) _ _
        (append_entries-Beside x now args c) e in
    (
      record x₁ { commit_index = k },
      FullReach.next FullReach.here (FullStep.appends now args reply same),
    )
Step-Follows x {c} h (starts cmd) =
    let (x', e) = start-Beside x cmd c in (x', by_one (FullStep.starts cmd) e)
Step-Follows x {c} h (ticks now ms) = ticker-Follows x now ms c
Step-Follows x {c} h (runs now args e) =
    let same =
      Returns-elim
        (λ out. full_start_election now (lift x c) ≡ (lift (record x { time = now }) out.0, out.1))
        _ _ (start_election-Beside x now c h.rooted) e in
    (record x { time = now }, by_one (FullStep.runs now) (ap (λ p. p.0) same))
Step-Follows x {c} h (hears n reply) =
    (x, by_one (FullStep.hears n reply) (ap (λ p. p.0) (receive_vote-Beside x n reply c)))
Step-Follows x {c} h (wins n) =
    (x, by_one (FullStep.wins n) (ap (λ p. p.0) (finish_election-Beside x n c)))
Step-Follows x {c} h leads = (
  record x {
    next_index = map (λ _. length c.log + 0) x.next_index;
    match_index = set (map (λ _. 0) x.match_index) c.me (length c.log + 0 - 1);
  },
  by_one FullStep.leads refl,
)
Step-Follows x {c} h (sends now out e) =
    let (t, same) =
      OnReturn-elim (λ o. (t : ℕ) × (o.0 ≡ record c { time = t })) _ _ (round_frame now c) e in
    stays x c same
Step-Follows x {c} h (answered i sent reply) =
    let (x', e) = entries_reply-Beside x i sent reply c in
    (x', by_one (FullStep.entries_answered i sent reply) e)
Step-Follows x {c} h commits = stays x c (push_frame c).1
Step-Follows x {c} h (applies msg e) =
    let (k, same) = OnReturn-elim (Applied c) _ _ (reach_frame c) e in stays x c same
Step-Follows x {c} h dies = (x, by_one FullStep.dies refl)
Step-Follows x {c} h (restarts now e) =
    let (x', same) =
      OnReturn-elim
        (λ s.
          (x' : Extra) × (full_make (pad c.persister.raft_state) c.peers c.me (lift x c).persister
              now
            ≡ done (lift x' s)))
        _ _ (make-Beside c.persister.raft_state c.peers c.me now c.persister h.saved) e in
    (x', FullReach.next FullReach.here (FullStep.restarts now same))

-- The same over any run of the peer.
pub Reach-Follows : (x : Extra) {c s : Raft} → Sound c → Reach c s → Follows x c s
Reach-Follows x h here = (x, FullReach.here)
Reach-Follows x {c} h (next {s = m} w st) =
    let (x₁, before) = Reach-Follows x h w in
    let (x₂, after) = Step-Follows x₁ (Reach-Sound w h) st in (x₂, chain before after)
