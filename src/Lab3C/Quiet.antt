-- ===== src/Lab3C/Quiet.antt =====
-- lab3-C/raft.go: the steps of a peer that leave its log alone and make no leader of it.
use cslearning.Prelude.{
  ℕ, ◌-◌, ◌≡◌, refl, sym, ap, ◌∙◌, Bool, true, false, some, List, [], ◌∷◌, length, ltb, done,
  OnReturn_imp, OnReturn, OnReturn-elim, Bool-cases, inl, inr, arith, if◌then◌else◌,
}
use cslearning.Raft.State.{
  Log, Field, int, logs, Persister, is_candidate, leader, follower, term_at, zero_log,
}
use cslearning.Raft.Vote.{RequestVoteArgs, voted_other, behind}
use cslearning.Raft.Node.Durable.{Holds, Alike}
use cslearning.Raft.Node.OneVote.{Reach-Stored}
use cslearning.Lab3C.State.{Raft, persist, step_down, kill, make, root, last_entry}
use cslearning.Lab3C.Vote.{
  request_vote, request_vote_tail, ticker, start_election, receive_vote, finish_election,
}
use cslearning.Lab3C.Leader.{start_leader, entries_reply}
use cslearning.Lab3C.Node.{
  Step, votes, appends, starts, ticks, runs, hears, wins, leads, sends, answered, commits, applies,
  dies, restarts, Reach,
}
use cslearning.Lab3C.Beside.{lift, IsRooted, SavedIsRooted, pad, last_entry_done}
use cslearning.Lab3C.Beside.Always.{Applied, round_frame, push_frame, reach_frame, Reach-Sound}
use cslearning.Lab3C.Beside.Steps.{Reach-Follows}
use cslearning.Lab3C.Beside.OneVote.{fresh, unmarked, fresh-Sound, fresh-Stored}

-- The log stays, and a leader was one before, in the same term.
abbrev pub Same : Raft → Raft → Type 0
Same r s = (s.log ≡ r.log) × (s.state ≡ leader → (r.state ≡ leader) × (s.term ≡ r.term))

-- All steps but those that take entries in, append one, or win an election.
abbrev pub Quiet : {r s : Raft} → Step r s → Type 0
Quiet (votes args reply e) = Unit {0}
Quiet (appends now args reply e) = ⊥
Quiet (starts cmd) = ⊥
Quiet (ticks now ms) = Unit {0}
Quiet (runs now args e) = Unit {0}
Quiet (hears n reply) = Unit {0}
Quiet {r} (wins n) = (finish_election n r).1 ≡ false
Quiet leads = Unit {0}
Quiet (sends now out e) = Unit {0}
Quiet (answered i sent reply) = Unit {0}
Quiet commits = Unit {0}
Quiet (applies msg e) = Unit {0}
Quiet dies = Unit {0}
Quiet (restarts now e) = Unit {0}

tail-Same :
    (flag : Bool) (args : RequestVoteArgs) (c : Raft)
    → IsRooted c.log
    → OnReturn
        (request_vote_tail flag args c)
        (λ out. (out.0.log ≡ c.log) × (out.0.state ≡ c.state) × (out.0.term ≡ c.term))
unfolding request_vote_tail last_entry persist
tail-Same flag args c h = elim (Bool-cases (ltb args.term c.term)) [
  | inl stale ↦ rw stale (refl, refl, refl)
  | inr current ↦ rw current (elim (Bool-cases (voted_other c.voted_for args.candidate_id)) [
    | inl other ↦ rw other (refl, refl, refl)
    | inr free ↦
        rw (free, last_entry_done c.log h)
          (elim (Bool-cases (behind args (length c.log - 1, term_at c.log (length c.log - 1)))) [
            | inl late ↦ rw late (refused flag)
            | inr good ↦ rw good (refl, refl, refl)
          ])
  ])
]
  where
    refused :
        (b : Bool)
        → ((if b then persist c else c).log ≡ c.log)
          × ((if b then persist c else c).state ≡ c.state)
          × ((if b then persist c else c).term ≡ c.term)
    refused true = (refl, refl, refl)
    refused false = (refl, refl, refl)

request_vote-Same :
    (args : RequestVoteArgs) (c : Raft)
    → IsRooted c.log
    → OnReturn (request_vote args c) (λ out. Same c out.0)
unfolding request_vote step_down
request_vote-Same args c h = elim (Bool-cases (ltb c.term args.term)) [
  | inl newer ↦ rw newer (
      OnReturn_imp _ _ (request_vote_tail true args (step_down args.term c))
        (λ out t. (t.0, λ l. absurd (not_leader (sym t.1 ∙ l))))
        (tail-Same true args (step_down args.term c) h))
  | inr older ↦ rw older (
      OnReturn_imp _ _ (request_vote_tail false args c) (λ out t. (t.0, λ l. (sym t.1 ∙ l, t.2)))
        (tail-Same false args c h))
]
  where
    not_leader : follower ≡ leader → ⊥
    not_leader e = cc

start_election-Same :
    (now : ℕ) (c : Raft) → IsRooted c.log → OnReturn (start_election now c) (λ out. Same c out.0)
unfolding start_election last_entry persist
start_election-Same now c h = elim (Bool-cases (is_candidate c.state)) [
  | inl at_work ↦ rw (at_work, last_entry_done c.log h) (refl, λ l. ground arith)
  | inr idle ↦ rw idle (refl, λ l. (l, refl))
]

roots_agree : (l m : List Log) → IsRooted l → IsRooted m → Alike l m → l ≡ m
roots_agree [] m a b h = absurd a
roots_agree (x ∷ l) [] a b h = absurd b
roots_agree (x ∷ l) (y ∷ m) a b h = rw (a, b) (ap (λ t. root ∷ t) h.1)

rooted_alone : (x : Log) (m : List Log) → IsRooted m → Alike (x ∷ []) m → root ∷ [] ≡ m
rooted_alone x [] b h = absurd b
rooted_alone x (y ∷ m) b h = rw b (ap (λ t. root ∷ t) h.1)

-- What `persist` wrote is the log that a restart brings back.
saved_log :
    (fs : List Field) (c : Raft)
    → SavedIsRooted fs
    → IsRooted c.log
    → Holds (lift unmarked c) (pad fs)
    → (n me now : ℕ) (p : Persister)
    → OnReturn (make fs n me p now) (λ s. (s.log ≡ c.log) × (s.state ≡ follower))
unfolding make
saved_log [] c a b h n me now p = (rooted_alone zero_log c.log b h.2, refl)
saved_log (int (some t) ∷ int v ∷ logs l ∷ []) c a b h n me now p =
    (roots_agree l c.log a b h.2, refl)
saved_log _ c a b h n me now p = absurd a

restart-Same :
    (n me now : ℕ) (c s : Raft) (later : ℕ)
    → Reach (fresh n me now) c
    → make c.persister.raft_state c.peers c.me c.persister later ≡ done s
    → Same c s
restart-Same n me now c s later w e =
    let sound = Reach-Sound w (fresh-Sound n me now) in
    let (x, full) = Reach-Follows unmarked (fresh-Sound n me now) w in
    let stored = Reach-Stored full (fresh-Stored n me now) in
    let (same_log, follows) =
      OnReturn-elim (λ r. (r.log ≡ c.log) × (r.state ≡ follower)) _ _
        (saved_log c.persister.raft_state c sound.saved sound.rooted stored.holds c.peers c.me later
          c.persister)
        e in
    (same_log, λ l. absurd (not_leader (sym follows ∙ l)))
  where
    not_leader : follower ≡ leader → ⊥
    not_leader h = cc

frame :
    (c : Raft) {s : Raft} {t k a : ℕ}
    → s ≡ record c { time = t; commit_index = k; last_applied = a }
    → Same c s
frame c e = (
  ap (λ (r : Raft). r.log) e,
  λ l. (sym (ap (λ (r : Raft). r.state) e) ∙ l, ap (λ (r : Raft). r.term) e),
)

pub Quiet-Same :
    (n me now : ℕ) {r s : Raft} (st : Step r s) → Quiet st → Reach (fresh n me now) r → Same r s
unfolding start_leader kill ticker finish_election receive_vote entries_reply persist step_down
Quiet-Same n me now {r} (votes args reply e) q w =
    OnReturn-elim (λ out. Same r out.0) _ _
      (request_vote-Same args r (Reach-Sound w (fresh-Sound n me now)).rooted) e
Quiet-Same n me now (appends later args reply e) q w = absurd q
Quiet-Same n me now (starts cmd) q w = absurd q
Quiet-Same n me now {r} (ticks later ms) q w = (ground arith, λ l. ground arith)
Quiet-Same n me now {r} (runs later args e) q w =
    OnReturn-elim (λ out. Same r out.0) _ _
      (start_election-Same later r (Reach-Sound w (fresh-Sound n me now)).rooted) e
Quiet-Same n me now {r} (hears k reply) q w = (ground arith, λ l. ground arith)
Quiet-Same n me now {r} (wins k) q w = (ground arith, λ l. ground arith)
Quiet-Same n me now leads q w = (refl, λ l. (l, refl))
Quiet-Same n me now {r} (sends later out e) q w =
    let (t, same) =
      OnReturn-elim (λ o. (t : ℕ) × (o.0 ≡ record r { time = t })) _ _ (round_frame later r) e in
    frame r same
Quiet-Same n me now {r} (answered i sent reply) q w = (ground arith, λ l. ground arith)
Quiet-Same n me now {r} commits q w = frame r (push_frame r).1
Quiet-Same n me now {r} (applies msg e) q w =
    let (k, same) = OnReturn-elim (Applied r) _ _ (reach_frame r) e in frame r same
Quiet-Same n me now dies q w = (refl, λ l. (l, refl))
Quiet-Same n me now {r} {s} (restarts later e) q w = restart-Same n me now r s later w e
