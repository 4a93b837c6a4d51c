-- ===== src/Raft/Election/Tally.antt =====
-- lab3-D/raft.go: the votes that `RequestVoteHelper` counts.
use cslearning.Prelude.{
  ℕ, ◌+◌, ◌≤◌, ◌≡◌, refl, inl, inr, true, some, List, [], ◌∷◌, leb, ◌==◌, ◌&&◌, if◌then◌else◌,
  Bool-cases, Option-cases, arith, ap, ◌∙◌, subst, ◌⊎◌, ◌/◌,
}
use cslearning.Raft.State.{Raft, is_candidate, persist, step_down}
use cslearning.Raft.Vote.{RequestVoteReply, start_election, majority, receive_vote, finish_election}
use cslearning.Raft.Election.{
  Signal, timeout, reply, Turn, Round, waiting, returned, ended, collect, run_election,
}

-- What the other goroutines may do to a peer: if it is a candidate afterwards, it was one before, in
-- the same term (`Election/Others.antt`).
pub record Demotes (r s : Raft) : Type 0 where
  pub same_peers : s.peers ≡ r.peers
  pub same_term : is_candidate s.state ≡ true → (is_candidate r.state ≡ true) × (s.term ≡ r.term)

abbrev pub Demoting : (Raft → Raft) → Type 0
Demoting f = (r : Raft) → Demotes r (f r)

abbrev pub AllDemoting : List Turn → Type 0
AllDemoting [] = Unit
AllDemoting (t ∷ ts) = Demoting t.before × Demoting t.meanwhile × AllDemoting ts

-- a granted vote of a term
abbrev pub vote_in : ℕ → Signal → ℕ
vote_in term timeout = 0
vote_in term (reply v) = if v.term == term && v.vote_granted then 1 else 0

-- the granted votes of a term among the replies
abbrev pub votes_in : ℕ → List Turn → ℕ
votes_in term [] = 0
votes_in term (t ∷ ts) = vote_in term t.signal + votes_in term ts

receive_vote_state :
    (n : ℕ) (v : RequestVoteReply) (r : Raft)
    → ((receive_vote n v r).0.peers ≡ r.peers)
      × (is_candidate (receive_vote n v r).0.state ≡ true
          → (is_candidate r.state ≡ true) × ((receive_vote n v r).0.term ≡ r.term))
unfolding receive_vote persist step_down
receive_vote_state n v r = ground arith

receive_vote_count :
    (n n' : ℕ) (v : RequestVoteReply) (r : Raft)
    → (receive_vote n v r).1 ≡ some n'
    → n' ≡ n + vote_in r.term (reply v)
unfolding receive_vote
receive_vote_count n n' v r h = ground arith

-- A reply that lets the loop go on.
receive_vote_keeps :
    (term n k n' : ℕ) (v : RequestVoteReply) (r : Raft)
    → (is_candidate r.state ≡ true → (r.term ≡ term) × (n ≤ k))
    → (receive_vote n v r).1 ≡ some n'
    → is_candidate (receive_vote n v r).0.state ≡ true
    → ((receive_vote n v r).0.term ≡ term) × (n' ≤ k + vote_in term (reply v))
receive_vote_keeps term n k n' v r c h d =
    let state = receive_vote_state n v r in
    let before = state.1 d in
    let count = receive_vote_count n n' v r h in
    let now = c before.0 in
    (before.1 ∙ now.0, subst (λ x. n' ≤ k + vote_in x (reply v)) now.0 (omega arith))

Signal-cases : (x : Signal) → (x ≡ timeout) ⊎ ((v : RequestVoteReply) × (x ≡ reply v))
Signal-cases timeout = inl refl
Signal-cases (reply v) = inr (v, refl)

-- The three ways a loop with a turn left comes to its end.
collect_turn :
    (n : ℕ) (t : Turn) (ts : List Turn) (r : Raft) (m : ℕ) (s : Raft)
    → collect n (t ∷ ts) r ≡ ended m s
    → ((n ≡ m) × (r ≡ s))
      ⊎ (((t.signal ≡ timeout) × (n ≡ m) × (t.before r ≡ s))
          ⊎ ((v : RequestVoteReply) × (n' : ℕ) × (t.signal ≡ reply v)
              × ((receive_vote n v (t.meanwhile (t.before r))).1 ≡ some n')
              × (collect n' ts (receive_vote n v (t.meanwhile (t.before r))).0 ≡ ended m s)))
unfolding collect
collect_turn n t ts r m s h = elim (Bool-cases (leb (majority r) n)) [
  | inl y ↦ inl (ground arith)
  | inr y ↦ elim (Bool-cases (is_candidate (t.before r).state)) [
    | inl c ↦ elim (Signal-cases t.signal) [
      | inl q ↦ inr (inl (ground arith))
      | inr (v, q) ↦ elim (Option-cases (receive_vote n v (t.meanwhile (t.before r))).1) [
        | inl p ↦ absurd (ground arith)
        | inr (n', p) ↦ inr (inr (v, n', q, p, ground arith))
      ]
    ]
    | inr c ↦ absurd (ground arith)
  ]
]

-- What a loop's end `s` with `m` votes says, `r` being the state before and `k` the votes to be had.
abbrev Tallied : ℕ → ℕ → Raft → ℕ → Raft → Type 0
Tallied term k r m s =
    (s.peers ≡ r.peers) × (is_candidate s.state ≡ true → (s.term ≡ term) × (m ≤ k))

-- The loop's end with a candidate is in the term it began in, and has at most as many more votes
-- as were granted in that term.
collect_tally :
    (term n k : ℕ) (ts : List Turn) (r : Raft) (m : ℕ) (s : Raft)
    → AllDemoting ts
    → (is_candidate r.state ≡ true → (r.term ≡ term) × (n ≤ k))
    → collect n ts r ≡ ended m s
    → Tallied term (k + votes_in term ts) r m s
unfolding collect
collect_tally term n k [] r m s all c h = ground arith
collect_tally term n k (t ∷ ts) r m s all c h =
    let one = all.0 r in
    let two = all.1 (t.before r) in
    elim (collect_turn n t ts r m s h) [
      | inl (e, e') ↦
          subst (Tallied term (k + votes_in term (t ∷ ts)) r m) e'
            (refl, λ d. ((c d).0, (let le = (c d).1 in omega arith)))
      | inr (inl (q, e, e')) ↦ subst (Tallied term (k + votes_in term (t ∷ ts)) r m) e' (
        one.same_peers,
        λ d.
            (let first = one.same_term d in
              let now = c first.0 in (first.1 ∙ now.0, (let le = now.1 in omega arith))),
      )
      | inr (inr (v, n', q, p, h')) ↦
          let r₂ = t.meanwhile (t.before r) in
          let later : is_candidate r₂.state ≡ true → (r₂.term ≡ term) × (n ≤ k) = λ d.
            (let d₂ = two.same_term d in
              let d₁ = one.same_term d₂.0 in (d₂.1 ∙ d₁.1 ∙ (c d₁.0).0, (c d₁.0).1)) in
          let r₃ = (receive_vote n v r₂).0 in
          let go =
            collect_tally term n' (k + vote_in term (reply v)) ts r₃ m s all.2
              (receive_vote_keeps term n k n' v r₂ later p) h' in
          (
            go.0 ∙ (receive_vote_state n v r₂).0 ∙ two.same_peers ∙ one.same_peers,
            λ d. (
              (go.1 d).0,
              (let le = (go.1 d).1 in let sums = ap (vote_in term) q in omega arith),
            ),
          )
    ]

Round-cases :
    (x : Round)
    → ((x ≡ waiting) ⊎ ((s : Raft) × (x ≡ returned s))) ⊎ ((m : ℕ) × (s : Raft) × (x ≡ ended m s))
Round-cases waiting = inl (inl refl)
Round-cases (returned s) = inl (inr (s, refl))
Round-cases (ended m s) = inr (m, s, refl)

start_election-term :
    (now : ℕ) (r : Raft)
    → is_candidate r.state ≡ true
    → ((start_election now r).0.term ≡ r.term + 1) × ((start_election now r).0.peers ≡ r.peers)
unfolding start_election persist
start_election-term now r c = ground arith

finish_election-wins :
    (n : ℕ) (r s : Raft)
    → finish_election n r ≡ (s, true)
    → (is_candidate r.state ≡ true) × (majority r ≤ n) × (s.term ≡ r.term)
unfolding finish_election
finish_election-wins n r s h = ground arith

run_election_ends :
    (now : ℕ) (turns : List Turn) (lastly : Raft → Raft) (r s : Raft)
    → run_election now turns lastly r ≡ some (s, true)
    → (is_candidate r.state ≡ true)
      × (m : ℕ) × (r₂ : Raft) × (collect 1 turns (start_election now r).0 ≡ ended m r₂)
      × (finish_election m (lastly r₂) ≡ (s, true))
unfolding run_election start_election
run_election_ends now turns lastly r s h = elim (Bool-cases (is_candidate r.state)) [
  | inl c ↦ elim (Round-cases (collect 1 turns (start_election now r).0)) [
    | inl (inl e) ↦ absurd (ground arith)
    | inl (inr (r₂, e)) ↦ absurd (ground arith)
    | inr (m, r₂, e) ↦ (c, m, r₂, e, ground arith)
  ]
  | inr c ↦ absurd (ground arith)
]

pub run_election-wins :
    (now : ℕ) (turns : List Turn) (lastly : Raft → Raft) (r s : Raft)
    → AllDemoting turns
    → Demoting lastly
    → run_election now turns lastly r ≡ some (s, true)
    → (s.term ≡ r.term + 1) × (majority r ≤ 1 + votes_in (r.term + 1) turns)
run_election-wins now turns lastly r s all last h =
    let (c, m, r₂, e, f) = run_election_ends now turns lastly r s h in
    let start = start_election-term now r c in
    let (d, enough, same) = finish_election-wins m (lastly r₂) s f in
    let after = last r₂ in
    let (d₂, same₂) = after.same_term d in
    let tally =
      collect_tally (r.term + 1) 1 1 turns (start_election now r).0 m r₂ all
        (λ _. (start.0, omega arith)) e in
    (
      same ∙ same₂ ∙ (tally.1 d₂).0,
      (let le = (tally.1 d₂).1 in
          subst (λ k. k / 2 + 1 ≤ 1 + votes_in (r.term + 1) turns)
            (after.same_peers ∙ tally.0 ∙ start.1) (omega arith)),
    )
