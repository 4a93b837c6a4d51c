-- ===== src/Lab3C/Cluster/Rounds.antt =====
-- lab3-C/raft.go: a round of `RequestVoteHelper` that is under way has not won its term yet.
use cslearning.Prelude.{
  ℕ, ◌+◌, ◌≤◌, ◌<◌, ◌≡◌, refl, sym, subst, ◌∙◌, Option, some, none, inl, inr, arith, Bool-cases,
  ==→eq, ◌==◌, if◌then◌else◌, OnReturn, OnReturn-elim, OnReturn-bind, index, sub_ℕ, length,
}
use cslearning.Raft.State.{is_candidate}
use cslearning.Raft.Vote.{RequestVoteArgs}
use cslearning.Lab3C.State.{Raft, persist}
use cslearning.Lab3C.Vote.{start_election}
use cslearning.Lab3C.Node.{
  Step, votes, appends, starts, ticks, runs, hears, wins, leads, sends as ships, answered, commits,
  applies, dies, restarts,
}
use cslearning.Lab3C.Cluster.{
  World, first, Move, acts, elects, sends, delivers, commands, Course, here, next,
}
use cslearning.Lab3C.Cluster.Poll.{opens, latest, campaign, Won}
use cslearning.Lab3C.Cluster.Ballots.{Move-Keeps, Keeps-term}

-- A round that starts is of a new term.
round_opens :
    (now : ℕ) (r : Raft) (a : RequestVoteArgs)
    → OnReturn (start_election now r) (λ out. out.1 ≡ some a → a.term ≡ r.term + 1)
unfolding start_election persist
round_opens now r a = elim (Bool-cases (is_candidate r.state)) [
  | inl at_work ↦
      rw at_work (OnReturn-bind _ (index r.log (sub_ℕ (length r.log) 1)) _ (λ e h. ground arith))
  | inr idle ↦ rw idle (λ h. cc)
]

opens-next : {r s : Raft} (st : Step r s) (t : ℕ) → opens st ≡ some t → t ≡ r.term + 1
opens-next {r} (runs now (some a) e) t h =
    some_eq (sym h)
    ∙ OnReturn-elim (λ out. out.1 ≡ some a → a.term ≡ r.term + 1) _ _ (round_opens now r a) e refl
  where
    some_eq : {x y : ℕ} → some x ≡ some y → x ≡ y
    some_eq h = cc
opens-next (runs now none e) t h = cc
opens-next (votes args reply e) t h = cc
opens-next (appends now args reply e) t h = cc
opens-next (starts cmd) t h = cc
opens-next (ticks now ms) t h = cc
opens-next (hears n reply) t h = cc
opens-next (wins n) t h = cc
opens-next leads t h = cc
opens-next (ships now out e) t h = cc
opens-next (answered i sent reply) t h = cc
opens-next commits t h = cc
opens-next (applies msg e) t h = cc
opens-next dies t h = cc
opens-next (restarts now e) t h = cc

risen :
    (n now : ℕ) {w u : World} (c : Course (first n now) w) (m : Move w u) (t p : ℕ)
    → t ≤ (w.peers p).term
    → t ≤ (u.peers p).term
risen n now {w} {u} c m t p le =
    omega (arith, le, Keeps-term (w.peers p) (u.peers p) (Move-Keeps n now c m p))

-- The term of a win is one that the peer has been in.
Won-term :
    (n now : ℕ) {w : World} (c : Course (first n now) w) (t p : ℕ)
    → Won c t p
    → t ≤ (w.peers p).term
Won-term n now here t p won = absurd won
Won-term n now (next c (acts q st quiet)) t p won =
    risen n now c (acts q st quiet) t p (Won-term n now c t p won)
Won-term n now (next c (elects q k h)) t p (inl won) =
    risen n now c (elects q k h) t p (Won-term n now c t p won)
Won-term n now (next {u} {v} c (elects q k h)) t p (inr (e, same)) =
    risen n now c (elects q k h) t p (subst (λ x. t ≤ (u.peers x).term) e (omega (arith, same)))
Won-term n now (next c (sends q i size args l h)) t p won = Won-term n now c t p won
Won-term n now (next c (delivers q later m reply sent other h)) t p won =
    risen n now c (delivers q later m reply sent other h) t p (Won-term n now c t p won)
Won-term n now (next c (commands q cmd)) t p won =
    risen n now c (commands q cmd) t p (Won-term n now c t p won)

-- The peer has not won the term, which is not the first.
abbrev pub Open : {v w : World} → Course v w → ℕ → ℕ → Type 0
Open c t p = (0 < t) × ¬ Won c t p

not_some : (t : ℕ) → none ≡ some t → ⊥
not_some t h = cc

-- A round that is under way after a step started with it, or was under way before.
latest-Open :
    (n now : ℕ) {w : World} (c : Course (first n now) w) (q t : ℕ) {s : Raft}
    (st : Step (w.peers q) s)
    → (campaign c q ≡ some t → Open c t q)
    → (o : Option ℕ) → opens st ≡ o
    → latest (campaign c q) o ≡ some t
    → Open c t q
latest-Open n now c q t st before none h e = before e
latest-Open n now {w} c q t st before (some term) h e =
    let new = opens-next st t (h ∙ e) in
    (omega (arith, new), λ won. absurd (omega (arith, new, Won-term n now c t q won)))

pub campaign-Open :
    (n now : ℕ) {w : World} (c : Course (first n now) w) (t p : ℕ)
    → campaign c p ≡ some t
    → Open c t p
campaign-Open n now here t p e = absurd (not_some t e)
campaign-Open n now (next {u} {v} c (acts q st quiet)) t p e = elim (Bool-cases (p == q)) [
  | inl own ↦
      let in_turn =
        subst (λ b. (if b then latest (campaign c p) (opens st) else campaign c p) ≡ some t) own
          e in
      let same = ==→eq p q own in
      subst (Open c t) (sym same) (
        latest-Open n now c q t st (campaign-Open n now c t q) (opens st) refl
          (subst (λ x. latest (campaign c x) (opens st) ≡ some t) same in_turn))
  | inr other ↦
      campaign-Open n now c t p (
        subst (λ b. (if b then latest (campaign c p) (opens st) else campaign c p) ≡ some t) other
          e)
]
campaign-Open n now (next c (elects q k won)) t p e = elim (Bool-cases (p == q)) [
  | inl own ↦ absurd (not_some t (subst (λ b. (if b then none else campaign c p) ≡ some t) own e))
  | inr other ↦
      let (later, not_yet) =
        campaign-Open n now c t p
          (subst (λ b. (if b then none else campaign c p) ≡ some t) other e) in
      (
        later,
        λ h. elim h [ inl before ↦ not_yet before | inr (same, _) ↦ ground (arith, same, other) ],
      )
]
campaign-Open n now (next c (sends q i size args l h)) t p e = campaign-Open n now c t p e
campaign-Open n now (next c (delivers q later m reply sent other h)) t p e =
    campaign-Open n now c t p e
campaign-Open n now (next c (commands q cmd)) t p e = campaign-Open n now c t p e
