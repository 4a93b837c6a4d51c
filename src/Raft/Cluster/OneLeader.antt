-- ===== src/Raft/Cluster/OneLeader.antt =====
-- lab3-D/raft.go: the elections of a cluster.
use cslearning.Prelude.{
  ℕ, zero, suc, ◌+◌, ◌/◌, ◌≤◌, ◌<◌, ◌≡◌, sym, subst, ◌∙◌, inl, inr, Bool, true, some, Bool-cases,
  arith, dec_le, ◌-◌,
}
use cslearning.Raft.State.{Raft}
use cslearning.Raft.Vote.{majority}
use cslearning.Raft.Node.{Reach, here, next}
use cslearning.Raft.Node.Durable.{Stored}
use cslearning.Raft.Node.Votes.{VoteKept}
use cslearning.Raft.Node.OneVote.{votes_kept, Reach-Stored}
use cslearning.Raft.Election.Winner.{elected_by_majority}
use cslearning.Raft.Election.Tally.{votes_in}
use cslearning.Raft.Cluster.{Runs, Voted, tally, Wins}

Reach-trans : {r s t : Raft} → Reach r s → Reach s t → Reach r t
Reach-trans h here = h
Reach-trans h (next k step) = next (Reach-trans h k) step

module _ (c : ℕ → ℕ → Raft) (runs : Runs c) where
  later : (t d p : ℕ) → Reach (c t p) (c (d + t) p)
  later t zero p = subst (λ m. Reach (c t p) (c m p)) (omega arith) here
  later t (suc d) p =
      subst (λ m. Reach (c t p) (c m p)) (omega arith)
        (Reach-trans (later t d p) (runs.goes_on (d + t) p))

  always-Stored : (t p : ℕ) → Stored (c t p)
  always-Stored t p =
      subst (λ m. Stored (c m p)) (omega arith) (Reach-Stored (later 0 t p) (runs.begins p))

  vote_stays : (s t p : ℕ) → s ≤ t → VoteKept (c s p) (c t p)
  vote_stays s t p le =
      subst (λ m. VoteKept (c s p) (c m p)) (omega arith)
        (votes_kept (always-Stored s p) (later s (t - s) p))

  ordered :
      (term a b p s t : ℕ)
      → s ≤ t
      → (c s p).term ≡ term
      → (c s p).voted_for ≡ some a
      → (c t p).term ≡ term
      → (c t p).voted_for ≡ some b
      → a ≡ b
  ordered term a b p s t le e v e' v' = elim (vote_stays s t p le) [
    | inl up ↦ absurd (omega arith)
    | inr (same, kept) ↦ some_eq (sym (kept a v) ∙ v')
  ]
    where
      some_eq : {x y : ℕ} → some x ≡ some y → x ≡ y
      some_eq h = cc

  Voted-once : (term a b p : ℕ) → Voted c term a p → Voted c term b p → a ≡ b
  Voted-once term a b p (s, e, v) (t, e', v') = elim (dec_le s t) [
    | yes le ↦ ordered term a b p s t le e v e' v'
    | no gt ↦ sym (ordered term b a p t s (omega arith) e' v' e v)
  ]

-- Two tests that together pass more often than there are peers both pass one of the peers.
pub tally_meet :
    (n : ℕ) (v w : ℕ → Bool) → n < tally n v + tally n w → (p : ℕ) × (v p ≡ true) × (w p ≡ true)
tally_meet zero v w more = absurd (omega arith)
tally_meet (suc n) v w more = elim (Bool-cases (v n)) [
  | inl by_v ↦ elim (Bool-cases (w n)) [
    | inl by_w ↦ (n, by_v, by_w)
    | inr not_w ↦ tally_meet n v w (ground arith)
  ]
  | inr not_v ↦ tally_meet n v w (ground arith)
]

Wins-majority :
    (c : ℕ → ℕ → Raft) (n term a : ℕ) (w : Wins c n term a) → n / 2 + 1 ≤ tally n w.voters
Wins-majority c n term a w =
    let (_, enough) =
      elected_by_majority w.now w.turns w.lastly (c w.moment a) w.result w.by_others
        w.last_by_others w.elected in
    let same_term =
      subst (λ t. majority (c w.moment a) ≤ 1 + votes_in t w.turns) w.new_term enough in
    let same_peers = subst (λ m. m / 2 + 1 ≤ 1 + votes_in term w.turns) w.all_peers same_term in
    omega (arith, same_peers, w.delivered)

-- Election safety: in every run of a cluster of `n` peers that begins with each peer's durable
-- state on disk, two peers that win an election of the same term are one, if behind the granted
-- replies and the own vote of a winner stand as many peers, each of which voted for it in that
-- term.
pub one_leader_per_term :
    (c : ℕ → ℕ → Raft) (n term a b : ℕ) → Runs c → Wins c n term a → Wins c n term b → a ≡ b
one_leader_per_term c n term a b runs w w' =
    let (p, v, v') =
      tally_meet n w.voters w'.voters
        (omega (arith, Wins-majority c n term a w, Wins-majority c n term b w')) in
    Voted-once c runs term a b p (w.voted p v) (w'.voted p v')
