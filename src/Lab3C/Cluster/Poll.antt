-- ===== src/Lab3C/Cluster/Poll.antt =====
-- lab3-C/raft.go: the elections of the peers: what was voted, which rounds of `RequestVoteHelper`
-- are under way, and what stands behind the votes that a round counts.
use cslearning.Prelude.{ℕ, ◌≤◌, ◌≡◌, true, Bool, Option, some, none, ◌⊎◌, ◌==◌, if◌then◌else◌}
use cslearning.Raft.Cluster.{tally}
use cslearning.Lab3C.State.{Raft}
use cslearning.Lab3C.Node.{Step, runs}
use cslearning.Lab3C.Cluster.{World, acts, elects, Course, here, next}

-- Peer `q` votes for `p` in the term, at this moment.
abbrev pub Votes : World → (term q p : ℕ) → Type 0
Votes w term q p = ((w.peers q).term ≡ term) × ((w.peers q).voted_for ≡ some p)

-- ... or at an earlier moment of the run.
abbrev pub Cast : {v w : World} → Course v w → (term q p : ℕ) → Type 0
Cast {v} {w} here term q p = Votes w term q p
Cast {v} {w} (next c m) term q p = Cast c term q p ⊎ Votes w term q p

-- the term of the round of `RequestVoteHelper` that a step starts
abbrev pub opens : {r s : Raft} → Step r s → Option ℕ
opens (runs now (some args) e) = some args.term
opens st = none

abbrev pub latest : Option ℕ → Option ℕ → Option ℕ
latest before none = before
latest before (some term) = some term

-- the term of the round that a peer has under way
abbrev pub campaign : {v w : World} → Course v w → ℕ → Option ℕ
campaign here q = none
campaign (next c (acts p st quiet)) q =
    let before = campaign c q in if q == p then latest before (opens st) else before
campaign (next c (elects p n won)) q = let before = campaign c q in if q == p then none else before
campaign (next c m) q = campaign c q

-- What the run has of a round of `RequestVoteHelper` by `labrpc`, where a peer wins: the count is
-- that of a round which the peer started in its term and has not ended; and a call is answered at
-- most once, by its peer's handler, so that behind the votes counted stand as many of the first `n`
-- peers, which voted for it in that term.
pub record Backed {v w : World} (c : Course v w) (n p k : ℕ) : Type 0 where
  pub under_way : campaign c p ≡ some (w.peers p).term
  pub voters : ℕ → Bool
  pub delivered : k ≤ tally n voters
  pub voted : (q : ℕ) → voters q ≡ true → Cast c (w.peers p).term q p

-- All that win have it.
abbrev pub AllBacked : {v w : World} → ℕ → Course v w → Type 0
AllBacked n here = Unit {0}
AllBacked n (next c (elects p k won)) = AllBacked n c × Backed c n p k
AllBacked n (next c m) = AllBacked n c

-- Peer `p` has won the term.
abbrev pub Won : {v w : World} → Course v w → (term p : ℕ) → Type 0
Won here term p = ⊥
Won (next {u} c (elects q k won)) term p = Won c term p ⊎ ((q ≡ p) × ((u.peers q).term ≡ term))
Won (next c m) term p = Won c term p
