-- ===== src/Lab3C/Cluster/Winners.antt =====
-- lab3-C/raft.go: at most one election is won in each term, over any run of several peers.
use mathlib.Core.List.{Memᴰ}
use cslearning.Prelude.{ℕ, ◌+◌, ◌/◌, ◌≤◌, ◌≡◌, refl, sym, subst, Bool, true, ◌⊎◌, inl, inr, arith}
use cslearning.Raft.Cluster.{tally}
use cslearning.Raft.Cluster.OneLeader.{tally_meet}
use cslearning.Lab3C.State.{Raft}
use cslearning.Lab3C.Vote.{finish_election}
use cslearning.Lab3C.Cluster.{
  World, first, Move, acts, elects, sends, delivers, commands, Course, here, next, NewTerms,
}
use cslearning.Lab3C.Cluster.Poll.{Cast, Backed, AllBacked, Won}
use cslearning.Lab3C.Cluster.Ballots.{Course-Reach, Cast-once}
use cslearning.Lab3C.Size.{Reach-peers}
use cslearning.Lab3C.Cluster.Rounds.{campaign-Open}

-- A majority of the peers has voted for `p` in the term.
record Quorum {v w : World} (c : Course v w) (n t p : ℕ) : Type 0 where
  pub voters : ℕ → Bool
  pub enough : n / 2 + 1 ≤ tally n voters
  pub voted : (q : ℕ) → voters q ≡ true → Cast c t q p

one_winner :
    (n now : ℕ) {w : World} (c : Course (first n now) w) (t a b : ℕ)
    → Quorum c n t a
    → Quorum c n t b
    → a ≡ b
one_winner n now c t a b x y =
    let (q, v, v') = tally_meet n x.voters y.voters (omega (arith, x.enough, y.enough)) in
    Cast-once n now c t q a b (x.voted q v) (y.voted q v')

later-Quorum :
    {v w u : World} (c : Course v w) (m : Move w u) (n t p : ℕ)
    → Quorum c n t p
    → Quorum (next c m) n t p
later-Quorum c m n t p x = record {
  voters = x.voters;
  enough = x.enough;
  voted = λ q v. inl (x.voted q v);
}

finish_majority : (k : ℕ) (r : Raft) → (finish_election k r).1 ≡ true → r.peers / 2 + 1 ≤ k
unfolding finish_election
finish_majority k r h = ground (arith, h)

Backed-Quorum :
    (n now : ℕ) {w : World} (c : Course (first n now) w) (p k : ℕ)
    → (finish_election k (w.peers p)).1 ≡ true
    → Backed c n p k
    → Quorum c n (w.peers p).term p
Backed-Quorum n now {w} c p k won b =
    let size = Reach-peers n p now (Course-Reach n now c p) in
    let counted = subst (λ m. m / 2 + 1 ≤ k) size (finish_majority k (w.peers p) won) in
    record { voters = b.voters; enough = omega (arith, counted, b.delivered); voted = b.voted }

Won-Quorum :
    (n now : ℕ) {w : World} (c : Course (first n now) w) (t p : ℕ)
    → AllBacked n c
    → Won c t p
    → Quorum c n t p
Won-Quorum n now here t p b won = absurd won
Won-Quorum n now (next c (acts q st quiet)) t p b won =
    later-Quorum c (acts q st quiet) n t p (Won-Quorum n now c t p b won)
Won-Quorum n now (next c (elects q k h)) t p (b, _) (inl won) =
    later-Quorum c (elects q k h) n t p (Won-Quorum n now c t p b won)
Won-Quorum n now (next c (elects q k h)) t p (_, backed) (inr (e, same)) =
    later-Quorum c (elects q k h) n t p (
      subst (Quorum c n t) e
        (subst (λ x. Quorum c n x q) same (Backed-Quorum n now c q k h backed)))
Won-Quorum n now (next c (sends q i size args l h)) t p b won =
    later-Quorum c (sends q i size args l h) n t p (Won-Quorum n now c t p b won)
Won-Quorum n now (next c (delivers q later m reply sent other h)) t p b won =
    later-Quorum c (delivers q later m reply sent other h) n t p (Won-Quorum n now c t p b won)
Won-Quorum n now (next c (commands q cmd)) t p b won =
    later-Quorum c (commands q cmd) n t p (Won-Quorum n now c t p b won)

-- Whoever won a term is known.
won-Won :
    (n now : ℕ) {w : World} (c : Course (first n now) w) (t : ℕ)
    → Memᴰ t w.won
    → (t ≡ 0) ⊎ ((p : ℕ) × Won c t p)
won-Won n now here t (Memᴰ.head e) = inl e
won-Won n now here t (Memᴰ.tail m) = elim m [ ]
won-Won n now (next c (acts q st quiet)) t m = won-Won n now c t m
won-Won n now (next c (elects q k h)) t (Memᴰ.head e) = inr (q, inr (refl, sym e))
won-Won n now (next c (elects q k h)) t (Memᴰ.tail m) = elim (won-Won n now c t m) [
  | inl none_yet ↦ inl none_yet
  | inr (p, won) ↦ inr (p, inl won)
]
won-Won n now (next c (sends q i size args l h)) t m = won-Won n now c t m
won-Won n now (next c (delivers q later p reply sent other h)) t m = won-Won n now c t m
won-Won n now (next c (commands q cmd)) t m = won-Won n now c t m

first_of_term :
    (n now : ℕ) {w : World} (c : Course (first n now) w) (p k : ℕ)
    → AllBacked n c
    → Backed c n p k
    → (finish_election k (w.peers p)).1 ≡ true
    → ¬ Memᴰ (w.peers p).term w.won
first_of_term n now {w} c p k all b won m =
    let (later, not_yet) = campaign-Open n now c (w.peers p).term p b.under_way in
    elim (won-Won n now c (w.peers p).term m) [
      | inl zero ↦ absurd (omega arith)
      | inr (a, before) ↦ not_yet (
          subst (Won c (w.peers p).term)
            (one_winner n now c (w.peers p).term a p
              (Won-Quorum n now c (w.peers p).term a all before) (Backed-Quorum n now c p k won b))
            before)
    ]

pub AllBacked-NewTerms :
    (n now : ℕ) {w : World} (c : Course (first n now) w) → AllBacked n c → NewTerms c
AllBacked-NewTerms n now here all = tt
AllBacked-NewTerms n now (next c (acts q st quiet)) all = (AllBacked-NewTerms n now c all, tt)
AllBacked-NewTerms n now (next c (elects p k won)) (all, b) =
    (AllBacked-NewTerms n now c all, first_of_term n now c p k all b won)
AllBacked-NewTerms n now (next c (sends q i size args l h)) all =
    (AllBacked-NewTerms n now c all, tt)
AllBacked-NewTerms n now (next c (delivers q later m reply sent other h)) all =
    (AllBacked-NewTerms n now c all, tt)
AllBacked-NewTerms n now (next c (commands q cmd)) all = (AllBacked-NewTerms n now c all, tt)
