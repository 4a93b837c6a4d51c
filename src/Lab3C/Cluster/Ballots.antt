-- ===== src/Lab3C/Cluster/Ballots.antt =====
-- lab3-C/raft.go: no peer votes twice in a term, over any run of several peers.
use cslearning.Prelude.{ℕ, ◌≤◌, ◌<◌, ◌≡◌, sym, ◌∙◌, some, ◌⊎◌, inl, inr, arith}
use cslearning.Raft.Node.OneVote.{votes_kept, Reach-Stored}
use cslearning.Lab3C.State.{Raft}
use cslearning.Lab3C.Node.{Step, Reach, here as stay, next as step, starts, appends, wins}
use cslearning.Lab3C.Beside.Always.{Reach-Sound}
use cslearning.Lab3C.Beside.Steps.{Reach-Follows}
use cslearning.Lab3C.Beside.OneVote.{fresh, unmarked, fresh-Sound, fresh-Stored}
use cslearning.Lab3C.Cluster.{
  World, first, put, Move, acts, elects, sends, delivers, commands, Course, here, next,
}
use cslearning.Lab3C.Cluster.Change.{put_all}
use cslearning.Lab3C.Cluster.Poll.{Votes, Cast}

-- The term does not fall, and within a term a vote that is cast stays.
abbrev pub Keeps : Raft → Raft → Type 0
Keeps r s =
    (r.term < s.term)
    ⊎ ((s.term ≡ r.term) × ((p : ℕ) → r.voted_for ≡ some p → s.voted_for ≡ some p))

Reach-Keeps : (n q now : ℕ) {r s : Raft} → Reach (fresh n q now) r → Reach r s → Keeps r s
Reach-Keeps n q now before run =
    let (x, full) = Reach-Follows unmarked (fresh-Sound n q now) before in
    let (y, after) = Reach-Follows x (Reach-Sound before (fresh-Sound n q now)) run in
    votes_kept (Reach-Stored full (fresh-Stored n q now)) after

Reach-trans : {r s t : Raft} → Reach r s → Reach s t → Reach r t
Reach-trans a stay = a
Reach-trans a (step b st) = step (Reach-trans a b) st

one_moves :
    (w : World) (p : ℕ) {s : Raft}
    → Step (w.peers p) s
    → (q : ℕ) → Reach (w.peers q) (put w.peers p s q)
one_moves w p {s} st =
    put_all (λ q r. Reach (w.peers q) r) w.peers p s (step stay st) (λ q other. stay)

Move-Reach : {w u : World} → Move w u → (q : ℕ) → Reach (w.peers q) (u.peers q)
Move-Reach {w} (acts p st quiet) q = one_moves w p st q
Move-Reach {w} (elects p k won) q = one_moves w p (wins k) q
Move-Reach (sends p i size args l e) q = stay
Move-Reach {w} (delivers p later m reply sent other e) q =
    one_moves w p (appends later m.args reply e) q
Move-Reach {w} (commands p cmd) q = one_moves w p (starts cmd) q

pub Course-Reach :
    (n now : ℕ) {w : World} → Course (first n now) w → (q : ℕ) → Reach (fresh n q now) (w.peers q)
Course-Reach n now here q = stay
Course-Reach n now (next c m) q = Reach-trans (Course-Reach n now c q) (Move-Reach m q)

pub Move-Keeps :
    (n now : ℕ) {w u : World}
    → Course (first n now) w
    → Move w u
    → (q : ℕ) → Keeps (w.peers q) (u.peers q)
Move-Keeps n now c m q = Reach-Keeps n q now (Course-Reach n now c q) (Move-Reach m q)

pub Keeps-term : (r s : Raft) → Keeps r s → r.term ≤ s.term
Keeps-term r s (inl up) = omega arith
Keeps-term r s (inr (same, kept)) = omega arith

-- A vote that was cast is still the peer's, or the peer is in a later term.
abbrev Past : World → (term q p : ℕ) → Type 0
Past w term q p = (term < (w.peers q).term) ⊎ Votes w term q p

Past-later :
    (w u : World) (term q p : ℕ) → Keeps (w.peers q) (u.peers q) → Past w term q p → Past u term q p
Past-later w u term q p (inl up) (inl over) = inl (omega arith)
Past-later w u term q p (inl up) (inr (e, v)) = inl (omega arith)
Past-later w u term q p (inr (same, kept)) (inl over) = inl (omega arith)
Past-later w u term q p (inr (same, kept)) (inr (e, v)) = inr (same ∙ e, kept p v)

Cast-Past :
    (n now : ℕ) {w : World} (c : Course (first n now) w) (term q p : ℕ)
    → Cast c term q p
    → Past w term q p
Cast-Past n now here term q p v = inr v
Cast-Past n now (next {u} {v} c m) term q p (inl before) =
    Past-later u v term q p (Move-Keeps n now c m q) (Cast-Past n now c term q p before)
Cast-Past n now (next c m) term q p (inr v) = inr v

one_candidate : (w : World) (term q a b : ℕ) → Past w term q a → Votes w term q b → a ≡ b
one_candidate w term q a b (inl over) (e, v) = absurd (omega arith)
one_candidate w term q a b (inr (_, was)) (_, v) = some_eq (sym was ∙ v)
  where
    some_eq : {x y : ℕ} → some x ≡ some y → x ≡ y
    some_eq h = cc

pub Cast-once :
    (n now : ℕ) {w : World} (c : Course (first n now) w) (term q a b : ℕ)
    → Cast c term q a
    → Cast c term q b
    → a ≡ b
Cast-once n now {w} here term q a b v v' = one_candidate w term q a b (inr v) v'
Cast-once n now {w} (next c m) term q a b (inl v) (inl v') = Cast-once n now c term q a b v v'
Cast-once n now {w} (next c m) term q a b (inl v) (inr v') =
    one_candidate w term q a b (Cast-Past n now (next c m) term q a (inl v)) v'
Cast-once n now {w} (next c m) term q a b (inr v) (inl v') =
    sym (one_candidate w term q b a (Cast-Past n now (next c m) term q b (inl v')) v)
Cast-once n now {w} (next c m) term q a b (inr v) (inr v') = one_candidate w term q a b (inr v) v'
