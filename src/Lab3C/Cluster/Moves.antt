-- ===== src/Lab3C/Cluster/Moves.antt =====
-- lab3-C/raft.go: every step of the peers and of the network keeps their invariant.
use mathlib.Core.List.{Memᴰ}
use cslearning.Prelude.{
  ℕ, zero, suc, ◌≡◌, ◌≢◌, refl, sym, ap, ◌∙◌, subst, ◌⊎◌, inl, inr, true, false, Bool-cases, some,
  List, [], ◌∷◌, ◌++◌, get_elem?, take, Returns-elim, OnReturn-elim, arith,
}
use cslearning.Raft.State.{Log, Cmd, Role, leader, candidate, follower, is_leader}
use cslearning.Lab3C.State.{Raft, blank, root, persist}
use cslearning.Lab3C.Leader.{start}
use cslearning.Lab3C.Node.{Reach, here, next, starts, appends, wins}
use cslearning.Lab3C.Replicate.{Sent, build_entries-Sent, Followed, append_entries-Followed}
use cslearning.Lab3C.Quiet.{Quiet-Same}
use cslearning.Lab3C.Beside.OneVote.{fresh}
use cslearning.Lab3C.Cluster.{
  World, Packet, put, first, Move, acts, elects, sends, delivers, commands, Course, NewTerm,
  NewTerms,
}
use cslearning.Lab3C.Cluster.Invariant.{Logged, at_peer, in_flight, Inv}
use cslearning.Lab3C.Cluster.Change.{change-Inv}
use cslearning.Lab3C.Cluster.Elected.{finish_won, elect-Inv, send-Inv}
use cslearning.Lab3C.Cluster.Appended.{append-Inv}

leads : (role : Role) → is_leader role ≡ true → role ≡ leader
leads leader h = refl
leads candidate h = cc
leads follower h = cc

start_leading :
    (cmd : Cmd) (r : Raft)
    → is_leader r.state ≡ true
    → ((start cmd r).0.log ≡ r.log ++ record { term = r.term; cmd = cmd } ∷ [])
      × ((start cmd r).0.term ≡ r.term)
unfolding start persist
start_leading cmd r h = rw h (refl, refl)

start_idle : (cmd : Cmd) (r : Raft) → is_leader r.state ≡ false → (start cmd r).0 ≡ r
unfolding start
start_idle cmd r h = rw h refl

command-Inv :
    {n now : ℕ} (w : World) (inv : Inv n now w) (p : ℕ) (cmd : Cmd)
    → Inv n now (record w { peers = put w.peers p (start cmd (w.peers p)).0 })
command-Inv {n} {now} w inv p cmd =
    let run = next (inv.runs p) (starts cmd) in
    elim (Bool-cases (is_leader (w.peers p).state)) [
      | inl first_one ↦
          append-Inv w inv p (leads (w.peers p).state first_one) cmd (start cmd (w.peers p)).0
            (start_leading cmd (w.peers p) first_one).0 (start_leading cmd (w.peers p) first_one).1
            run
      | inr idle ↦
          let same = start_idle cmd (w.peers p) idle in
          change-Inv w inv p (start cmd (w.peers p)).0
            (at_peer p (sym (ap (λ (r : Raft). r.log) same)))
            (λ l. (
              sym (ap (λ (r : Raft). r.state) same) ∙ l,
              ap (λ (r : Raft). r.term) same,
              ap (λ (r : Raft). r.log) same,
            ))
            run
    ]

deliver-Inv :
    {n now : ℕ} (w : World) (inv : Inv n now w) (q : ℕ) (m : Packet) (s : Raft)
    → Memᴰ m w.sent
    → m.from ≢ q
    → Followed m.log m.args (w.peers q) s
    → Reach (fresh n q now) s
    → Inv n now (record w { peers = put w.peers q s })
deliver-Inv {n} {now} w inv q m s sent other (log, role) run =
    change-Inv w inv q s (logged log) (λ l. led (role l)) run
  where
    logged : (s.log ≡ (w.peers q).log) ⊎ (s.log ≡ m.log) → Logged w s.log
    logged (inl e) = at_peer q (sym e)
    logged (inr e) = in_flight m sent (sym e)

    led :
        ((w.peers q).state ≡ leader)
          × (s.term ≡ (w.peers q).term)
          × ((m.args.term ≡ (w.peers q).term) ⊎ (s.log ≡ (w.peers q).log))
        → ((w.peers q).state ≡ leader) × (s.term ≡ (w.peers q).term) × (s.log ≡ (w.peers q).log)
    led (l, t, inl same) = absurd (other (inv.own m q sent l same))
    led (l, t, inr kept) = (l, t, kept)

Move-Inv : {n now : ℕ} (w u : World) → Inv n now w → (m : Move w u) → NewTerm m → Inv n now u
Move-Inv {n} {now} w u inv (acts p {s} st quiet) ok =
    let (same, led) = Quiet-Same n p now st quiet (inv.runs p) in
    change-Inv w inv p s (at_peer p (sym same)) (λ l. ((led l).0, (led l).1, same))
      (next (inv.runs p) st)
Move-Inv {n} {now} w u inv (elects p k won) ok =
    let e = finish_won k (w.peers p) won in
    subst (λ s. Inv n now (record w { peers = put w.peers p s; won = (w.peers p).term ∷ w.won }))
      (sym e) (elect-Inv w inv p ok (subst (Reach (fresh n p now)) e (next (inv.runs p) (wins k))))
Move-Inv w u inv (sends p i size args l e) ok =
    let (made, term) = OnReturn-elim (Sent (w.peers p)) _ _ (build_entries-Sent i (w.peers p)) e in
    send-Inv w inv p args l made term
Move-Inv w u inv (delivers q later m reply {s} sent other e) ok =
    deliver-Inv w inv q m s sent other
      (Returns-elim (λ out. Followed m.log m.args (w.peers q) out.0) _ _
        (append_entries-Followed later m.log m.args (w.peers q)
          (inv.matching (w.peers q).log m.log (at_peer q refl) (in_flight m sent refl))
          (inv.built m sent))
        e)
      (next (inv.runs q) (appends later m.args reply e))
Move-Inv w u inv (commands p cmd) ok = command-Inv w inv p cmd

first_log : (n now : ℕ) (l : List Log) → Logged (first n now) l → root ∷ [] ≡ l
unfolding blank
first_log n now l (at_peer p e) = e
first_log n now l (in_flight m sent e) = elim sent [ ]

first_entry : (i : ℕ) (e : Log) → get_elem? (root ∷ []) i ≡ some e → e.term ≡ 0
first_entry zero e h = ground (arith, h)
first_entry (suc i) e h = cc

first-Inv : (n now : ℕ) → Inv n now (first n now)
unfolding blank
first-Inv n now = record {
  matching =
      λ l m a b i e f p q same. ap (take (suc i)) (sym (first_log n now l a) ∙ first_log n now m b);
  known = λ l i e a there.
      Memᴰ.head
        (first_entry i e (subst (λ x. get_elem? x i ≡ some e) (sym (first_log n now l a)) there));
  led = λ p l. absurd (not_leader l);
  mine = λ p l i e h. absurd (not_leader h);
  single = λ p q l. absurd (not_leader l);
  stamped = λ m sent. elim sent [ ];
  own = λ m p sent. elim sent [ ];
  built = λ m sent. elim sent [ ];
  runs = λ p. here;
}
  where
    not_leader : follower ≡ leader → ⊥
    not_leader e = cc

pub Course-Inv : (n now : ℕ) {w : World} (c : Course (first n now) w) → NewTerms c → Inv n now w
Course-Inv n now Course.here ok = first-Inv n now
Course-Inv n now (Course.next {u} {v} c m) (before, ok) =
    Move-Inv u v (Course-Inv n now c before) m ok
