-- ===== src/Lab3C/Cluster/Elected.antt =====
-- lab3-C/raft.go: an election that is won, and a request that a leader sends.
use mathlib.Core.List.{Memᴰ}
use cslearning.Prelude.{
  ℕ, ◌≡◌, ◌<◌, refl, sym, ap, ◌∙◌, subst, true, ◌⊎◌, inl, inr, arith, List, ◌∷◌, length, some,
  get_elem?,
}
use cslearning.Raft.State.{Log, leader}
use cslearning.Raft.Replication.{AppendEntriesArgs}
use cslearning.Lab3C.State.{Raft}
use cslearning.Lab3C.Vote.{finish_election}
use cslearning.Lab3C.Node.{Reach}
use cslearning.Lab3C.Matching.{Built}
use cslearning.Lab3C.Beside.OneVote.{fresh}
use cslearning.Lab3C.Cluster.{World, put, Packet}
use cslearning.Lab3C.Cluster.Invariant.{Logged, at_peer, in_flight, Inv}
use cslearning.Lab3C.Cluster.Change.{put_all}

pub finish_won :
    (k : ℕ) (r : Raft)
    → (finish_election k r).1 ≡ true
    → (finish_election k r).0 ≡ record r { state = leader }
unfolding finish_election
finish_won k r h = ground (arith, h)

module _ {n now : ℕ} (w : World) (inv : Inv n now w) (p : ℕ)
    (fresh_term : ¬ Memᴰ (w.peers p).term w.won) where
  abbrev winner : Raft
  winner = record (w.peers p) { state = leader }

  abbrev after : World
  after = record w { peers = put w.peers p winner; won = (w.peers p).term ∷ w.won }

  -- A leader afterwards is the winner or led before.
  abbrev Now : ℕ → Raft → Type 0
  Now q r =
      r.state ≡ leader
      → ((q ≡ p) × (r.term ≡ (w.peers p).term))
        ⊎ (((w.peers q).state ≡ leader) × (r.term ≡ (w.peers q).term))

  leads_now : (q : ℕ) → Now q (put w.peers p winner q)
  leads_now = put_all Now w.peers p winner (λ l. inl (refl, refl)) (λ q other l. inr (l, refl))

  same_log : (q : ℕ) → (put w.peers p winner q).log ≡ (w.peers q).log
  same_log = put_all (λ q r. r.log ≡ (w.peers q).log) w.peers p winner refl (λ q other. refl)

  log_before : (l : List Log) → Logged after l → Logged w l
  log_before l (at_peer q e) = at_peer q (sym (same_log q) ∙ e)
  log_before l (in_flight m sent e) = in_flight m sent e

  not_new : (t : ℕ) → Memᴰ t w.won → t ≡ (w.peers p).term → ⊥
  not_new t m e = fresh_term (subst (λ u. Memᴰ u w.won) e m)

  led_after :
      (q : ℕ) (r : Raft) → Now q r → r.state ≡ leader → Memᴰ r.term ((w.peers p).term ∷ w.won)
  led_after q r now_leads l = elim (now_leads l) [
    | inl (e, t) ↦ Memᴰ.head t
    | inr (led, t) ↦ Memᴰ.tail (subst (λ u. Memᴰ u w.won) (sym t) (inv.led q led))
  ]

  mine_after :
      (q : ℕ) (r : Raft) (l : List Log) (i : ℕ) (e : Log)
      → Now q r
      → r.log ≡ (w.peers q).log
      → r.state ≡ leader
      → Logged w l
      → get_elem? l i ≡ some e
      → e.term ≡ r.term
      → i < length r.log
  mine_after q r l i e now_leads kept h a there same = elim (now_leads h) [
    | inl (_, t) ↦ absurd (not_new e.term (inv.known l i e a there) (same ∙ t))
    | inr (led, t) ↦
        subst (λ (m : List Log). i < length m) (sym kept) (inv.mine q l i e led a there (same ∙ t))
  ]

  single_after :
      (a b : ℕ) (r s : Raft)
      → Now a r
      → Now b s
      → r.state ≡ leader
      → s.state ≡ leader
      → r.term ≡ s.term
      → a ≡ b
  single_after a b r s na nb la lb same = go (na la) (nb lb)
    where
      go :
          ((a ≡ p) × (r.term ≡ (w.peers p).term))
            ⊎ (((w.peers a).state ≡ leader) × (r.term ≡ (w.peers a).term))
          → ((b ≡ p) × (s.term ≡ (w.peers p).term))
            ⊎ (((w.peers b).state ≡ leader) × (s.term ≡ (w.peers b).term))
          → a ≡ b
      go (inl (e, _)) (inl (f, _)) = e ∙ sym f
      go (inl (_, t)) (inr (led, u)) =
          absurd (not_new (w.peers b).term (inv.led b led) (sym u ∙ sym same ∙ t))
      go (inr (led, t)) (inl (_, u)) =
          absurd (not_new (w.peers a).term (inv.led a led) (sym t ∙ same ∙ u))
      go (inr (la', t)) (inr (lb', u)) = inv.single a b la' lb' (sym t ∙ same ∙ u)

  own_after :
      (m : Packet) (q : ℕ) (r : Raft)
      → Memᴰ m w.sent
      → Now q r
      → r.state ≡ leader
      → m.args.term ≡ r.term
      → m.from ≡ q
  own_after m q r sent now_leads l same = elim (now_leads l) [
    | inl (_, t) ↦ absurd (not_new m.args.term (inv.stamped m sent) (same ∙ t))
    | inr (led, t) ↦ inv.own m q sent led (same ∙ t)
  ]

  pub elect-Inv : Reach (fresh n p now) winner → Inv n now after
  elect-Inv run = record {
    matching = λ l m a b. inv.matching l m (log_before l a) (log_before m b);
    known = λ l i e a there. Memᴰ.tail (inv.known l i e (log_before l a) there);
    led = λ q l. led_after q (put w.peers p winner q) (leads_now q) l;
    mine = λ q l i e h a there same.
        mine_after q (put w.peers p winner q) l i e (leads_now q) (same_log q) h (log_before l a)
          there same;
    single = λ a b la lb same.
        single_after a b (put w.peers p winner a) (put w.peers p winner b) (leads_now a)
          (leads_now b) la lb same;
    stamped = λ m sent. Memᴰ.tail (inv.stamped m sent);
    own = λ m q sent l same. own_after m q (put w.peers p winner q) sent (leads_now q) l same;
    built = inv.built;
    runs = put_all (λ q r. Reach (fresh n q now) r) w.peers p winner run (λ q other. inv.runs q);
  }

-- A leader sends what it built from its log.
module _ {n now : ℕ} (w : World) (inv : Inv n now w) (p : ℕ) (args : AppendEntriesArgs)
    (leads : (w.peers p).state ≡ leader) (made : Built (w.peers p).log args)
    (term : args.term ≡ (w.peers p).term) where
  abbrev packet : Packet
  packet = record { from = p; log = (w.peers p).log; args = args }

  abbrev sent_on : World
  sent_on = record w { sent = packet ∷ w.sent }

  log_as_before : (l : List Log) → Logged sent_on l → Logged w l
  log_as_before l (at_peer q e) = at_peer q e
  log_as_before l (in_flight m (Memᴰ.head e) f) = at_peer p (ap (λ (x : Packet). x.log) (sym e) ∙ f)
  log_as_before l (in_flight m (Memᴰ.tail sent) f) = in_flight m sent f

  stamped_on : (m : Packet) → Memᴰ m sent_on.sent → Memᴰ m.args.term w.won
  stamped_on m (Memᴰ.head e) =
      subst (λ t. Memᴰ t w.won) (sym (ap (λ (x : Packet). x.args.term) e ∙ term)) (inv.led p leads)
  stamped_on m (Memᴰ.tail sent) = inv.stamped m sent

  own_on :
      (m : Packet) (q : ℕ)
      → Memᴰ m sent_on.sent
      → (w.peers q).state ≡ leader
      → m.args.term ≡ (w.peers q).term
      → m.from ≡ q
  own_on m q (Memᴰ.head e) l same =
      ap (λ (x : Packet). x.from) e
      ∙ inv.single p q leads l (sym term ∙ sym (ap (λ (x : Packet). x.args.term) e) ∙ same)
  own_on m q (Memᴰ.tail sent) l same = inv.own m q sent l same

  made_upon : (m : Packet) → Memᴰ m sent_on.sent → Built m.log m.args
  made_upon m (Memᴰ.head e) = subst (λ (x : Packet). Built x.log x.args) (sym e) made
  made_upon m (Memᴰ.tail sent) = inv.built m sent

  pub send-Inv : Inv n now sent_on
  send-Inv = record {
    matching = λ l m a b. inv.matching l m (log_as_before l a) (log_as_before m b);
    known = λ l i e a. inv.known l i e (log_as_before l a);
    led = inv.led;
    mine = λ q l i e h a. inv.mine q l i e h (log_as_before l a);
    single = inv.single;
    stamped = stamped_on;
    own = own_on;
    built = made_upon;
    runs = inv.runs;
  }
