-- ===== src/Lab3C/Cluster/Appended.antt =====
-- lab3-C/raft.go: a leader appends a command.
use mathlib.Core.List.{Memᴰ}
use cslearning.Prelude.{
  ℕ, ◌≡◌, ◌≢◌, ◌<◌, refl, sym, ap, ◌∙◌, subst, ◌⊎◌, inl, inr, arith, List, [], ◌∷◌, ◌++◌, length,
  length-append, some, get_elem?,
}
use cslearning.Raft.State.{Log, Cmd, leader}
use cslearning.Lab3C.State.{Raft}
use cslearning.Lab3C.Node.{Reach}
use cslearning.Lab3C.Matching.{Matching}
use cslearning.Lab3C.Extend.{Matching-sym, Matching-append, Matching-both, entry_cases}
use cslearning.Lab3C.Beside.OneVote.{fresh}
use cslearning.Lab3C.Cluster.{World, put}
use cslearning.Lab3C.Cluster.Invariant.{Logged, at_peer, in_flight, Inv}
use cslearning.Lab3C.Cluster.Change.{put_all}

module _ {n now : ℕ} (w : World) (inv : Inv n now w) (p : ℕ) (leads : (w.peers p).state ≡ leader)
    (cmd : Cmd) (s : Raft) where
  abbrev entry : Log
  entry = record { term = (w.peers p).term; cmd = cmd }

  abbrev longer : List Log
  longer = (w.peers p).log ++ entry ∷ []

  abbrev after : World
  after = record w { peers = put w.peers p s }

  module _ (grown : s.log ≡ longer) (same_term : s.term ≡ (w.peers p).term) where
    log_before : (l : List Log) → Logged after l → Logged w l ⊎ (l ≡ longer)
    log_before l (at_peer q e) =
        put_all (λ k r. r.log ≡ l → Logged w l ⊎ (l ≡ longer)) w.peers p s
          (λ f. inr (sym f ∙ grown)) (λ k other f. inl (at_peer k f)) q e
    log_before l (in_flight m sent e) = inl (in_flight m sent e)

    mine_at : Logged w (w.peers p).log
    mine_at = at_peer p refl

    -- Nobody else has an entry of this term at the new place.
    free :
        (m : List Log)
        → Logged w m
        → (f : Log) → get_elem? m (length (w.peers p).log) ≡ some f
        → f.term ≢ entry.term
    free m a f there same =
        absurd (omega (arith, inv.mine p m (length (w.peers p).log) f leads a there same))

    longer-Matching : (m : List Log) → Logged w m → Matching longer m
    longer-Matching m a =
        Matching-append (w.peers p).log m entry (inv.matching (w.peers p).log m mine_at a)
          (free m a)

    agree_after :
        (l m : List Log) → Logged w l ⊎ (l ≡ longer) → Logged w m ⊎ (m ≡ longer) → Matching l m
    agree_after l m (inl a) (inl b) = inv.matching l m a b
    agree_after l m (inl a) (inr f) =
        subst (Matching l) (sym f) (Matching-sym longer l (longer-Matching l a))
    agree_after l m (inr e) (inl b) = subst (λ x. Matching x m) (sym e) (longer-Matching m b)
    agree_after l m (inr e) (inr f) =
        subst (λ x. Matching x m) (sym e)
          (subst (Matching longer) (sym f) (Matching-both (w.peers p).log entry))

    -- An entry of a log is an old one, or the new one.
    entry_before :
        (l : List Log) (i : ℕ) (e : Log)
        → Logged w l ⊎ (l ≡ longer)
        → get_elem? l i ≡ some e
        → ((m : List Log) × Logged w m × (get_elem? m i ≡ some e))
          ⊎ ((i ≡ length (w.peers p).log) × (entry ≡ e))
    entry_before l i e (inl a) there = inl (l, a, there)
    entry_before l i e (inr f) there =
        elim (entry_cases (w.peers p).log entry i e (subst (λ x. get_elem? x i ≡ some e) f there)) [
          | inl (old, _) ↦ inl ((w.peers p).log, mine_at, old)
          | inr new ↦ inr new
        ]

    known_after :
        (l : List Log) (i : ℕ) (e : Log)
        → Logged after l
        → get_elem? l i ≡ some e
        → Memᴰ e.term w.won
    known_after l i e a there = elim (entry_before l i e (log_before l a) there) [
      | inl (m, b, old) ↦ inv.known m i e b old
      | inr (_, new) ↦ subst (λ t. Memᴰ t w.won) (ap (λ (x : Log). x.term) new) (inv.led p leads)
    ]

    -- The peers afterwards, beside those before.
    abbrev Beside : ℕ → Raft → Type 0
    Beside q r =
        (r.state ≡ leader → (w.peers q).state ≡ leader)
        × (r.term ≡ (w.peers q).term)
        × (((q ≡ p) × (r.log ≡ longer)) ⊎ ((q ≢ p) × (r.log ≡ (w.peers q).log)))

    beside : (q : ℕ) → Beside q (put w.peers p s q)
    beside =
        put_all Beside w.peers p s (λ _. leads, same_term, inl (refl, grown))
          (λ q other. (λ l. l, refl, inr (other, refl)))

    mine_after :
        (q : ℕ) (r : Raft) (l : List Log) (i : ℕ) (e : Log)
        → Beside q r
        → r.state ≡ leader
        → Logged after l
        → get_elem? l i ≡ some e
        → e.term ≡ r.term
        → i < length r.log
    mine_after q r l i e (led, term, inl (me, long)) h a there same =
        elim (entry_before l i e (log_before l a) there) [
          | inl (m, b, old) ↦ omega (
            arith,
            inv.mine p m i e leads b old (same ∙ term ∙ ap (λ k. (w.peers k).term) me),
            length-append (w.peers p).log (entry ∷ []),
            ap length long,
          )
          | inr (last, _) ↦
              omega (arith, length-append (w.peers p).log (entry ∷ []), ap length long)
        ]
    mine_after q r l i e (led, term, inr (other, kept)) h a there same =
        elim (entry_before l i e (log_before l a) there) [
          | inl (m, b, old) ↦
              subst (λ (x : List Log). i < length x) (sym kept)
                (inv.mine q m i e (led h) b old (same ∙ term))
          | inr (_, new) ↦ absurd (
              other
                (inv.single q p (led h) leads (sym (ap (λ (x : Log). x.term) new ∙ same ∙ term))))
        ]

    pub append-Inv : Reach (fresh n p now) s → Inv n now after
    append-Inv run = record {
      matching = λ l m a b. agree_after l m (log_before l a) (log_before m b);
      known = known_after;
      led = λ q l. subst (λ t. Memᴰ t w.won) (sym (beside q).1) (inv.led q ((beside q).0 l));
      mine = λ q l i e h a there same.
          mine_after q (put w.peers p s q) l i e (beside q) h a there same;
      single = λ a b la lb same.
          inv.single a b ((beside a).0 la) ((beside b).0 lb)
            (sym (beside a).1 ∙ same ∙ (beside b).1);
      stamped = inv.stamped;
      own = λ m q sent l same. inv.own m q sent ((beside q).0 l) (same ∙ (beside q).1);
      built = inv.built;
      runs = put_all (λ q r. Reach (fresh n q now) r) w.peers p s run (λ q other. inv.runs q);
    }
