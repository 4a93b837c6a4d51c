-- ===== src/Lab3C/Cluster/Change.antt =====
-- lab3-C/raft.go: one peer changes, and the others stay.
use mathlib.Core.List.{Memᴰ}
use cslearning.Prelude.{
  ℕ, ◌≡◌, ◌≢◌, ◌<◌, refl, sym, ◌∙◌, subst, Bool-cases, inl, inr, ==→eq, arith, ◌==◌, List, length,
}
use cslearning.Raft.State.{Log, leader}
use cslearning.Lab3C.State.{Raft}
use cslearning.Lab3C.Node.{Reach}
use cslearning.Lab3C.Beside.OneVote.{fresh}
use cslearning.Lab3C.Cluster.{World, put}
use cslearning.Lab3C.Cluster.Invariant.{Logged, at_peer, in_flight, Inv}

-- What holds of the changed peer, and of the others before, holds of all.
pub put_all :
    (P : ℕ → Raft → Type 0) (f : ℕ → Raft) (p : ℕ) (r : Raft)
    → P p r
    → ((q : ℕ) → q ≢ p → P q (f q))
    → (q : ℕ) → P q (put f p r q)
put_all P f p r here others q = elim (Bool-cases (q == p)) [
  | inl same ↦ rw same (subst (λ k. P k r) (sym (==→eq q p same)) here)
  | inr other ↦ rw other (others q (λ e. ground arith))
]

module _ {n now : ℕ} (w : World) (inv : Inv n now w) (p : ℕ) (s : Raft) where
  -- A leader after the change was one before, with the same term and log.
  abbrev pub Led : ℕ → Raft → Type 0
  Led q r =
      r.state ≡ leader
      → ((w.peers q).state ≡ leader) × (r.term ≡ (w.peers q).term) × (r.log ≡ (w.peers q).log)

  pub log_before :
      Logged w s.log → (l : List Log) → Logged (record w { peers = put w.peers p s }) l → Logged w l
  log_before logged l (at_peer q e) =
      put_all (λ k r. r.log ≡ l → Logged w l) w.peers p s (λ f. subst (Logged w) f logged)
        (λ k other f. at_peer k f) q e
  log_before logged l (in_flight m sent e) = in_flight m sent e

  pub change-Inv :
      Logged w s.log
      → Led p s
      → Reach (fresh n p now) s
      → Inv n now (record w { peers = put w.peers p s })
  change-Inv logged led_before run =
      let was = put_all Led w.peers p s led_before (λ q other l. (l, refl, refl)) in
      record {
        matching = λ l m a b. inv.matching l m (log_before logged l a) (log_before logged m b);
        known = λ l i e a. inv.known l i e (log_before logged l a);
        led = λ q l. subst (λ t. Memᴰ t w.won) (sym (was q l).1) (inv.led q (was q l).0);
        mine = λ q l i e h a there same.
            subst (λ (m : List Log). i < length m) (sym (was q h).2)
              (inv.mine q l i e (was q h).0 (log_before logged l a) there (same ∙ (was q h).1));
        single = λ a b la lb same.
            inv.single a b (was a la).0 (was b lb).0 (sym (was a la).1 ∙ same ∙ (was b lb).1);
        stamped = inv.stamped;
        own = λ m q sent l same. inv.own m q sent (was q l).0 (same ∙ (was q l).1);
        built = inv.built;
        runs = put_all (λ q r. Reach (fresh n q now) r) w.peers p s run (λ q other. inv.runs q);
      }
