-- ===== src/Raft/Commit/Quorum.antt =====
-- lab3-D/raft.go: the index that `pushToFollowers` commits.
use cslearning.Prelude.{
  dec_lt, ℕ, zero, suc, ◌+◌, ◌-◌, ◌≤◌, ◌<◌, ◌≡◌, refl, subst, ◌⊎◌, inl, inr, true, false, length,
  ltb, leb, ◌==◌, ◌&&◌, ◌||◌, not, Bool-cases, done, arith,
}
use cslearning.Raft.State.{Raft, leader, killed, is_leader, term_at}
use cslearning.Raft.Vote.{majority}
use cslearning.Raft.Commit.Checked.{push_checked, push-checked}
use cslearning.Raft.Commit.{holders, commit_visit, commit_scan, push_to_followers}

-- The entry at index `i` may be committed by counting: a majority of the peers has it, and it is of
-- the leader's present term.
abbrev pub Ready : Raft → ℕ → Type 0
Ready r i =
    (majority r ≤ holders i r.match_index) × (term_at r.log (i - r.last_snapshot_commit) ≡ r.term)

-- `c` is the highest index up to `top` that may be committed, or the old `commitIndex` if none above it may.
pub record Highest (r : Raft) (top c : ℕ) : Type 0 where
  pub grows : (c ≡ r.commit_index) ⊎ ((r.commit_index < c) × (c ≤ top) × Ready r c)
  pub best : (i : ℕ) → r.commit_index < i → c < i → i ≤ top → ¬ (Ready r i)

back : (n c : ℕ) → n + c - c ≡ n
back n c = omega arith

Ready-here :
    (n : ℕ) (r : Raft)
    → (leb (majority r) (holders (n + r.last_snapshot_commit) r.match_index)
        && term_at r.log n == r.term)
      ≡ true
    → Ready r (n + r.last_snapshot_commit)
Ready-here n r h = rw (back n r.last_snapshot_commit) (ground arith, ground arith)

not-Ready :
    (n : ℕ) (r : Raft)
    → (leb (majority r) (holders (n + r.last_snapshot_commit) r.match_index)
        && term_at r.log n == r.term)
      ≡ false
    → ¬ (Ready r (n + r.last_snapshot_commit))
not-Ready n r h = rw (back n r.last_snapshot_commit) (λ k. ground arith)

module _ (r : Raft) (above : r.last_snapshot_commit ≤ r.commit_index) where
  visit-Highest :
      (n top : ℕ) (rest : Raft)
      → top + 1 ≡ n + r.last_snapshot_commit
      → Highest r top rest.commit_index
      → Highest r (n + r.last_snapshot_commit) (commit_visit n r rest).commit_index
  visit-Highest n top rest e h =
      elim (Bool-cases (ltb r.commit_index (n + r.last_snapshot_commit))) [
        | inr over ↦ rw over (record { grows = inl refl; best = λ i a b le k. ground arith })
        | inl more ↦
            rw more
              (elim (Bool-cases (
                leb (majority r) (holders (n + r.last_snapshot_commit) r.match_index)
                && term_at r.log n == r.term)) [
                  | inl stops ↦ rw stops (record {
                    grows = inr (ground arith, omega arith, Ready-here n r stops);
                    best = λ i a b le k. omega arith;
                  })
                  | inr goes_on ↦ rw goes_on (record {
                    grows = ground (arith, h.grows);
                    best = λ i a b le k. elim (dec_lt i (n + r.last_snapshot_commit)) [
                      | yes below ↦ h.best i a b (omega arith) k
                      | no last ↦ not-Ready n r goes_on (subst (Ready r) (omega arith) k)
                    ];
                  })
                ])
      ]

  scan-Highest : (n : ℕ) → Highest r (n + r.last_snapshot_commit) (commit_scan n r).commit_index
  unfolding commit_scan
  scan-Highest zero =
      rw (nothing_above (zero + r.last_snapshot_commit) (omega arith))
        (record { grows = inl refl; best = λ i a b le k. omega arith })
    where
      nothing_above : (i : ℕ) → i ≤ r.commit_index → ltb r.commit_index i ≡ false
      nothing_above i h = ground arith
  scan-Highest (suc n) =
      visit-Highest (suc n) (n + r.last_snapshot_commit) (commit_scan n r) (omega arith)
        (scan-Highest n)

-- A round of `pushToFollowers` on a live leader whose log is not empty and whose `commitIndex` is not
-- below its snapshot returns, with every read of the log checked for its range, and is the round of
-- the model. It sets `commitIndex` to the highest index of the log, above the old one, that a
-- majority of `matchIndex` reaches and whose entry is of the leader's own term, or keeps it if
-- there is none; it never lowers it.
pub push-Highest :
    (r : Raft)
    → r.last_snapshot_commit ≤ r.commit_index
    → r.state ≡ leader
    → killed r ≡ false
    → 0 < length r.log
    → (push_checked r ≡ done (push_to_followers r))
      × Highest r (r.last_snapshot_commit + length r.log - 1) (push_to_followers r).0.commit_index
unfolding push_to_followers
push-Highest r above leads lives filled = (
  push-checked r above,
  elim (Bool-cases (leb (length r.log + r.last_snapshot_commit) (r.commit_index + 1))) [
    | inl full ↦ rw full (record { grows = inl refl; best = λ i a b le k. ground arith })
    | inr short ↦
        rw (short, at_work)
          (subst (λ top. Highest r top (commit_scan (length r.log - 1) r).commit_index)
            (omega arith) (scan-Highest r above (length r.log - 1)))
  ],
)
  where
    at_work : (killed r || not (is_leader r.state)) ≡ false
    at_work = ground arith
