-- ===== src/Raft/Snapshot/Kept.antt =====
-- lab3-D/raft.go: what `Snapshot` and `InstallSnapshot` do to the log behind the snapshot.
use cslearning.Prelude.{
  ℕ, zero, suc, ◌+◌, ◌-◌, ◌≤◌, ◌<◌, ◌≡◌, refl, sym, ap, subst, ◌∙◌, inl, inr, Bool, true, false,
  Option, none, some, List, [], ◌∷◌, length, get_elem?, get_or, drop, ltb, leb, ◌==◌, ◌&&◌,
  if◌then◌else◌, Bool-cases, Returns, arith, le→leb, sub_ℕ, pos,
}
use cslearning.Raft.State.{Raft, Log, zero_log, text, persist, step_down, index_sub, term_at}
use cslearning.Raft.Leader.{reset_followers}
use cslearning.Raft.Snapshot.{
  blank_first, snapshot_from, take_snapshot, InstallSnapshotArgs, trimmed, install_newer,
  see_snapshot, install_snapshot,
}

-- the entry of an index behind the snapshot
abbrev pub entry_at : Raft → ℕ → Option Log
entry_at r j = get_elem? r.log (j - r.last_snapshot_commit)

get_elem?-drop : (n k : ℕ) (l : List Log) → get_elem? (drop n l) k ≡ get_elem? l (n + k)
get_elem?-drop zero k l = subst (λ m. get_elem? l k ≡ get_elem? l m) (plus k) refl
  where
    plus : (k : ℕ) → k ≡ 0 + k
    plus k = omega arith
get_elem?-drop (suc n) k [] = refl
get_elem?-drop (suc n) k (x ∷ l) =
    get_elem?-drop n k l ∙ subst (λ m. get_elem? l (n + k) ≡ get_elem? (x ∷ l) m) (plus n k) refl
  where
    plus : (n k : ℕ) → suc (n + k) ≡ suc n + k
    plus n k = omega arith

get_elem?-blank_first : (l : List Log) (k : ℕ) → 0 < k → get_elem? (blank_first l) k ≡ get_elem? l k
get_elem?-blank_first [] k above = refl
get_elem?-blank_first (x ∷ l) zero above = absurd (omega arith)
get_elem?-blank_first (x ∷ l) (suc k) above = refl

-- Behind a cut of `n` entries, the entry at distance `k` is the old one at `n + k`.
cut_keeps :
    (l : List Log) (i j c : ℕ)
    → c ≤ i
    → i < j
    → get_elem? (drop (i - c) l) (j - i) ≡ get_elem? l (j - c)
cut_keeps l i j c le lt = get_elem?-drop (i - c) (j - i) l ∙ ap (get_elem? l) (omega arith)

get_elem?-in : (l : List Log) (n : ℕ) → n < length l → get_elem? l n ≡ some (get_or l n zero_log)
get_elem?-in [] n lt = absurd (omega arith)
get_elem?-in (x ∷ l) zero lt = refl
get_elem?-in (x ∷ l) (suc n) lt = get_elem?-in l n (omega arith)

-- What `Snapshot` leaves: the snapshot with the index and the term of its last entry, and every later
-- entry at its index.
pub record Kept (i : ℕ) (snapshot : List ℕ) (r r' : Raft) : Type 0 where
  pub index_is : r'.last_snapshot_commit ≡ i
  pub term_is : r'.last_snapshot_term ≡ term_at r.log (i - r.last_snapshot_commit)
  pub snapshot_is : r'.snapshot ≡ snapshot
  pub later : (j : ℕ) → i < j → entry_at r' j ≡ entry_at r j

-- `Snapshot` of an index behind the last snapshot and within the log does not panic, records the snapshot
-- with its index and the term of the entry there, and keeps every later entry at its index.
pub take_snapshot-Kept :
    (i : ℕ) (snapshot : List ℕ) (r : Raft)
    → r.last_snapshot_commit < i
    → i < r.last_snapshot_commit + length r.log
    → Returns (take_snapshot i snapshot r) (Kept i snapshot r)
unfolding take_snapshot snapshot_from persist reset_followers index_sub
take_snapshot-Kept i snapshot r above inside =
    rw (new, at, get_elem?-in r.log (i - r.last_snapshot_commit) (omega arith), in_range)
      (record {
        index_is = refl;
        term_is = refl;
        snapshot_is = refl;
        later = λ j lt.
            get_elem?-blank_first (drop (i - r.last_snapshot_commit) r.log) (j - i) (omega arith)
            ∙ cut_keeps r.log i j r.last_snapshot_commit (omega arith) lt;
      })
  where
    new : leb i r.last_snapshot_commit ≡ false
    new = ground arith

    at : sub_ℕ i r.last_snapshot_commit ≡ pos (i - r.last_snapshot_commit)
    at = rw below refl
      where
        below : leb r.last_snapshot_commit i ≡ true
        below = ground arith

    in_range : leb (i - r.last_snapshot_commit) (length r.log) ≡ true
    in_range = le→leb (i - r.last_snapshot_commit) (length r.log) (omega arith)

-- the log has the last entry of the snapshot
abbrev pub has_last : InstallSnapshotArgs → Raft → Bool
has_last args r =
    let at = args.last_included_index - r.last_snapshot_commit in
    ltb at (length r.log) && term_at r.log at == args.last_included_term

-- What the last part of a newer snapshot leaves.
pub record Installed (args : InstallSnapshotArgs) (r r' : Raft) : Type 0 where
  pub index_is : r'.last_snapshot_commit ≡ args.last_included_index
  pub term_is : r'.last_snapshot_term ≡ args.last_included_term
  pub committed : (r.commit_index ≤ r'.commit_index) × (args.last_included_index ≤ r'.commit_index)
  pub later :
      (j : ℕ)
      → args.last_included_index < j
      → entry_at r' j ≡ (if has_last args r then entry_at r j else none)

trimmed-get :
    (args : InstallSnapshotArgs) (r : Raft) (j : ℕ)
    → r.last_snapshot_commit < args.last_included_index
    → args.last_included_index < j
    → get_elem? (trimmed args r) (j - args.last_included_index)
      ≡ (if has_last args r then entry_at r j else none)
unfolding trimmed
trimmed-get args r j newer lt = elim (Bool-cases (has_last args r)) [
  | inl has ↦
      rw has (cut_keeps r.log args.last_included_index j r.last_snapshot_commit (omega arith) lt)
  | inr lacks ↦ rw lacks (alone (j - args.last_included_index) (omega arith))
]
  where
    alone :
        (k : ℕ)
        → 0 < k
        → get_elem? {A = Log} (record { term = args.last_included_term; cmd = text "" } ∷ []) k
          ≡ none
    alone zero above = absurd (omega arith)
    alone (suc k) above = refl

install_newer-Installed :
    (args : InstallSnapshotArgs) (r : Raft)
    → args.is_last ≡ true
    → r.last_snapshot_commit < args.last_included_index
    → Installed args r (install_newer args r).0
unfolding install_newer persist
install_newer-Installed args r last newer = elim (Bool-cases (ltb r.commit_index i)) [
  | inl skips ↦
      rw (last, skips)
        (record {
          index_is = refl;
          term_is = refl;
          committed = (ground arith, omega arith);
          later = λ j lt. trimmed-get (record args { is_last = true }) r j newer lt;
        })
  | inr stays ↦
      rw (last, stays)
        (record {
          index_is = refl;
          term_is = refl;
          committed = (omega arith, ground arith);
          later = λ j lt. trimmed-get (record args { is_last = true }) r j newer lt;
        })
]
  where
    i : ℕ
    i = args.last_included_index

see_snapshot_frame :
    (now : ℕ) (args : InstallSnapshotArgs) (r : Raft)
    → ((see_snapshot now args r).log ≡ r.log)
      × ((see_snapshot now args r).last_snapshot_commit ≡ r.last_snapshot_commit)
      × ((see_snapshot now args r).commit_index ≡ r.commit_index)
unfolding see_snapshot step_down persist
see_snapshot_frame now args r = ground arith

-- `Installed` reads of the old state the log, the snapshot's index and `commitIndex`.
Installed-frame :
    (args : InstallSnapshotArgs) (r₁ r r' : Raft)
    → (r₁.log ≡ r.log)
      × (r₁.last_snapshot_commit ≡ r.last_snapshot_commit)
      × (r₁.commit_index ≡ r.commit_index)
    → Installed args r₁ r'
    → Installed args r r'
Installed-frame args r₁ r r' (same_log, same_index, same_commit) h = record {
  index_is = h.index_is;
  term_is = h.term_is;
  committed = (omega (arith, h.committed.0), h.committed.1);
  later = λ j lt. h.later j lt ∙ rw (same_log, same_index) refl;
}

install_snapshot-install_newer :
    (now : ℕ) (args : InstallSnapshotArgs) (r : Raft)
    → r.term ≤ args.term
    → (see_snapshot now args r).last_snapshot_commit < args.last_included_index
    → (install_snapshot now args r).0 ≡ (install_newer args (see_snapshot now args r)).0
unfolding install_snapshot
install_snapshot-install_newer now args r current newer = rw (is_current, is_newer) refl
  where
    is_current : ltb args.term r.term ≡ false
    is_current = ground arith

    is_newer : leb args.last_included_index (see_snapshot now args r).last_snapshot_commit ≡ false
    is_newer = ground arith

-- The last part of a snapshot of a current leader, newer than the peer's own, gives the peer the snapshot's
-- index and term; its `commitIndex` does not fall and covers the snapshot; and behind the snapshot the
-- log keeps every entry at its index if it had the snapshot's last entry, and is empty if not.
pub install_snapshot-Installed :
    (now : ℕ) (args : InstallSnapshotArgs) (r : Raft)
    → args.is_last ≡ true
    → r.term ≤ args.term
    → r.last_snapshot_commit < args.last_included_index
    → Installed args r (install_snapshot now args r).0
install_snapshot-Installed now args r last current newer =
    let r₁ = see_snapshot now args r in
    let frame = see_snapshot_frame now args r in
    let newer₁ : r₁.last_snapshot_commit < args.last_included_index = omega (arith, frame.1) in
    subst (Installed args r) (sym (install_snapshot-install_newer now args r current newer₁)) (
      Installed-frame args r₁ r (install_newer args r₁).0 frame
        (install_newer-Installed args r₁ last newer₁))
