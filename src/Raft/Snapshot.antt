-- ===== src/Raft/Snapshot.antt =====
-- lab3-D/raft.go: `Snapshot`, `InstallSnapshot`, and the leader's side of it.
pub mod Kept
use cslearning.Prelude.{
  ◌<◌, inl, inr, Bool-cases, arith, ℕ, ◌+◌, ◌-◌, Bool, true, Option, none, some, List, [], ◌∷◌,
  ◌++◌, ltb, leb, ◌==◌, ◌&&◌, not, if◌then◌else◌, length, set, drop, Run, done, index, slice_from,
  ◌>>=◌,
}
use cslearning.Raft.State.{Raft, Log, text, persist, step_down, index_sub, term_at}
use cslearning.Raft.Leader.{reset_followers}
use cslearning.Raft.Commit.{ApplyMsg, snapshot_msg}

-- `rf.log[0].Cmd = ""`
abbrev pub blank_first : List Log → List Log
blank_first [] = []
blank_first (e ∷ es) = record e { cmd = text "" } ∷ es

-- `Snapshot` once it has read the entry at `index` and cut the log there.
unfoldable pub snapshot_from : ℕ → List ℕ → Raft → Log → List Log → Raft
unfolding reset_followers
snapshot_from i snapshot r e kept = reset_followers (
    persist (record r {
      last_snapshot_term = e.term;
      log = blank_first kept;
      last_snapshot_commit = i;
      snapshot = snapshot;
    }))

unfoldable pub take_snapshot : ℕ → List ℕ → Raft → Run Raft
unfolding index_sub
take_snapshot i snapshot r =
    if leb i r.last_snapshot_commit
    then done r
    else (index r.log (index_sub r i) >>= λ e.
        (slice_from r.log (index_sub r i) >>= λ kept. done (snapshot_from i snapshot r e kept)))

pub record InstallSnapshotArgs : Type 0 where
  pub term : ℕ
  pub leader_id : ℕ
  pub last_included_index : ℕ
  pub last_included_term : ℕ
  pub offset : ℕ
  pub bytes : List ℕ
  pub is_last : Bool  -- `Done`

-- The log after a snapshot: what follows the snapshot's last entry, if the log has that entry.
unfoldable pub trimmed : InstallSnapshotArgs → Raft → List Log
trimmed args r =
    let at = args.last_included_index - r.last_snapshot_commit in
    if ltb at (length r.log) && term_at r.log at == args.last_included_term
    then drop at r.log
    else record { term = args.last_included_term; cmd = text "" } ∷ []

-- `if rf.commitIndex < args.LastIncludedIndex`
abbrev pub skip_to : ℕ → Raft → Raft
skip_to i r = if ltb r.commit_index i then record r { commit_index = i; last_applied = i } else r

-- The handler once the snapshot is known to be newer; the last part is what is sent to `applyCh`.
unfoldable pub install_newer : InstallSnapshotArgs → Raft → Raft × Option ApplyMsg
install_newer args r =
    let r₁ = record r { snapshot = (if args.offset == 0 then [] else r.snapshot) ++ args.bytes } in
    if not args.is_last
    then (r₁, none)
    else (let r₂ = skip_to args.last_included_index (record r₁ { log = trimmed args r }) in
        (
          persist (record r₂ {
            last_snapshot_commit = args.last_included_index;
            last_snapshot_term = args.last_included_term;
          }),
          some (snapshot_msg args.bytes args.last_included_term args.last_included_index),
        ))

-- the newer term if there is one, and `time_`
unfoldable pub see_snapshot : ℕ → InstallSnapshotArgs → Raft → Raft
unfolding step_down
see_snapshot now args r =
    record (if ltb r.term args.term then persist (step_down args.term r) else r) { time = now }

-- `InstallSnapshot`: the new state, the reply's `Term`, and the message for the service.
unfoldable pub install_snapshot : ℕ → InstallSnapshotArgs → Raft → Raft × (ℕ × Option ApplyMsg)
install_snapshot now args r =
    if ltb args.term r.term
    then (r, (r.term, none))
    else (let r₁ = see_snapshot now args r in
        if leb args.last_included_index r₁.last_snapshot_commit
        then (r₁, (r.term, none))
        else (let (r₂, msg) = install_newer args r₁ in (r₂, (r.term, msg))))

-- What holds of the peer left alone, of the peer that has seen the leader's term, and of what a
-- newer snapshot makes of that, holds of the peer after `InstallSnapshot`.
pub install_snapshot_cases :
    (P : Raft → Type 0) (now : ℕ) (args : InstallSnapshotArgs) (r : Raft)
    → P r
    → P (see_snapshot now args r)
    → ((see_snapshot now args r).last_snapshot_commit < args.last_included_index
        → P (install_newer args (see_snapshot now args r)).0)
    → P (install_snapshot now args r).0
unfolding install_snapshot
install_snapshot_cases P now args r kept seen newer = elim (Bool-cases (ltb args.term r.term)) [
  | inl stale ↦ rw stale kept
  | inr current ↦
      rw current
        (elim (Bool-cases
          (leb args.last_included_index (see_snapshot now args r).last_snapshot_commit)) [
            | inl old ↦ rw old seen
            | inr new ↦ rw new (newer (ground arith))
          ])
]

-- What the leader sends a follower that is behind its snapshot.
unfoldable pub build_snapshot : Raft → InstallSnapshotArgs
build_snapshot r = record {
  term = r.term;
  leader_id = r.me;
  last_included_index = r.last_snapshot_commit;
  last_included_term = r.last_snapshot_term;
  offset = 0;
  bytes = r.snapshot;
  is_last = true;
}

-- What it does with the reply of follower `i`.
unfoldable pub snapshot_reply : ℕ → ℕ → Raft → Raft
unfolding step_down
snapshot_reply i reply_term r =
    if ltb r.term reply_term then persist (step_down reply_term r) else record r {
      next_index = set r.next_index i (r.last_snapshot_commit + 1);
      match_index = set r.match_index i r.last_snapshot_commit;
    }
