-- ===== src/Raft/Commit.antt =====
-- lab3-D/raft.go: `pushToFollowers`, which commits what a majority holds, and `ReachToCommit`,
-- which hands committed commands to the service.
pub mod Quorum
pub mod Apply
pub mod Checked
use cslearning.Prelude.{
  ◌≡◌, refl, inl, inr, Bool-cases, ℕ, zero, suc, ◌+◌, ◌-◌, Bool, true, false, Option, none, some,
  List, [], ◌∷◌, ◌++◌, ltb, leb, ◌==◌, ◌&&◌, ◌||◌, not, if◌then◌else◌, length, take, ℤ, pos, negsuc,
  Run, done, panic, slice_from, ◌>>=◌,
}
use cslearning.Raft.State.{Raft, Log, Cmd, is_leader, killed, index_sub, term_at}
use cslearning.Raft.Vote.{majority}

-- how many `matchIndex` reach an index
abbrev pub holders : ℕ → List ℕ → ℕ
holders i [] = 0
holders i (m ∷ ms) = (if leb i m then 1 else 0) + holders i ms

-- One round of the loop below at `n`, where `rest` is what the later rounds come to.
abbrev pub commit_visit : ℕ → Raft → Raft → Raft
commit_visit n r rest =
    if ltb r.commit_index (n + r.last_snapshot_commit)
    then (if leb (majority r) (holders (n + r.last_snapshot_commit) r.match_index)
          && term_at r.log n == r.term
        then record r { commit_index = n + r.last_snapshot_commit }
        else rest)
    else r

-- The loop `for N := len(rf.log) - 1; N > rf.indexSub(rf.commitIndex); N--`, from `N` down to 0.
-- Where `commitIndex` is below the snapshot, Go goes on to negative `N`, and may panic; the loop of
-- Raft/Commit/Checked.antt does, and is this one where `commitIndex` is not below the snapshot.
unfoldable pub commit_scan : ℕ → Raft → Raft
commit_scan zero r = commit_visit zero r r
commit_scan (suc n) r = commit_visit (suc n) r (commit_scan n r)

-- One round of the goroutine of `pushToFollowers`: whether it goes on, and the new state.
unfoldable pub push_to_followers : Raft → Raft × Bool
unfolding commit_scan killed
push_to_followers r =
    if leb (length r.log + r.last_snapshot_commit) (r.commit_index + 1)
    then (r, true)
    else if killed r || not (is_leader r.state)
    then (r, false)
    else (commit_scan (length r.log - 1) r, true)

pub data ApplyMsg : Type 0 where
  command_msg : (cmd : Cmd) (index : ℕ) → ApplyMsg
  snapshot_msg : (snapshot : List ℕ) (term index : ℕ) → ApplyMsg

-- `rf.log[i : j]`, where `spare` is what lies in memory between the length of the slice and its
-- capacity, which is the bound that Go checks `j` against.
abbrev pub slice {ℓ} : {A : Type ℓ} → (l spare : List A) → ℤ → ℕ → Run (List A)
slice l spare i j =
    let all = l ++ spare in
    slice_from (take j all) i >>= λ part. if leb j (length all) then done part else panic

-- The first locked part of `ReachToCommit`, past its wait: the entries to hand over.
-- `spare` is the memory past the end of the log.
unfoldable pub take_batch : List Log → Raft → Run (List Log)
unfolding index_sub
take_batch spare r = elim (index_sub r (r.commit_index + 1)) [
  | pos end ↦ slice r.log spare (index_sub r (r.last_applied + 1)) end
  | negsuc _ ↦ panic
]

-- The loop that sends a batch: the messages, and the state after the last one.
unfoldable pub send_batch : ℕ → List Log → Raft → Raft × List ApplyMsg
send_batch at [] r = (r, [])
send_batch at (e ∷ es) r =
    let (r', rest) = send_batch (at + 1) es (record r { last_applied = at }) in
    (r', command_msg e.cmd at ∷ rest)

-- One turn of `ReachToCommit` with nothing in between; `none` while there is nothing to do.
unfoldable pub reach_to_commit : List Log → Raft → Run (Option (Raft × List ApplyMsg))
unfolding take_batch send_batch killed
reach_to_commit spare r =
    if leb r.commit_index r.last_applied || killed r
    then done none
    else (take_batch spare r >>= λ entries. done (some (send_batch (r.last_applied + 1) entries r)))

-- The loop touches nothing but `commitIndex`.
visit_frame :
    (n c : ℕ) (r rest : Raft)
    → rest ≡ record r { commit_index = c }
    → (c' : ℕ) × (commit_visit n r rest ≡ record r { commit_index = c' })
visit_frame n c r rest h = elim (Bool-cases (ltb r.commit_index (n + r.last_snapshot_commit))) [
  | inr over ↦ (r.commit_index, rw over refl)
  | inl more ↦
      elim (Bool-cases (
        leb (majority r) (holders (n + r.last_snapshot_commit) r.match_index)
        && term_at r.log n == r.term)) [
          | inl stops ↦ (n + r.last_snapshot_commit, rw more (rw stops refl))
          | inr goes_on ↦ (c, rw more (rw goes_on h))
        ]
]

pub commit_scan_frame :
    (n : ℕ) (r : Raft) → (c : ℕ) × (commit_scan n r ≡ record r { commit_index = c })
unfolding commit_scan
commit_scan_frame zero r = visit_frame zero r.commit_index r r refl
commit_scan_frame (suc n) r =
    let (c, below) = commit_scan_frame n r in visit_frame (suc n) c r (commit_scan n r) below
