-- ===== src/Raft/Service/Resume.antt =====
-- lab3-D/server.go: the order of `applierSnap`, and what `ingestSnap` makes of its snapshots.
use cslearning.Prelude.{
  ℕ, zero, suc, ◌+◌, ◌≤◌, ◌<◌, ◌≡◌, ◌≢◌, refl, ap, ◌∙◌, inl, inr, Bool, true, false, Option, none,
  some, List, get_elem?, get_elem?-lt, get_elem?-set_self, length, ltb, leb, ◌==◌, ◌&&◌, not,
  if◌then◌else◌, Bool-cases, arith,
}
use cslearning.Raft.State.{Cmd}
use cslearning.Raft.Service.{
  Rfsrv, Test, Fault, out_of_order, mismatch, any_differs, has_prev, log_at, check_logs, Read, goes,
  fatal, applier_snap_command, value_or_nil, take_xlog, ingest_snap, new_rfsrv,
}

plus_zero : (j : ℕ) → j + 0 ≡ j
plus_zero j = omega arith

shift : (j m : ℕ) → j + 1 + m ≡ j + suc m
shift j m = omega arith

value_at : (logs : ℕ → Option Cmd) {j k : ℕ} → j ≡ k → value_or_nil (logs j) ≡ value_or_nil (logs k)
value_at logs e = ap (λ i. value_or_nil (logs i)) e

take_xlog-get :
    (logs : ℕ → Option Cmd) (j n m : ℕ)
    → get_elem? (take_xlog logs j n) m
      ≡ (if ltb m n then some (value_or_nil (logs (j + m))) else none)
unfolding take_xlog
take_xlog-get logs j zero m = ground arith
take_xlog-get logs j (suc n) zero = ground (arith, value_at logs (plus_zero j))
take_xlog-get logs j (suc n) (suc m) =
    take_xlog-get logs (j + 1) n m ∙ ground (arith, value_at logs (shift j m))

-- Behind the snapshot of `i`, every index up to `i` has what the server had, and no other has any.
abbrev pub Resumes : ℕ → (ℕ → Option Cmd) → Rfsrv × Option Fault → Type 0
Resumes i logs x =
    (x.1 ≡ none)
    × (x.0.last_applied ≡ i)
    × ((j : ℕ) → x.0.logs j ≡ (if leb j i then some (value_or_nil (logs j)) else none))

-- No index up to `lastApplied` is missing.
abbrev pub Filled : Rfsrv → Type 0
Filled rs = (j : ℕ) → 0 < j → j ≤ rs.last_applied → rs.logs j ≢ none

-- What a command of index `i` comes to: the end of the process, or the next index of server `n`, which
-- is `me`, with a snapshot of that index or none.
abbrev pub InOrder : ℕ → ℕ → Rfsrv → Read → Type 0
InOrder n i me (fatal f) = Unit
InOrder n i me (goes ts snapshot) =
    (i ≡ me.last_applied + 1)
    × ((k : ℕ) (bytes : List ℕ) → snapshot ≡ some (k, bytes) → k ≡ i)
    × (rs : Rfsrv) × (get_elem? ts.srvs n ≡ some rs)
    × (rs.last_applied ≡ i)
    × Filled rs

InOrder-if :
    (n i : ℕ) (me : Rfsrv) (b : Bool) (f : Fault) (x : Read)
    → (b ≡ false → InOrder n i me x)
    → InOrder n i me (if b then fatal f else x)
InOrder-if n i me true f x h = tt
InOrder-if n i me false f x h = h refl

log_at-Filled :
    (i : ℕ) (v : Cmd) (me : Rfsrv)
    → i ≡ me.last_applied + 1
    → Filled me
    → Filled (record (log_at i v me) { last_applied = i })
log_at-Filled i v me next h j above below = elim (Bool-cases (j == i)) [
  | inl here ↦ rw here (λ e. cc)
  | inr before ↦ rw before (h j above (ground arith))
]

-- A server that takes snapshots applies in order: a command that does not end the process has the index
-- after `lastApplied`, which becomes that index; if no index up to `lastApplied` was missing,
-- none is then; and a snapshot that is handed to Raft is of the command's index.
pub applies-InOrder :
    (encode : ℕ → List Cmd → List ℕ) (decode : List ℕ → Option (ℕ × List Cmd)) (n i : ℕ)
    (me : Rfsrv) (v : Cmd) (ts : Test)
    → get_elem? ts.srvs n ≡ some me
    → Filled me
    → InOrder n i me (applier_snap_command encode decode n me i v ts)
unfolding applier_snap_command check_logs
applies-InOrder encode decode n i me v ts mine filled =
    InOrder-if n i me (not (i == me.last_applied + 1)) out_of_order _ (λ next.
      InOrder-if n i me (ltb 1 i && not (has_prev me.logs i)) out_of_order _ (λ _.
        InOrder-if n i me (any_differs i v ts.srvs) mismatch _ (λ _. (
          is_next next,
          λ k bytes e. ground arith,
          me',
          get_elem?-set_self ts.srvs n me' (get_elem?-lt ts.srvs n me mine),
          refl,
          log_at-Filled i v me (is_next next) filled,
        ))))
  where
    me' : Rfsrv
    me' = record (log_at i v me) { last_applied = i }

    is_next : not (i == me.last_applied + 1) ≡ false → i ≡ me.last_applied + 1
    is_next h = ground arith

module _ (encode : ℕ → List Cmd → List ℕ) (decode : List ℕ → Option (ℕ × List Cmd)) (i : ℕ)
    (logs : ℕ → Option Cmd)
    (decodes : decode (encode i (take_xlog logs 0 (i + 1)))
      ≡ some (i, take_xlog logs 0 (i + 1))) where
  ingest_snap-Resumes :
      (rs : Rfsrv) (index : Option ℕ)
      → ((k : ℕ) → index ≡ some k → k ≡ i)
      → Resumes i logs (ingest_snap encode decode (encode i (take_xlog logs 0 (i + 1))) index rs)
  unfolding ingest_snap
  ingest_snap-Resumes rs index fits =
      rw (ingest_snap, decodes, right_index index fits)
        (
          refl,
          refl,
          λ j. take_xlog-get logs 0 (i + 1) j ∙ ground (arith, value_at logs (zero_plus j)),
        )
    where
      zero_plus : (j : ℕ) → 0 + j ≡ j
      zero_plus j = omega arith

      right_index :
          (index : Option ℕ)
          → ((k : ℕ) → index ≡ some k → k ≡ i)
          → (elim index [ none ↦ false | some k ↦ not (k == i) ]) ≡ false
      right_index none h = refl
      right_index (some k) h = ground (arith, h k refl)

  -- If the decoder gives back what was encoded, a snapshot that a server took after applying index `i` makes no fault when another server ingests it as a
  -- message for index `i`, or when a new server reads it from its persister and it has any bytes: the
  -- server then has what the first had applied up to `i`, with the zero value where that had nothing,
  -- nothing after `i`, and `i` as its `lastApplied`.
  pub snapshot-Resumes :
      (rs : Rfsrv)
      → Resumes i logs (ingest_snap encode decode (encode i (take_xlog logs 0 (i + 1))) (some i) rs)
        × (0 < length (encode i (take_xlog logs 0 (i + 1)))
            → Resumes i logs (new_rfsrv encode decode true (encode i (take_xlog logs 0 (i + 1)))))
  unfolding new_rfsrv
  snapshot-Resumes rs = (
    ingest_snap-Resumes rs (some i) (λ k e. ground arith),
    λ some_bytes.
        rw (has_bytes some_bytes)
          (ingest_snap-Resumes (record { logs = λ j. none; last_applied = 0 }) none (λ k e. cc)),
  )
    where
      has_bytes : {m : ℕ} → 0 < m → ltb 0 m ≡ true
      has_bytes h = ground arith
