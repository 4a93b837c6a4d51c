-- ===== src/Raft/Service.antt =====
-- lab3-D/server.go, with `checkLogs` and `nCommitted` of lab3-D/test.go: the service that the lab
-- puts on each peer. It keeps what was applied, checks it against the other servers, and takes
-- snapshots. It ends the process (`log.Fatalf`) at the first fault, so nothing after a fault is
-- modelled. A server's goroutine works on the server that `ts.srvs` has under its number.
pub mod Agreement
pub mod Committed
pub mod Leaders
pub mod Resume
use cslearning.Prelude.{
  ℕ, zero, suc, ◌+◌, ◌%◌, Bool, true, false, Option, none, some, List, [], ◌∷◌, ltb, ◌==◌, ◌&&◌,
  ◌||◌, not, if◌then◌else◌, length, get_elem?, set, max, str_eq,
}
use cslearning.Raft.State.{Cmd, nil, text, command}
use cslearning.Raft.Commit.{ApplyMsg, command_msg, snapshot_msg}

-- Go's `==` on the values of the log
abbrev pub cmd_eq : Cmd → Cmd → Bool
cmd_eq nil nil = true
cmd_eq (text s) (text t) = str_eq s t
cmd_eq (command m) (command n) = m == n
cmd_eq _ _ = false

pub record Rfsrv : Type 0 where
  pub logs : ℕ → Option Cmd
  pub last_applied : ℕ

pub record Test : Type 0 where
  pub srvs : List Rfsrv
  pub max_index : ℕ

-- why a process ends: "apply out of order", another server's value at the index, a snapshot that
-- cannot be decoded, and one of another index than its message
pub data Fault : Type 0 where
  out_of_order mismatch bad_snapshot wrong_index no_server : Fault

-- `oldok && old != v`
abbrev pub differs : ℕ → Cmd → Rfsrv → Bool
differs i v rs = elim (rs.logs i) [ none ↦ false | some old ↦ not (cmd_eq old v) ]

abbrev pub any_differs : ℕ → Cmd → List Rfsrv → Bool
any_differs i v [] = false
any_differs i v (rs ∷ srvs) = differs i v rs || any_differs i v srvs

-- `_, prevok := me.logs[m.CommandIndex-1]`
abbrev pub has_prev : (ℕ → Option Cmd) → ℕ → Bool
has_prev logs zero = false
has_prev logs (suc i) = elim (logs i) [ none ↦ false | some _ ↦ true ]

abbrev pub log_at : ℕ → Cmd → Rfsrv → Rfsrv
log_at i v rs = record rs { logs = λ j. if j == i then some v else rs.logs j }

-- `checkLogs` for server `n`, which is `me`: the new state, whether some server has another value,
-- and `prevok`.
unfoldable pub check_logs : ℕ → Rfsrv → ℕ → Cmd → Test → Test × (Bool × Bool)
check_logs n me i v ts = (
  record { srvs = set ts.srvs n (log_at i v me); max_index = max ts.max_index i },
  (any_differs i v ts.srvs, has_prev me.logs i),
)

-- What a message comes to: a new state, with the snapshot given to Raft, or the end of the process.
pub data Read : Type 0 where
  goes : Test → Option (ℕ × List ℕ) → Read
  fatal : Fault → Read

-- A command as `applier` takes it, where there are no snapshots.
unfoldable pub applier_command : ℕ → Rfsrv → ℕ → Cmd → Test → Read
unfolding check_logs
applier_command n me i v ts =
    let (ts', (other, prevok)) = check_logs n me i v ts in
    if ltb 1 i && not prevok
    then fatal out_of_order
    else if other
    then fatal mismatch
    else goes ts' none

unfoldable pub applier : ℕ → ApplyMsg → Test → Read
unfolding applier_command
applier n (snapshot_msg snapshot term i) ts = goes ts none
applier n (command_msg v i) ts = elim (get_elem? ts.srvs n) [
  | none ↦ fatal no_server
  | some me ↦ applier_command n me i v ts
]

-- The loop of `nCommitted`, from `count` and `cmd` on: `none` where it fails the test for values that
-- do not match.
unfoldable pub n_committed_from : ℕ → ℕ → Cmd → List Rfsrv → Option (ℕ × Cmd)
n_committed_from i count cmd [] = some (count, cmd)
n_committed_from i count cmd (rs ∷ srvs) = elim (rs.logs i) [
  | none ↦ n_committed_from i count cmd srvs
  | some v ↦
      if ltb 0 count && not (cmd_eq cmd v) then none else n_committed_from i (count + 1) v srvs
]

-- `nCommitted`, while no server has met a fault
unfoldable pub n_committed : ℕ → List Rfsrv → Option (ℕ × Cmd)
unfolding n_committed_from
n_committed i srvs = n_committed_from i 0 nil srvs

-- `SnapShotInterval`
abbrev pub snapshot_interval : ℕ
snapshot_interval = 10

-- `rs.logs[j]` for `j` up to `m.CommandIndex`: the zero value where there is none
abbrev pub value_or_nil : Option Cmd → Cmd
value_or_nil none = nil
value_or_nil (some v) = v

-- The loop that fills `xlog` from `j` on, `n` values.
unfoldable pub take_xlog : (ℕ → Option Cmd) → ℕ → ℕ → List Cmd
take_xlog logs j zero = []
take_xlog logs j (suc n) = value_or_nil (logs j) ∷ take_xlog logs (j + 1) n

-- `encode` and `decode` are what `labgob` makes of the two values of a snapshot, and back.
module _ (encode : ℕ → List Cmd → List ℕ) (decode : List ℕ → Option (ℕ × List Cmd)) where
  -- `ingestSnap`; no index stands for -1.
  unfoldable pub ingest_snap : List ℕ → Option ℕ → Rfsrv → Rfsrv × Option Fault
  ingest_snap snapshot index rs = elim (decode snapshot) [
    | none ↦ (rs, some bad_snapshot)
    | some (last, xlog) ↦
        if elim index [ none ↦ false | some i ↦ not (i == last) ]
        then (rs, some wrong_index)
        else (record { logs = get_elem? xlog; last_applied = last }, none)
  ]

  -- What `newRfsrv` makes of the persister's snapshot; without snapshots it is not read.
  unfoldable pub new_rfsrv : (snapshots : Bool) → List ℕ → Rfsrv × Option Fault
  unfolding ingest_snap
  new_rfsrv snapshots stored =
      let rs : Rfsrv = record { logs = λ j. none; last_applied = 0 } in
      if snapshots && ltb 0 (length stored) then ingest_snap stored none rs else (rs, none)

  -- A command as `applierSnap` takes it.
  unfoldable pub applier_snap_command : ℕ → Rfsrv → ℕ → Cmd → Test → Read
  unfolding check_logs take_xlog
  applier_snap_command n me i v ts =
      let (ts', (other, prevok)) = check_logs n me i v ts in
      let me' = record (log_at i v me) { last_applied = i } in
      if not (i == me.last_applied + 1)
      then fatal out_of_order
      else if ltb 1 i && not prevok
      then fatal out_of_order
      else if other
      then fatal mismatch
      else goes (record ts' { srvs = set ts.srvs n me' })
          (if (i + 1) % snapshot_interval == 0
            then some (i, encode i (take_xlog me'.logs 0 (i + 1)))
            else none)

  unfoldable pub applier_snap : ℕ → ApplyMsg → Test → Read
  unfolding ingest_snap applier_snap_command
  applier_snap n msg ts = elim (get_elem? ts.srvs n) [
    | none ↦ fatal no_server
    | some me ↦ elim msg [
      | command_msg v i ↦ applier_snap_command n me i v ts
      | snapshot_msg snapshot term i ↦
          let (me', fault) = ingest_snap snapshot (some i) me in
          elim fault [
            | none ↦ goes (record ts { srvs = set ts.srvs n me' }) none
            | some f ↦ fatal f
          ]
    ]
  ]
