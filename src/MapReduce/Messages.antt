-- ===== src/MapReduce/Messages.antt =====
-- Mit6824/lab1/rpc.go: the tasks that the coordinator tracks, and what workers and it exchange.
-- A time is a number of nanoseconds; 0 stands for `time.Time{}`.
use cslearning.Prelude.{ℕ, Bool, String}

-- `status int`: 0, 1 and 2
pub data Status : Type 0 where
  unassigned running completed : Status

pub record MapTask : Type 0 where
  pub filename : String
  pub status : Status
  pub start_time : ℕ
  pub task_id : ℕ

pub record ReduceTask : Type 0 where
  pub status : Status
  pub start_time : ℕ
  pub reduce_id : ℕ

pub record Args : Type 0 where
  pub execute_type : ℕ
  pub flag : ℕ
  pub map_id : ℕ
  pub reduce_id : ℕ

unfoldable pub failed : Args → Args
failed args = record args { execute_type = 3 }

unfoldable pub wanned : Args → Args
wanned args = record args { execute_type = 1 }

unfoldable pub succeed : Args → Args
succeed args = record args { execute_type = 2 }

pub record Reply : Type 0 where
  pub filename : String
  pub map_id : ℕ
  pub reduce_id : ℕ
  pub n_reduce : ℕ
  pub n_task : ℕ
  pub flag : ℕ
  pub is_done : Bool
