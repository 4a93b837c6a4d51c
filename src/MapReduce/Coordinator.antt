-- ===== src/MapReduce/Coordinator.antt =====
-- Mit6824/lab1/coordinator.go: the coordinator. Each method holds the mutex throughout, so it is
-- one step; `time.Now()` is an argument. A `for` loop that changes the first task that passes a
-- test and breaks is `find_first` for what it reads and `update_first` for what it writes.
pub mod Tasks
pub mod Counting
pub mod Reach
pub mod Lasting
use cslearning.Prelude.{
  ℕ, zero, suc, ◌+◌, ◌-◌, Bool, true, false, String, Option, none, some, List, [], ◌∷◌, ◌++◌, map,
  ltb, ◌==◌, ◌&&◌, if◌then◌else◌, length,
}
use cslearning.MapReduce.Messages.{
  Status, unassigned, running, completed, MapTask, ReduceTask, Args, Reply,
}
use Tasks.{find_first, update_first}

pub record Coordinator : Type 0 where
  pub map_tasks : List MapTask
  pub reduce_tasks : List ReduceTask
  pub task_num : ℕ
  pub reduce_num : ℕ
  pub n_reduce : ℕ
  pub n_task : ℕ

abbrev pub is_unassigned : Status → Bool
is_unassigned unassigned = true
is_unassigned _ = false

abbrev pub is_running : Status → Bool
is_running running = true
is_running _ = false

abbrev pub free_map : MapTask → Bool
free_map task = is_unassigned task.status

abbrev pub free_reduce : ReduceTask → Bool
free_reduce task = is_unassigned task.status

abbrev pub start_map : ℕ → MapTask → MapTask
start_map now task = record task { start_time = now; status = running }

abbrev pub start_reduce : ℕ → ReduceTask → ReduceTask
start_reduce now task = record task { start_time = now; status = running }

unfoldable pub handout_map : ℕ → Coordinator → Reply → Coordinator × Reply
handout_map now c reply = elim (find_first free_map c.map_tasks) [
  | none ↦ (c, reply)
  | some task ↦ (
    record c { map_tasks = update_first free_map (start_map now) c.map_tasks },
    record reply {
      filename = task.filename;
      flag = 1;
      n_reduce = c.n_reduce;
      n_task = c.n_task;
      map_id = task.task_id;
    },
  )
]

unfoldable pub handout_reduce : ℕ → Coordinator → Reply → Coordinator × Reply
handout_reduce now c reply = elim (find_first free_reduce c.reduce_tasks) [
  | none ↦ (c, reply)
  | some task ↦ (
    record c { reduce_tasks = update_first free_reduce (start_reduce now) c.reduce_tasks },
    record reply { flag = 2; n_reduce = c.n_reduce; n_task = c.n_task; reduce_id = task.reduce_id },
  )
]

-- `task.status == 1 && task.taskId == args.MapId`
abbrev pub running_map : ℕ → MapTask → Bool
running_map id task = is_running task.status && task.task_id == id

abbrev pub running_reduce : ℕ → ReduceTask → Bool
running_reduce id task = is_running task.status && task.reduce_id == id

abbrev pub finish_map : MapTask → MapTask
finish_map task = record task { status = completed }

abbrev pub finish_reduce : ReduceTask → ReduceTask
finish_reduce task = record task { status = completed }

abbrev pub reset_map : MapTask → MapTask
reset_map task = record task { status = unassigned; start_time = 0 }

abbrev pub reset_reduce : ReduceTask → ReduceTask
reset_reduce task = record task { status = unassigned; start_time = 0 }

-- The two branches of `HandleSuccess`.
unfoldable pub success_map : ℕ → Coordinator → Coordinator
success_map id c = elim (find_first (running_map id) c.map_tasks) [
  | none ↦ c
  | some _ ↦ record c {
    map_tasks = update_first (running_map id) finish_map c.map_tasks;
    task_num = c.task_num + 1;
  }
]

unfoldable pub success_reduce : ℕ → Coordinator → Coordinator
success_reduce id c = elim (find_first (running_reduce id) c.reduce_tasks) [
  | none ↦ c
  | some _ ↦ record c {
    reduce_tasks = update_first (running_reduce id) finish_reduce c.reduce_tasks;
    reduce_num = c.reduce_num + 1;
  }
]

unfoldable pub handle_success : Args → Coordinator → Coordinator
handle_success args c =
    if args.flag == 1
    then success_map args.map_id c
    else if args.flag == 2
    then success_reduce args.reduce_id c
    else c

unfoldable pub handle_error : Args → Coordinator → Coordinator
handle_error args c =
    if args.flag == 1
    then record c { map_tasks = update_first (running_map args.map_id) reset_map c.map_tasks }
    else if args.flag == 2
    then record c {
      reduce_tasks = update_first (running_reduce args.reduce_id) reset_reduce c.reduce_tasks;
    }
    else c

-- `10*time.Second`
abbrev pub task_timeout : ℕ
task_timeout = 10_000_000_000

abbrev pub is_late : ℕ → Status → ℕ → Bool
is_late now status start_time = is_running status && ltb task_timeout (now - start_time)

abbrev pub requeue_map : ℕ → MapTask → MapTask
requeue_map now task = if is_late now task.status task.start_time then reset_map task else task

abbrev pub requeue_reduce : ℕ → ReduceTask → ReduceTask
requeue_reduce now task =
    if is_late now task.status task.start_time then reset_reduce task else task

-- One round of the loop of `Faultsearch`.
unfoldable pub faultsearch : ℕ → Coordinator → Coordinator
faultsearch now c = record c {
  map_tasks = map (requeue_map now) c.map_tasks;
  reduce_tasks = map (requeue_reduce now) c.reduce_tasks;
}

unfoldable pub is_done : Coordinator → Bool
is_done c = c.task_num == c.n_task && c.reduce_num == c.n_reduce

-- The handler with nothing in between; `Coordinator/Reach.antt` lets other calls come between.
unfoldable pub rpc_handler : ℕ → Coordinator → Args → Reply → Coordinator × Reply
rpc_handler now c args reply =
    if is_done c
    then (c, record reply { flag = 3; is_done = true })
    else if args.execute_type == 1
    then (if c.n_task == c.task_num then handout_reduce now c reply else handout_map now c reply)
    else if args.execute_type == 2
    then (handle_success args c, reply)
    else (handle_error args c, record reply { flag = 4 })

unfoldable pub map_tasks_from : ℕ → List String → List MapTask
map_tasks_from i [] = []
map_tasks_from i (file ∷ files) =
    record { filename = file; status = unassigned; start_time = 0; task_id = i }
    ∷ map_tasks_from (i + 1) files

-- `for i := 0; i < nReduce; i++`, over the rounds left
unfoldable pub reduce_tasks_from : ℕ → ℕ → List ReduceTask
reduce_tasks_from i zero = []
reduce_tasks_from i (suc n) =
    record { status = unassigned; start_time = 0; reduce_id = i } ∷ reduce_tasks_from (i + 1) n

unfoldable pub make_coordinator : List String → ℕ → Coordinator
unfolding map_tasks_from reduce_tasks_from
make_coordinator files n_reduce = record {
  map_tasks = map_tasks_from 0 files;
  reduce_tasks = reduce_tasks_from 0 n_reduce;
  task_num = 0;
  reduce_num = 0;
  n_task = length files;
  n_reduce = n_reduce;
}
