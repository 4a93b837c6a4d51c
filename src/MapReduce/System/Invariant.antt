-- ===== src/MapReduce/System/Invariant.antt =====
-- Mit6824/lab1: what holds of a job at all times: of the tasks, of what workers have got and sent,
-- and of the disk.
use mathlib.Core.List.{Memᴰ}
use cslearning.Prelude.{ℕ, ◌<◌, ◌≡◌, true, some, List, length, get_elem?}
use cslearning.MapReduce.Messages.{Args, Reply, MapTask, ReduceTask}
use cslearning.MapReduce.Coordinator.{make_coordinator}
use cslearning.MapReduce.Coordinator.Tasks.{Every}
use cslearning.MapReduce.Coordinator.Counting.{map_completed, reduce_completed}
use cslearning.MapReduce.Coordinator.Reach.{Reach}
use cslearning.MapReduce.Worker.{Bytes, KeyValue, Disk}
use cslearning.MapReduce.Worker.Grouping.{values_of, lines_of, reduced}
use cslearning.MapReduce.Worker.Partition.{bucket}
use cslearning.MapReduce.Worker.Job.{contents}
use cslearning.MapReduce.System.{Job, System, pairs}

-- what the intermediate file of map task `i` for reduce task `j` is to hold
abbrev pub part : Job → (i j : ℕ) → List KeyValue
part job i j = bucket job.written job.n_reduce j (pairs job i)

abbrev pub Filled : Job → Disk → (i j : ℕ) → Type 0
Filled job d i j = d.mid i j ≡ some (part job i j)

-- the pairs of reduce task `j`
abbrev pub share : Job → ℕ → List KeyValue
share job j = contents (λ i. part job i j) 0 (length job.files)

-- The output of reduce task `j` is there.
abbrev pub Made : Job → Disk → ℕ → Type 0
Made job d j =
    (lines : List (Bytes × Bytes)) × (d.out j ≡ some lines)
    × ((k : Bytes)
        → lines_of k lines ≡ reduced job.reducef k (values_of k (job.sort (share job j))))

-- Every file that is there stays there.
pub record Keeps (job : Job) (d d' : Disk) : Type 0 where
  pub mids : (i j : ℕ) → Filled job d i j → Filled job d' i j
  pub outs : (j : ℕ) → Made job d j → Made job d' j

pub record GoodReply (job : Job) (d : Disk) (reply : Reply) : Type 0 where
  pub of_map :
      reply.flag ≡ 1
      → (reply.n_reduce ≡ job.n_reduce) × (get_elem? job.files reply.map_id ≡ some reply.filename)
  pub of_reduce :
      reply.flag ≡ 2
      → (reply.n_task ≡ length job.files)
        × ((i : ℕ) → i < length job.files → Filled job d i reply.reduce_id)

pub record GoodArgs (job : Job) (d : Disk) (args : Args) : Type 0 where
  pub of_map : args.flag ≡ 1 → (j : ℕ) → j < job.n_reduce → Filled job d args.map_id j
  pub of_reduce : args.flag ≡ 2 → Made job d args.reduce_id

-- A completed task has left its files.
abbrev pub MapDone : Job → Disk → MapTask → Type 0
MapDone job d t = map_completed t ≡ true → (j : ℕ) → j < job.n_reduce → Filled job d t.task_id j

abbrev pub ReduceDone : Job → Disk → ReduceTask → Type 0
ReduceDone job d t = reduce_completed t ≡ true → Made job d t.reduce_id

pub record Inv (job : Job) (s : System) : Type 0 where
  pub run : Reach (make_coordinator job.files job.n_reduce) s.coordinator
  pub held : (reply : Reply) → Memᴰ reply s.held → GoodReply job s.disk reply
  pub reports :
      (args : Args) → Memᴰ args s.reports → args.execute_type ≡ 2 → GoodArgs job s.disk args
  pub mapped : Every (MapDone job s.disk) s.coordinator.map_tasks
  pub made : Every (ReduceDone job s.disk) s.coordinator.reduce_tasks
