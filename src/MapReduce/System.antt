-- ===== src/MapReduce/System.antt =====
-- Mit6824/lab1: a whole job, the coordinator with its workers and their disk. A worker may die at
-- any point, be slow, or be given up; requests and reports may be lost, and reports come in any order.
pub mod Output
pub mod Mapping
pub mod Filling
pub mod Reducing
pub mod Listed
pub mod Invariant
pub mod Handed
pub mod Coordinated
pub mod Reported
pub mod Results
pub mod Worked
pub mod Whole
use mathlib.Core.List.{Memᴰ}
use cslearning.Prelude.{
  ℕ, ◌≡◌, ◌⊎◌, Bool, true, false, String, none, some, List, [], ◌∷◌, get_elem?, take, replicate,
  Run, done,
}
use cslearning.MapReduce.Messages.{Args, Reply, wanned}
use cslearning.MapReduce.Coordinator.{
  Coordinator, handout_map, handout_reduce, handle_success, handle_error, faultsearch,
  make_coordinator,
}
use cslearning.MapReduce.Worker.{Bytes, KeyValue, Disk, MapIo, emit, rename_all, work}

-- What a job is given: the program's two functions, `sort.Sort(ByKey(...))`, the contents of the
-- input files, what `encoding/json` reads back of what it has
-- written of a pair, the names of the files, and the number of reduce tasks.
pub record Job : Type 0 where
  pub mapf : String → Bytes → List KeyValue
  pub reducef : Bytes → List Bytes → Bytes
  pub sort : List KeyValue → List KeyValue
  pub inputs : String → Bytes
  pub written : KeyValue → KeyValue
  pub files : List String
  pub n_reduce : ℕ

-- the pairs that `mapf` makes of the `i`th input file
abbrev pub pairs : Job → ℕ → List KeyValue
pairs job i = elim (get_elem? job.files i) [
  | none ↦ []
  | some name ↦ job.mapf name (job.inputs name)
]

-- `held` are the replies that workers have got, `reports` the arguments that workers have sent
-- after their work.
pub record System : Type 0 where
  pub coordinator : Coordinator
  pub disk : Disk
  pub held : List Reply
  pub reports : List Args

-- `Args{}` and `Reply{}`
abbrev pub blank_args : Args
blank_args = record { execute_type = 0; flag = 0; map_id = 0; reduce_id = 0 }

abbrev pub blank_reply : Reply
blank_reply = record {
  filename = "";
  map_id = 0;
  reduce_id = 0;
  n_reduce = 0;
  n_task = 0;
  flag = 0;
  is_done = false;
}

-- A job that starts on any disk, with files of earlier jobs on it perhaps.
abbrev pub begin : Job → Disk → System
begin job d = record {
  coordinator = make_coordinator job.files job.n_reduce;
  disk = d;
  held = [];
  reports = [];
}

pub data Move (job : Job) (s : System) : System → Type 0 where
  maps :
      (now : ℕ)
      → Move job s (record s {
        coordinator = (handout_map now s.coordinator blank_reply).0;
        held = (handout_map now s.coordinator blank_reply).1 ∷ s.held;
      })
  reduces :
      (now : ℕ)
      → s.coordinator.task_num ≡ s.coordinator.n_task
      → Move job s (record s {
        coordinator = (handout_reduce now s.coordinator blank_reply).0;
        held = (handout_reduce now s.coordinator blank_reply).1 ∷ s.held;
      })
  -- A worker does its task, where the input file has its content if it can be read, and the
  -- encoder fails or writes what it always does.
  works :
      (reply : Reply) (io : MapIo) (calls : Bool × Bool) (args : Args) (d : Disk)
      → Memᴰ reply s.held
      → ((kv : KeyValue) → (io.encodes kv ≡ none) ⊎ (io.encodes kv ≡ some (job.written kv)))
      → ((content : Bytes) → io.content ≡ some content → content ≡ job.inputs reply.filename)
      → work job.mapf job.reducef job.sort io calls reply (wanned blank_args) s.disk
        ≡ done (args, d)
      → Move job s (record s { disk = d; reports = args ∷ s.reports })
  -- A worker dies, or waits, after it has renamed some of the files of its map task.
  stops :
      (reply : Reply) (k : ℕ) (made : List (List KeyValue)) (d : Disk)
      → Memᴰ reply s.held
      → reply.flag ≡ 1
      → emit
          (λ kv. some (job.written kv))
          reply.n_reduce
          (job.mapf reply.filename (job.inputs reply.filename))
          (replicate reply.n_reduce [])
        ≡ done (some made)
      → rename_all (λ i. true) reply.map_id 0 (take k made) s.disk ≡ done d
      → Move job s (record s { disk = d })
  succeeds :
      (args : Args)
      → Memᴰ args s.reports
      → args.execute_type ≡ 2
      → Move job s (record s { coordinator = handle_success args s.coordinator })
  errs : (args : Args) → Move job s (record s { coordinator = handle_error args s.coordinator })
  searches : (now : ℕ) → Move job s (record s { coordinator = faultsearch now s.coordinator })

pub data Course (job : Job) (s : System) : System → Type 0 where
  here : Course job s s
  next : {t u : System} → Course job s t → Move job t u → Course job s u
