-- ===== src/MapReduce/Coordinator/Reach.antt =====
-- Mit6824/lab1/coordinator.go: the coordinator over any interleaving of its methods. RPC handlers
-- run side by side with one another and with `Faultsearch`, and each holds the mutex only inside the
-- methods they call.
use cslearning.Prelude.{
  ℕ, zero, suc, ◌+◌, ◌≡◌, refl, ◌↔◌, true, List, [], ◌∷◌, length, arith, String,
}
use cslearning.MapReduce.Messages.{Args, Reply}
use cslearning.MapReduce.Coordinator.Tasks.{count, Every, count_full, full_count}
use cslearning.MapReduce.Coordinator.{
  Coordinator, handout_map, handout_reduce, handle_success, handle_error, faultsearch, is_done,
  rpc_handler, map_tasks_from, reduce_tasks_from, make_coordinator,
}
use cslearning.MapReduce.Coordinator.Counting.{
  map_completed, reduce_completed, reduce_begun, Inv, handout_map-Inv, handout_reduce-Inv,
  handle_success-Inv, handle_error-Inv, faultsearch-Inv,
}

-- A handler reads the counters before it hands out a task. A map task may be handed out on an old
-- reading; a reduce task only after a reading at which every map task was counted, and the
-- count never falls (`completed_for_good`).
pub data Step (c : Coordinator) : Coordinator → Type 0 where
  maps : (now : ℕ) (reply : Reply) → Step c (handout_map now c reply).0
  reduces :
      (now : ℕ) (reply : Reply) → c.task_num ≡ c.n_task → Step c (handout_reduce now c reply).0
  succeeds : (args : Args) → Step c (handle_success args c)
  errs : (args : Args) → Step c (handle_error args c)
  searches : (now : ℕ) → Step c (faultsearch now c)

pub data Reach (c : Coordinator) : Coordinator → Type 0 where
  here : Reach c c
  next : {d e : Coordinator} → Reach c d → Step d e → Reach c e

Step-Inv : {c d : Coordinator} → Step c d → Inv c → Inv d
Step-Inv {c} (maps now reply) v = handout_map-Inv now c reply v
Step-Inv {c} (reduces now reply after) v = handout_reduce-Inv now c reply after v
Step-Inv {c} (succeeds args) v = handle_success-Inv args c v
Step-Inv {c} (errs args) v = handle_error-Inv args c v
Step-Inv {c} (searches now) v = faultsearch-Inv now c v

map_tasks_from-new :
    (i : ℕ) (files : List String)
    → (length (map_tasks_from i files) ≡ length files)
      × (count map_completed (map_tasks_from i files) ≡ 0)
unfolding map_tasks_from
map_tasks_from-new i [] = (refl, refl)
map_tasks_from-new i (file ∷ files) = ground (arith, map_tasks_from-new (i + 1) files)

reduce_tasks_from-new :
    (i n : ℕ)
    → (length (reduce_tasks_from i n) ≡ n)
      × (count reduce_completed (reduce_tasks_from i n) ≡ 0)
      × (count reduce_begun (reduce_tasks_from i n) ≡ 0)
unfolding reduce_tasks_from
reduce_tasks_from-new i zero = (refl, refl, refl)
reduce_tasks_from-new i (suc n) = ground (arith, reduce_tasks_from-new (i + 1) n)

make_coordinator-Inv : (files : List String) (n : ℕ) → Inv (make_coordinator files n)
unfolding make_coordinator
make_coordinator-Inv files n = ground (arith, map_tasks_from-new 0 files, reduce_tasks_from-new 0 n)

pub Reach-Inv : {c d : Coordinator} → Inv c → Reach c d → Inv d
Reach-Inv v here = v
Reach-Inv v (next r s) = Step-Inv s (Reach-Inv v r)

-- Whatever the order of requests, reports, errors and timeouts, the coordinator's counters are its
-- numbers of completed map and reduce tasks, and either every map task is completed or no reduce task has begun.
pub counters_exact :
    (files : List String) (n : ℕ) {c : Coordinator} → Reach (make_coordinator files n) c → Inv c
counters_exact files n r = Reach-Inv (make_coordinator-Inv files n) r

-- `Done` answers true exactly when every map task and every reduce task is completed, in every
-- state that the coordinator reaches.
pub done_iff :
    (files : List String) (n : ℕ) {c : Coordinator}
    → Reach (make_coordinator files n) c
    → (is_done c ≡ true) ↔ (
        Every (λ t. map_completed t ≡ true) c.map_tasks
        × Every (λ t. reduce_completed t ≡ true) c.reduce_tasks)
unfolding is_done
done_iff files n {c} r =
    let v = counters_exact files n r in
    (
      λ h. (
        count_full map_completed c.map_tasks (ground arith),
        count_full reduce_completed c.reduce_tasks (ground arith),
      ),
      λ (full : Every (λ t. map_completed t ≡ true) c.map_tasks
            × Every (λ t. reduce_completed t ≡ true) c.reduce_tasks).
          ground (
            arith,
            full_count map_completed c.map_tasks full.0,
            full_count reduce_completed c.reduce_tasks full.1,
          ),
    )

-- A reduce task is handed out only when every map task is completed: in every reached state, a
-- reply that comes to `RpcHandler` with flag 0 and leaves with flag 2 finds them all completed.
pub reduce_after_maps :
    (files : List String) (n : ℕ) {c : Coordinator}
    → Reach (make_coordinator files n) c
    → (now : ℕ) (args : Args) (reply : Reply) → reply.flag ≡ 0
    → (rpc_handler now c args reply).1.flag ≡ 2
    → Every (λ t. map_completed t ≡ true) c.map_tasks
unfolding rpc_handler handout_map
reduce_after_maps files n {c} r now args reply fresh h =
    let v = counters_exact files n r in count_full map_completed c.map_tasks (ground arith)
