-- ===== src/MapReduce/Coordinator/Counting.antt =====
-- Mit6824/lab1/coordinator.go: the counters beside the tasks, after every method.
use cslearning.Prelude.{Option-cases, ℕ, ◌≡◌, ◌⊎◌, inl, inr, Bool, true, false, not, length, arith}
use cslearning.MapReduce.Messages.{Status, completed, MapTask, ReduceTask, Args, Reply}
use cslearning.MapReduce.Coordinator.Tasks.{
  find_first, update_first, count, length-update_first, count-update_first_up,
  count-update_first_same, count-update_first_le, count-map_same, count-map_le, count-le-length,
  length-map_lem,
}
use cslearning.MapReduce.Coordinator.{
  Coordinator, is_unassigned, free_map, free_reduce, start_map, start_reduce, handout_map,
  handout_reduce, running_map, running_reduce, finish_map, finish_reduce, reset_map, reset_reduce,
  success_map, success_reduce, handle_success, handle_error, requeue_map, requeue_reduce,
  faultsearch,
}

abbrev pub is_completed : Status → Bool
is_completed completed = true
is_completed _ = false

abbrev pub map_completed : MapTask → Bool
map_completed task = is_completed task.status

abbrev pub reduce_completed : ReduceTask → Bool
reduce_completed task = is_completed task.status

-- handed out at least once and not put back
abbrev pub reduce_begun : ReduceTask → Bool
reduce_begun task = not (is_unassigned task.status)

-- The counters are exact, and no reduce task has begun before every map task was completed.
pub record Inv (c : Coordinator) : Type 0 where
  pub maps_counted : c.task_num ≡ count map_completed c.map_tasks
  pub reduces_counted : c.reduce_num ≡ count reduce_completed c.reduce_tasks
  pub maps_all : c.n_task ≡ length c.map_tasks
  pub reduces_all : c.n_reduce ≡ length c.reduce_tasks
  pub barrier : (c.task_num ≡ c.n_task) ⊎ (count reduce_begun c.reduce_tasks ≡ 0)

pub handout_map-Inv :
    (now : ℕ) (c : Coordinator) (reply : Reply) → Inv c → Inv (handout_map now c reply).0
unfolding handout_map
handout_map-Inv now c reply v = ground (
  arith,
  length-update_first free_map (start_map now) c.map_tasks,
  count-update_first_same map_completed free_map (start_map now) c.map_tasks (λ a h. ground arith),
)

pub handout_reduce-Inv :
    (now : ℕ) (c : Coordinator) (reply : Reply)
    → c.task_num ≡ c.n_task
    → Inv c
    → Inv (handout_reduce now c reply).0
unfolding handout_reduce
handout_reduce-Inv now c reply after v = ground (
  arith,
  length-update_first free_reduce (start_reduce now) c.reduce_tasks,
  count-update_first_same reduce_completed free_reduce (start_reduce now) c.reduce_tasks
      (λ a h. ground arith),
)

success_map-Inv : (id : ℕ) (c : Coordinator) → Inv c → Inv (success_map id c)
unfolding success_map
success_map-Inv id c v = elim (Option-cases (find_first (running_map id) c.map_tasks)) [
  | inl idle ↦ ground arith
  | inr (task, found) ↦ ground (
    arith,
    length-update_first (running_map id) finish_map c.map_tasks,
    count-update_first_up map_completed (running_map id) finish_map c.map_tasks task
        (λ a h. ground arith) found,
    count-le-length map_completed (update_first (running_map id) finish_map c.map_tasks),
  )
]

success_reduce-Inv : (id : ℕ) (c : Coordinator) → Inv c → Inv (success_reduce id c)
unfolding success_reduce
success_reduce-Inv id c v = elim (Option-cases (find_first (running_reduce id) c.reduce_tasks)) [
  | inl idle ↦ ground arith
  | inr (task, found) ↦ ground (
    arith,
    length-update_first (running_reduce id) finish_reduce c.reduce_tasks,
    count-update_first_up reduce_completed (running_reduce id) finish_reduce c.reduce_tasks task
        (λ a h. ground arith) found,
    count-update_first_same reduce_begun (running_reduce id) finish_reduce c.reduce_tasks
        (λ a h. ground arith),
  )
]

pub handle_success-Inv : (args : Args) (c : Coordinator) → Inv c → Inv (handle_success args c)
unfolding handle_success
handle_success-Inv args c v =
    ground (arith, success_map-Inv args.map_id c v, success_reduce-Inv args.reduce_id c v)

pub handle_error-Inv : (args : Args) (c : Coordinator) → Inv c → Inv (handle_error args c)
unfolding handle_error
handle_error-Inv args c v = ground (
  arith,
  length-update_first (running_map args.map_id) reset_map c.map_tasks,
  length-update_first (running_reduce args.reduce_id) reset_reduce c.reduce_tasks,
  count-update_first_same map_completed (running_map args.map_id) reset_map c.map_tasks
      (λ a h. ground arith),
  count-update_first_same reduce_completed (running_reduce args.reduce_id) reset_reduce
      c.reduce_tasks (λ a h. ground arith),
  count-update_first_le reduce_begun (running_reduce args.reduce_id) reset_reduce c.reduce_tasks
      (λ a h. ground arith),
)

pub faultsearch-Inv : (now : ℕ) (c : Coordinator) → Inv c → Inv (faultsearch now c)
unfolding faultsearch
faultsearch-Inv now c v = ground (
  arith,
  length-map_lem (requeue_map now) c.map_tasks,
  length-map_lem (requeue_reduce now) c.reduce_tasks,
  count-map_same map_completed (requeue_map now) c.map_tasks (λ a. ground arith),
  count-map_same reduce_completed (requeue_reduce now) c.reduce_tasks (λ a. ground arith),
  count-map_le reduce_begun (requeue_reduce now) c.reduce_tasks (λ a h. ground arith),
)
