-- ===== src/MapReduce/Coordinator/Lasting.antt =====
-- Mit6824/lab1/coordinator.go: what becomes of a task over time.
use cslearning.Prelude.{ℕ, ◌≡◌, refl, ◌⊎◌, inl, inr, arith, String, ◌==◌, Bool-cases}
use cslearning.MapReduce.Messages.{MapTask, ReduceTask, Args, Reply}
use cslearning.MapReduce.Coordinator.Tasks.{
  Evolves, Evolves-refl, Evolves-trans, update_first-Evolves, map-Evolves,
}
use cslearning.MapReduce.Coordinator.{
  Coordinator, free_map, free_reduce, start_map, start_reduce, running_map, running_reduce,
  finish_map, finish_reduce, reset_map, reset_reduce, requeue_map, requeue_reduce, handout_map,
  handout_reduce, success_map, success_reduce, handle_success, handle_error, faultsearch, is_done,
  rpc_handler,
}
use cslearning.MapReduce.Coordinator.Counting.{map_completed, reduce_completed}
use cslearning.MapReduce.Coordinator.Reach.{
  Step, maps, reduces, succeeds, errs, searches, Reach, here, next,
}

-- What names a map task.
abbrev pub map_key : MapTask → String × ℕ
map_key t = (t.filename, t.task_id)

abbrev pub reduce_key : ReduceTask → ℕ
reduce_key t = t.reduce_id

abbrev pub AllEvolve : Coordinator → Coordinator → Type 0
AllEvolve c d =
    Evolves map_key map_completed c.map_tasks d.map_tasks
    × Evolves reduce_key reduce_completed c.reduce_tasks d.reduce_tasks

AllEvolve-refl : (c : Coordinator) → AllEvolve c c
AllEvolve-refl c = (
  Evolves-refl map_key map_completed c.map_tasks,
  Evolves-refl reduce_key reduce_completed c.reduce_tasks,
)

success_map-AllEvolve : (id : ℕ) (c : Coordinator) → AllEvolve c (success_map id c)
unfolding success_map
success_map-AllEvolve id c = ground (
  arith,
  AllEvolve-refl c,
  update_first-Evolves map_key map_completed (running_map id) finish_map (λ a. refl) (λ a h q. refl)
      c.map_tasks,
)

success_reduce-AllEvolve : (id : ℕ) (c : Coordinator) → AllEvolve c (success_reduce id c)
unfolding success_reduce
success_reduce-AllEvolve id c = ground (
  arith,
  AllEvolve-refl c,
  update_first-Evolves reduce_key reduce_completed (running_reduce id) finish_reduce (λ a. refl)
      (λ a h q. refl) c.reduce_tasks,
)

handle_error-AllEvolve : (args : Args) (c : Coordinator) → AllEvolve c (handle_error args c)
unfolding handle_error
handle_error-AllEvolve args c = ground (
  arith,
  AllEvolve-refl c,
  update_first-Evolves map_key map_completed (running_map args.map_id) reset_map (λ a. refl)
      (λ a h q. ground arith) c.map_tasks,
  update_first-Evolves reduce_key reduce_completed (running_reduce args.reduce_id) reset_reduce
      (λ a. refl) (λ a h q. ground arith) c.reduce_tasks,
)

Step-AllEvolve : {c d : Coordinator} → Step c d → AllEvolve c d
unfolding handout_map handout_reduce handle_success faultsearch
Step-AllEvolve {c} (maps now reply) = ground (
  arith,
  AllEvolve-refl c,
  update_first-Evolves map_key map_completed free_map (start_map now) (λ a. refl)
      (λ a h q. ground arith) c.map_tasks,
)
Step-AllEvolve {c} (reduces now reply after) = ground (
  arith,
  AllEvolve-refl c,
  update_first-Evolves reduce_key reduce_completed free_reduce (start_reduce now) (λ a. refl)
      (λ a h q. ground arith) c.reduce_tasks,
)
Step-AllEvolve {c} (succeeds args) = ground (
  arith,
  AllEvolve-refl c,
  success_map-AllEvolve args.map_id c,
  success_reduce-AllEvolve args.reduce_id c,
)
Step-AllEvolve {c} (errs args) = handle_error-AllEvolve args c
Step-AllEvolve {c} (searches now) = (
  map-Evolves map_key map_completed (requeue_map now) (λ a. ground arith) (λ a q. ground arith)
      c.map_tasks,
  map-Evolves reduce_key reduce_completed (requeue_reduce now) (λ a. ground arith)
      (λ a q. ground arith) c.reduce_tasks,
)

-- Along every run the tasks keep their number, order, file names and identifiers, and a task once
-- completed stays completed: a timeout, an error report or a second success of a worker that
-- was given up never undoes it.
pub completed_for_good : {c d : Coordinator} → Reach c d → AllEvolve c d
completed_for_good {c} here = AllEvolve-refl c
completed_for_good {c} {d} (next {d = e} r s) =
    let before = completed_for_good r in
    let last = Step-AllEvolve s in
    (
      Evolves-trans map_key map_completed c.map_tasks e.map_tasks d.map_tasks before.0 last.0,
      Evolves-trans reduce_key reduce_completed c.reduce_tasks e.reduce_tasks d.reduce_tasks
          before.1 last.1,
    )

-- `RpcHandler`, run with nothing in between, changes the coordinator by one of its methods or not
-- at all, so that all of the above covers it.
pub rpc_handler-Step :
    (now : ℕ) (c : Coordinator) (args : Args) (reply : Reply)
    → ((rpc_handler now c args reply).0 ≡ c) ⊎ Step c (rpc_handler now c args reply).0
unfolding rpc_handler
rpc_handler-Step now c args reply = elim (Bool-cases (is_done c)) [
  | inl over ↦ rw over (inl refl)
  | inr open_ ↦ rw open_ (elim (Bool-cases (args.execute_type == 1)) [
    | inl asks ↦ rw asks (elim (Bool-cases (c.n_task == c.task_num)) [
      | inl all ↦ rw all (inr (reduces now reply (ground arith)))
      | inr some_left ↦ rw some_left (inr (maps now reply))
    ])
    | inr reports ↦ rw reports (elim (Bool-cases (args.execute_type == 2)) [
      | inl well ↦ rw well (inr (succeeds args))
      | inr ill ↦ rw ill (inr (errs args))
    ])
  ])
]
