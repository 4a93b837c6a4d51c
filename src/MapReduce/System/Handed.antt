-- ===== src/MapReduce/System/Handed.antt =====
-- Mit6824/lab1/coordinator.go: what it means to hand out a task, case by case.
use cslearning.Prelude.{ℕ, ◌≡◌, refl, ◌⊎◌, inl, inr, some, Option-cases}
use cslearning.MapReduce.Messages.{Reply, MapTask, ReduceTask}
use cslearning.MapReduce.Coordinator.Tasks.{find_first, update_first}
use cslearning.MapReduce.Coordinator.{
  Coordinator, handout_map, handout_reduce, free_map, free_reduce, start_map, start_reduce,
}

pub handout_map-cases :
    (now : ℕ) (c : Coordinator) (reply : Reply)
    → (handout_map now c reply ≡ (c, reply))
      ⊎ ((t : MapTask) × (find_first free_map c.map_tasks ≡ some t)
          × (handout_map now c reply ≡ (
            record c { map_tasks = update_first free_map (start_map now) c.map_tasks },
            record reply {
              filename = t.filename;
              flag = 1;
              n_reduce = c.n_reduce;
              n_task = c.n_task;
              map_id = t.task_id;
            },
          )))
unfolding handout_map
handout_map-cases now c reply = elim (Option-cases (find_first free_map c.map_tasks)) [
  | inl idle ↦ inl (rw (idle, handout_map) refl)
  | inr (t, found) ↦ inr (t, found, rw (found, handout_map) refl)
]

pub handout_reduce-cases :
    (now : ℕ) (c : Coordinator) (reply : Reply)
    → (handout_reduce now c reply ≡ (c, reply))
      ⊎ ((t : ReduceTask) × (find_first free_reduce c.reduce_tasks ≡ some t)
          × (handout_reduce now c reply ≡ (
            record c { reduce_tasks = update_first free_reduce (start_reduce now) c.reduce_tasks },
            record reply {
              flag = 2;
              n_reduce = c.n_reduce;
              n_task = c.n_task;
              reduce_id = t.reduce_id;
            },
          )))
unfolding handout_reduce
handout_reduce-cases now c reply = elim (Option-cases (find_first free_reduce c.reduce_tasks)) [
  | inl idle ↦ inl (rw (idle, handout_reduce) refl)
  | inr (t, found) ↦ inr (t, found, rw (found, handout_reduce) refl)
]
