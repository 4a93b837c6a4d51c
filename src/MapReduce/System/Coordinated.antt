-- ===== src/MapReduce/System/Coordinated.antt =====
-- Mit6824/lab1/coordinator.go: tasks that are handed out in a job.
use mathlib.Core.List.{Memᴰ}
use cslearning.Prelude.{ℕ, ◌<◌, ◌≡◌, sym, subst, ◌∙◌, inl, inr, true, false, ◌∷◌, length, arith}
use cslearning.MapReduce.Messages.{Reply}
use cslearning.MapReduce.Coordinator.Tasks.{Every, count_full}
use cslearning.MapReduce.Coordinator.{
  Coordinator, make_coordinator, handout_map, handout_reduce, free_map, free_reduce, start_map,
  start_reduce,
}
use cslearning.MapReduce.Coordinator.Counting.{map_completed}
use cslearning.MapReduce.Coordinator.Reach.{Reach, next, maps, reduces, counters_exact}
use cslearning.MapReduce.System.{Job, System, blank_reply}
use cslearning.MapReduce.System.Listed.{
  Every-update_first, Every-both, handed_map, handed_reduce, each_map, sizes,
}
use cslearning.MapReduce.System.Invariant.{Filled, MapDone, ReduceDone, GoodReply, Inv}
use cslearning.MapReduce.System.Handed.{handout_map-cases, handout_reduce-cases}

module _ (job : Job) (s : System) (inv : Inv job s) where
  abbrev c : Coordinator
  c = s.coordinator

  changed :
      (d : Coordinator) (reply : Reply)
      → Reach (make_coordinator job.files job.n_reduce) d
      → Every (MapDone job s.disk) d.map_tasks
      → Every (ReduceDone job s.disk) d.reduce_tasks
      → GoodReply job s.disk reply
      → Inv job (record s { coordinator = d; held = reply ∷ s.held })
  changed d reply run mapped made good = record {
    run = run;
    held = λ r m. elim m [
      | Memᴰ.head e ↦ subst (GoodReply job s.disk) (sym e) good
      | Memᴰ.tail m' ↦ inv.held r m'
    ];
    reports = inv.reports;
    mapped = mapped;
    made = made;
  }

  idle-GoodReply : GoodReply job s.disk blank_reply
  idle-GoodReply = record {
    of_map = λ h. absurd (omega (arith, h));
    of_reduce = λ h. absurd (omega (arith, h));
  }

  pub maps-Inv :
      (now : ℕ)
      → Inv job (record s {
        coordinator = (handout_map now c blank_reply).0;
        held = (handout_map now c blank_reply).1 ∷ s.held;
      })
  maps-Inv now = elim (handout_map-cases now c blank_reply) [
    | inl e ↦
        subst After (sym e) (λ run. changed c blank_reply run inv.mapped inv.made idle-GoodReply)
          (next inv.run (maps now blank_reply))
    | inr (t, found, e) ↦
        subst After (sym e)
          (λ run.
            changed _ _ run
              (Every-update_first (MapDone job s.disk) free_map (start_map now) c.map_tasks
                (λ a h p q. absurd (no q)) inv.mapped)
              inv.made
              (record {
                of_map = λ h. (
                  (sizes job.files job.n_reduce inv.run).1,
                  handed_map job.files job.n_reduce inv.run free_map t found,
                );
                of_reduce = λ h. absurd (omega (arith, h));
              }))
          (next inv.run (maps now blank_reply))
  ]
    where
      After : Coordinator × Reply → Type 0
      After x =
          Reach (make_coordinator job.files job.n_reduce) x.0
          → Inv job (record s { coordinator = x.0; held = x.1 ∷ s.held })

      no : false ≡ true → ⊥
      no q = cc

  -- Once every map task is counted, all intermediate files are there.
  files_ready :
      c.task_num ≡ c.n_task
      → (i : ℕ) → i < length job.files
      → (j : ℕ) → j < job.n_reduce
      → Filled job s.disk i j
  files_ready after =
      let v = counters_exact job.files job.n_reduce inv.run in
      each_map job.files job.n_reduce inv.run
        (λ i. (j : ℕ) → j < job.n_reduce → Filled job s.disk i j)
        (Every-both (λ t. map_completed t ≡ true)
          (λ t. (j : ℕ) → j < job.n_reduce → Filled job s.disk t.task_id j) c.map_tasks inv.mapped
          (count_full map_completed c.map_tasks (sym v.maps_counted ∙ after ∙ v.maps_all)))

  pub reduces-Inv :
      (now : ℕ)
      → c.task_num ≡ c.n_task
      → Inv job (record s {
        coordinator = (handout_reduce now c blank_reply).0;
        held = (handout_reduce now c blank_reply).1 ∷ s.held;
      })
  reduces-Inv now after = elim (handout_reduce-cases now c blank_reply) [
    | inl e ↦
        subst After (sym e) (λ run. changed c blank_reply run inv.mapped inv.made idle-GoodReply)
          (next inv.run (reduces now blank_reply after))
    | inr (t, found, e) ↦
        subst After (sym e)
          (λ run.
            changed _ _ run inv.mapped
              (Every-update_first (ReduceDone job s.disk) free_reduce (start_reduce now)
                c.reduce_tasks (λ a h p q. absurd (no q)) inv.made)
              (record {
                of_map = λ h. absurd (omega (arith, h));
                of_reduce = λ h. (
                  (sizes job.files job.n_reduce inv.run).0,
                  λ i lt.
                      files_ready after i lt t.reduce_id
                        (handed_reduce job.files job.n_reduce inv.run free_reduce t found),
                );
              }))
          (next inv.run (reduces now blank_reply after))
  ]
    where
      After : Coordinator × Reply → Type 0
      After x =
          Reach (make_coordinator job.files job.n_reduce) x.0
          → Inv job (record s { coordinator = x.0; held = x.1 ∷ s.held })

      no : false ≡ true → ⊥
      no q = cc
