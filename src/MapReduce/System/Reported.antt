-- ===== src/MapReduce/System/Reported.antt =====
-- Mit6824/lab1/coordinator.go: reports, errors and timeouts in a job.
use cslearning.Prelude.{
  ℕ, ◌<◌, ◌≡◌, sym, subst, inl, inr, true, false, arith, Option-cases, ◌==◌, Bool-cases,
}
use cslearning.MapReduce.Messages.{Args}
use cslearning.MapReduce.Coordinator.Tasks.{Every, find_first}
use cslearning.MapReduce.Coordinator.{
  Coordinator, make_coordinator, handle_success, success_map, success_reduce, handle_error,
  faultsearch, running_map, running_reduce, finish_map, finish_reduce, reset_map, reset_reduce,
  requeue_map, requeue_reduce,
}
use cslearning.MapReduce.Coordinator.Reach.{Reach, next, succeeds, errs, searches}
use cslearning.MapReduce.System.{Job, System}
use cslearning.MapReduce.System.Listed.{Every-update_first, Every-map}
use cslearning.MapReduce.System.Invariant.{Filled, Made, MapDone, ReduceDone, GoodArgs, Inv}

module _ (job : Job) (s : System) (inv : Inv job s) where
  abbrev c : Coordinator
  c = s.coordinator

  after_report :
      (d : Coordinator)
      → Reach (make_coordinator job.files job.n_reduce) d
      → Every (MapDone job s.disk) d.map_tasks
      → Every (ReduceDone job s.disk) d.reduce_tasks
      → Inv job (record s { coordinator = d })
  after_report d run mapped made = record {
    run = run;
    held = inv.held;
    reports = inv.reports;
    mapped = mapped;
    made = made;
  }

  success_map-done :
      (id : ℕ)
      → ((j : ℕ) → j < job.n_reduce → Filled job s.disk id j)
      → Every (MapDone job s.disk) (success_map id c).map_tasks
  unfolding success_map
  success_map-done id good = elim (Option-cases (find_first (running_map id) c.map_tasks)) [
    | inl idle ↦ rw (idle, success_map) inv.mapped
    | inr (t, found) ↦
        rw (found, success_map)
          (Every-update_first (MapDone job s.disk) (running_map id) finish_map c.map_tasks
            (λ a h p q.
              subst (λ i. (j : ℕ) → j < job.n_reduce → Filled job s.disk i j) (ground (arith, h))
                good)
            inv.mapped)
  ]

  success_reduce-done :
      (id : ℕ)
      → Made job s.disk id
      → Every (ReduceDone job s.disk) (success_reduce id c).reduce_tasks
  unfolding success_reduce
  success_reduce-done id good =
      elim (Option-cases (find_first (running_reduce id) c.reduce_tasks)) [
        | inl idle ↦ rw (idle, success_reduce) inv.made
        | inr (t, found) ↦
            rw (found, success_reduce)
              (Every-update_first (ReduceDone job s.disk) (running_reduce id) finish_reduce
                c.reduce_tasks (λ a h p q. subst (Made job s.disk) (ground (arith, h)) good)
                inv.made)
      ]

  success_map-others : (id : ℕ) → (success_map id c).reduce_tasks ≡ c.reduce_tasks
  unfolding success_map
  success_map-others id = ground arith

  success_reduce-others : (id : ℕ) → (success_reduce id c).map_tasks ≡ c.map_tasks
  unfolding success_reduce
  success_reduce-others id = ground arith

  pub succeeds-Inv :
      (args : Args)
      → GoodArgs job s.disk args
      → Inv job (record s { coordinator = handle_success args c })
  unfolding handle_success
  succeeds-Inv args good =
      after_report (handle_success args c) (next inv.run (succeeds args))
        (elim (Bool-cases (args.flag == 1)) [
          | inl of_map ↦ rw of_map (success_map-done args.map_id (good.of_map (ground arith)))
          | inr not_map ↦ rw not_map (elim (Bool-cases (args.flag == 2)) [
            | inl of_reduce ↦ rw of_reduce (
                subst (Every (MapDone job s.disk)) (sym (success_reduce-others args.reduce_id))
                  inv.mapped)
            | inr other ↦ rw other inv.mapped
          ])
        ])
        (elim (Bool-cases (args.flag == 1)) [
          | inl of_map ↦ rw of_map (
              subst (Every (ReduceDone job s.disk)) (sym (success_map-others args.map_id)) inv.made)
          | inr not_map ↦ rw not_map (elim (Bool-cases (args.flag == 2)) [
            | inl of_reduce ↦
                rw of_reduce (success_reduce-done args.reduce_id (good.of_reduce (ground arith)))
            | inr other ↦ rw other inv.made
          ])
        ])

  pub errs-Inv : (args : Args) → Inv job (record s { coordinator = handle_error args c })
  unfolding handle_error
  errs-Inv args =
      after_report (handle_error args c) (next inv.run (errs args))
        (elim (Bool-cases (args.flag == 1)) [
          | inl of_map ↦ rw of_map (
              Every-update_first (MapDone job s.disk) (running_map args.map_id) reset_map
                c.map_tasks (λ a h p q. absurd (no q)) inv.mapped)
          | inr not_map ↦ rw not_map (elim (Bool-cases (args.flag == 2)) [
            | inl of_reduce ↦ rw of_reduce inv.mapped
            | inr other ↦ rw other inv.mapped
          ])
        ])
        (elim (Bool-cases (args.flag == 1)) [
          | inl of_map ↦ rw of_map inv.made
          | inr not_map ↦ rw not_map (elim (Bool-cases (args.flag == 2)) [
            | inl of_reduce ↦ rw of_reduce (
                Every-update_first (ReduceDone job s.disk) (running_reduce args.reduce_id)
                  reset_reduce c.reduce_tasks (λ a h p q. absurd (no q)) inv.made)
            | inr other ↦ rw other inv.made
          ])
        ])
    where
      no : false ≡ true → ⊥
      no q = cc

  pub searches-Inv : (now : ℕ) → Inv job (record s { coordinator = faultsearch now c })
  unfolding faultsearch
  searches-Inv now =
      after_report (faultsearch now c) (next inv.run (searches now))
        (Every-map (MapDone job s.disk) (requeue_map now) c.map_tasks (λ a p q. ground (arith, p))
          inv.mapped)
        (Every-map (ReduceDone job s.disk) (requeue_reduce now) c.reduce_tasks
          (λ a p q. ground (arith, p)) inv.made)
