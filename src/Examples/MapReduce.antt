-- ===== src/Examples/MapReduce.antt =====
-- A job of one file and one reduce task.
use cslearning.Prelude.{◌≡◌, ◌↔◌, true, false, [], ◌∷◌}
use cslearning.MapReduce.Messages.{Args, Reply}
use cslearning.MapReduce.Coordinator.{
  Coordinator, handout_map, handle_success, is_done, make_coordinator,
}
use cslearning.MapReduce.Coordinator.Tasks.{Every}
use cslearning.MapReduce.Coordinator.Counting.{Inv, map_completed, reduce_completed}
use cslearning.MapReduce.Coordinator.Reach.{
  Reach, here, next, maps, succeeds, counters_exact, done_iff,
}

abbrev job : Coordinator
job = make_coordinator ("a.txt" ∷ []) 1

abbrev blank_reply : Reply
blank_reply = record {
  filename = "";
  map_id = 0;
  reduce_id = 0;
  n_reduce = 0;
  n_task = 0;
  flag = 0;
  is_done = false;
}

abbrev wants : Args
wants = record { execute_type = 1; flag = 0; map_id = 0; reduce_id = 0 }

abbrev reports : Args
reports = record { execute_type = 2; flag = 1; map_id = 0; reduce_id = 0 }

abbrev mapped : Coordinator
mapped = handle_success reports (handout_map 5 job blank_reply).0

job-mapped : Reach job mapped
job-mapped = next (next here (maps 5 blank_reply)) (succeeds reports)

counters_exact_example : Inv mapped
counters_exact_example = counters_exact ("a.txt" ∷ []) 1 job-mapped

done_iff_example : (is_done mapped ≡ true) ↔ (
    Every (λ t. map_completed t ≡ true) mapped.map_tasks
    × Every (λ t. reduce_completed t ≡ true) mapped.reduce_tasks)
done_iff_example = done_iff ("a.txt" ∷ []) 1 job-mapped
