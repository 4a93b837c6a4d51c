-- ===== src/Examples/WholeJob.antt =====
-- A job of one file and two reduce tasks: "a" and "b" hash to different ones.
use mathlib.Core.List.{Memᴰ}
use cslearning.Prelude.{ℕ, ◌≡◌, refl, inr, true, false, String, some, none, List, [], ◌∷◌, arith}
use cslearning.MapReduce.Messages.{Args, Reply, succeed, wanned}
use cslearning.MapReduce.Coordinator.Tasks.{Every, find_first, update_first}
use cslearning.MapReduce.Coordinator.{
  handout_map, handout_reduce, handle_success, success_map, success_reduce, make_coordinator,
  map_tasks_from, reduce_tasks_from, is_done,
}
use cslearning.MapReduce.Worker.{
  Bytes, KeyValue, Disk, MapIo, work, do_map, do_reduce, emit, map_ends, rename_all, read_all,
  reduce_loop, same_key, ihash, fnv1a,
}
use cslearning.MapReduce.System.{
  Job, pairs, System, begin, Course, here, next, maps, reduces, works, succeeds,
}
use cslearning.MapReduce.System.Whole.{Output, job_done}
use cslearning.Examples.Sorting.{insertion_sort, insertion_sort-Sorts}

abbrev words : String → Bytes → List KeyValue
words file [] = []
words file (b ∷ content) = record { key = b ∷ []; value = 49 ∷ [] } ∷ words file content

abbrev tally : Bytes → List Bytes → Bytes
tally k [] = []
tally k (v ∷ vs) = 49 ∷ tally k vs

abbrev text : Bytes
text = 97 ∷ 98 ∷ 97 ∷ []

abbrev job : Job
job = record {
  mapf = words;
  reducef = tally;
  sort = insertion_sort;
  inputs = λ name. text;
  written = λ kv. kv;
  files = "f" ∷ [];
  n_reduce = 2;
}

abbrev all_well : MapIo
all_well = record {
  content = some text;
  creates = true;
  encodes = λ kv. some kv;
  renames = λ i. true;
}

abbrev empty_disk : Disk
empty_disk = record { mid = λ i j. none; out = λ j. none }

same_text : (c : Bytes) → some text ≡ some c → c ≡ text
same_text c h = cc

abbrev map_reply : Reply
map_reply = record {
  filename = "f";
  map_id = 0;
  reduce_id = 0;
  n_reduce = 2;
  n_task = 1;
  flag = 1;
  is_done = false;
}

abbrev reduce_reply : ℕ → Reply
reduce_reply j = record {
  filename = "";
  map_id = 0;
  reduce_id = j;
  n_reduce = 2;
  n_task = 1;
  flag = 2;
  is_done = false;
}

abbrev map_report : Args
map_report = record { execute_type = 2; flag = 1; map_id = 0; reduce_id = 0 }

abbrev reduce_report : ℕ → Args
reduce_report j = record { execute_type = 2; flag = 2; map_id = 0; reduce_id = j }

-- The map task is done.
abbrev mapped : (s : System) × Course job (begin job empty_disk) s
unfolding make_coordinator map_tasks_from reduce_tasks_from handout_map find_first update_first work
    do_map emit map_ends rename_all ihash fnv1a succeed wanned handle_success success_map
mapped = (
  _,
  next
      (next (next here (maps 5)) (
        works map_reply all_well (true, true) map_report _ (Memᴰ.head refl) (λ kv. inr refl)
          same_text refl))
      (succeeds map_report (Memᴰ.head refl) refl),
)

-- Both reduce tasks are done.
abbrev done_job : (s : System) × Course job (begin job empty_disk) s
unfolding make_coordinator map_tasks_from reduce_tasks_from handout_map handout_reduce find_first
    update_first work do_map do_reduce read_all reduce_loop same_key emit map_ends rename_all ihash
    fnv1a succeed wanned handle_success success_map success_reduce
done_job = (
  _,
  next
      (next
        (next
          (next
            (next (next mapped.1 (reduces 6 refl)) (
              works (reduce_reply 0) all_well (true, true) (reduce_report 0) _ (Memᴰ.head refl)
                (λ kv. inr refl) same_text refl))
            (succeeds (reduce_report 0) (Memᴰ.head refl) refl))
          (reduces 7 refl))
        (works (reduce_reply 1) all_well (true, true) (reduce_report 1) _ (Memᴰ.head refl)
          (λ kv. inr refl) same_text refl))
      (succeeds (reduce_report 1) (Memᴰ.head refl) refl),
)

all_survive : (l : List KeyValue) → Every (λ kv. job.written kv ≡ kv) l
all_survive [] = tt
all_survive (kv ∷ l) = (refl, all_survive l)

job_done_example : Output job done_job.0.disk (97 ∷ [])
unfolding make_coordinator map_tasks_from reduce_tasks_from handout_map handout_reduce find_first
    update_first work do_map do_reduce read_all reduce_loop same_key emit map_ends rename_all ihash
    fnv1a succeed wanned handle_success success_map success_reduce is_done
job_done_example =
    job_done job empty_disk insertion_sort-Sorts (λ i. all_survive (pairs job i)) (omega arith)
      done_job.1 refl (97 ∷ [])
