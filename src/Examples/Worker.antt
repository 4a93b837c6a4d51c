-- ===== src/Examples/Worker.antt =====
-- A worker on a file of two words.
use cslearning.Prelude.{◌≡◌, refl, true, false, String, none, some, List, [], ◌∷◌, arith, Returns}
use cslearning.MapReduce.Messages.{Args, Reply}
use cslearning.MapReduce.Worker.{Bytes, KeyValue, Disk, MapIo, do_map, do_reduce, fnv1a}
use cslearning.MapReduce.Worker.Partition.{Mapped, do_map_partitions}
use cslearning.MapReduce.Worker.Job.{Reduced, contents, do_reduce_once}
use cslearning.Examples.Sorting.{insertion_sort, insertion_sort-Sorts}

-- The hash of "a", as `hash/fnv` gives it.
hash_of_a : fnv1a 2_166_136_261 (97 ∷ []) ≡ 3_826_002_220
unfolding fnv1a
hash_of_a = refl

abbrev one : Bytes
one = 49 ∷ []

-- each byte of the file as a word
abbrev words : String → Bytes → List KeyValue
words file [] = []
words file (b ∷ content) = record { key = b ∷ []; value = one } ∷ words file content

abbrev text : Bytes
text = 97 ∷ 98 ∷ 97 ∷ []

abbrev all_well : MapIo
all_well = record {
  content = some text;
  creates = true;
  encodes = λ kv. some kv;
  renames = λ i. true;
}

abbrev task : Reply
task = record {
  filename = "f";
  map_id = 0;
  reduce_id = 1;
  n_reduce = 2;
  n_task = 1;
  flag = 1;
  is_done = false;
}

abbrev asked : Args
asked = record { execute_type = 1; flag = 0; map_id = 0; reduce_id = 0 }

abbrev empty_disk : Disk
empty_disk = record { mid = λ i j. none; out = λ j. none }

do_map_partitions_example :
    Returns
      (do_map words all_well task asked empty_disk)
      (Mapped (λ kv. kv) 2 0 (words "f" text) empty_disk)
do_map_partitions_example =
    do_map_partitions words (λ kv. kv) all_well task asked empty_disk text refl refl (λ kv. refl)
      (λ i. refl) (omega arith)

abbrev full_disk : Disk
full_disk = record { mid = λ i j. some (words "f" text); out = λ j. none }

-- as many bytes as a word has values
abbrev tally : Bytes → List Bytes → Bytes
tally k [] = []
tally k (v ∷ vs) = 49 ∷ tally k vs

do_reduce_once_example :
    Returns
      (do_reduce tally insertion_sort true true task asked full_disk)
      (Reduced tally 1 (insertion_sort (contents (λ i. words "f" text) 0 1)))
do_reduce_once_example =
    do_reduce_once tally insertion_sort task asked full_disk (λ i. words "f" text)
      insertion_sort-Sorts (λ i lt. refl)
