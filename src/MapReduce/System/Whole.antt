-- ===== src/MapReduce/System/Whole.antt =====
-- Mit6824/lab1: what a job leaves when the coordinator says that it is done.
use cslearning.Prelude.{
  ℕ, zero, suc, ◌+◌, ◌∷◌, String, ==→eq, ◌%◌, ◌<◌, ◌≡◌, refl, sym, ap, ◌∙◌, inl, inr, Bool, true,
  false, some, List, [], length, if◌then◌else◌, ◌==◌, Bool-cases, arith,
}
use cslearning.MapReduce.Coordinator.{is_done, make_coordinator, map_tasks_from, reduce_tasks_from}
use cslearning.MapReduce.Coordinator.Tasks.{count, Every}
use cslearning.MapReduce.Coordinator.Counting.{map_completed, reduce_completed}
use cslearning.MapReduce.Coordinator.Reach.{Reach, done_iff}
use cslearning.MapReduce.Messages.{MapTask, ReduceTask}
use cslearning.MapReduce.Worker.{Bytes, Disk, ihash}
use cslearning.MapReduce.Worker.Grouping.{values_of, lines_of, reduced}
use cslearning.MapReduce.Worker.Job.{Sorts, contents}
use cslearning.MapReduce.System.{
  Job, System, begin, pairs, Move, maps, reduces, works, stops, succeeds, errs, searches, Course,
  here, next,
}
use cslearning.MapReduce.System.Output.{at_task, values_of-contents, sort-values, sort_none}
use cslearning.MapReduce.System.Listed.{Every-both, each_reduce}
use cslearning.MapReduce.System.Invariant.{Filled, share, Made, Inv}
use cslearning.MapReduce.System.Coordinated.{maps-Inv, reduces-Inv}
use cslearning.MapReduce.System.Reported.{succeeds-Inv, errs-Inv, searches-Inv}
use cslearning.MapReduce.System.Worked.{works-Inv, stops-Inv}

-- The values of a key go to one call of `reducef`, whose line stands in the output file of the
-- key's reduce task; no other line is the key's.
pub record Output (job : Job) (d : Disk) (k : Bytes) : Type 0 where
  pub values : List Bytes
  pub all_values :
      (p : Bytes → Bool)
      → count p values ≡ count p (values_of k (contents (pairs job) 0 (length job.files)))
  pub files :
      (j : ℕ)
      → j < job.n_reduce
      → (lines : List (Bytes × Bytes)) × (d.out j ≡ some lines)
        × (lines_of k lines
            ≡ (if ihash k % job.n_reduce == j then reduced job.reducef k values else []))

-- `encoding/json` gives back the pairs that `mapf` makes of the input files as they were, as it does
-- for all that is valid UTF-8.
abbrev pub Survives : Job → Type 0
Survives job = (i : ℕ) → Every (λ kv. job.written kv ≡ kv) (pairs job i)

new_maps :
    (P : MapTask → Type 0) (i : ℕ) (files : List String)
    → Every (λ t. map_completed t ≡ true → P t) (map_tasks_from i files)
unfolding map_tasks_from
new_maps P i [] = tt
new_maps P i (file ∷ files) = (λ h. cc, new_maps P (i + 1) files)

new_reduces :
    (P : ReduceTask → Type 0) (i n : ℕ)
    → Every (λ t. reduce_completed t ≡ true → P t) (reduce_tasks_from i n)
unfolding reduce_tasks_from
new_reduces P i zero = tt
new_reduces P i (suc n) = (λ h. cc, new_reduces P (i + 1) n)

module _ (job : Job) (sorts : Sorts job.sort) (above : 0 < job.n_reduce) where
  begin-Inv : (d : Disk) → Inv job (begin job d)
  unfolding make_coordinator
  begin-Inv d = record {
    run = Reach.here;
    held = λ r m. elim m [ ];
    reports = λ a m. elim m [ ];
    mapped = new_maps (λ t. (j : ℕ) → j < job.n_reduce → Filled job d t.task_id j) 0 job.files;
    made = new_reduces (λ t. Made job d t.reduce_id) 0 job.n_reduce;
  }

  Move-Inv : {s t : System} → Inv job s → Move job s t → Inv job t
  Move-Inv {s} inv (maps now) = maps-Inv job s inv now
  Move-Inv {s} inv (reduces now after) = reduces-Inv job s inv now after
  Move-Inv {s} inv (works reply io calls args d m exact reads e) =
      works-Inv job sorts above s reply io calls args d inv m exact reads e
  Move-Inv {s} inv (stops reply k made d m mapping e r) =
      stops-Inv job sorts above s reply k made d inv m mapping e r
  Move-Inv {s} inv (succeeds args m well) = succeeds-Inv job s inv args (inv.reports args m well)
  Move-Inv {s} inv (errs args) = errs-Inv job s inv args
  Move-Inv {s} inv (searches now) = searches-Inv job s inv now

  Course-Inv : (d : Disk) {s : System} → Course job (begin job d) s → Inv job s
  Course-Inv d here = begin-Inv d
  Course-Inv d (next c m) = Move-Inv (Course-Inv d c) m

  files_there :
      {s : System}
      → Inv job s
      → is_done s.coordinator ≡ true
      → (j : ℕ) → j < job.n_reduce
      → Made job s.disk j
  files_there {s} inv over = each_reduce job.files job.n_reduce inv.run (Made job s.disk) (
      Every-both (λ t. reduce_completed t ≡ true) (λ t. Made job s.disk t.reduce_id)
        s.coordinator.reduce_tasks inv.made ((done_iff job.files job.n_reduce inv.run).0 over).1)

  share-values :
      Survives job
      → (k : Bytes) (j : ℕ)
      → values_of k (share job j)
        ≡ at_task job.n_reduce j k (values_of k (contents (pairs job) 0 (length job.files)))
  share-values kept k j =
      values_of-contents job.written job.n_reduce j k (pairs job) 0 (length job.files) kept

  files_there-Output :
      (d : Disk) (k : Bytes)
      → Survives job
      → ((j : ℕ) → j < job.n_reduce → Made job d j)
      → Output job d k
  files_there-Output d k kept made = record {
    values = values_of k (job.sort (share job at));
    all_values = λ p.
        sort-values job.sort k (share job at) p sorts ∙ ap (count p) (share-values kept k at ∙ own);
    files = λ j lt. let (lines, e, all) = made j lt in (lines, e, all k ∙ at_file j);
  }
    where
      at : ℕ
      at = ihash k % job.n_reduce

      own :
          at_task job.n_reduce at k (values_of k (contents (pairs job) 0 (length job.files)))
          ≡ values_of k (contents (pairs job) 0 (length job.files))
      own = ground arith

      elsewhere :
          (j : ℕ)
          → (at == j) ≡ false
          → at_task job.n_reduce j k (values_of k (contents (pairs job) 0 (length job.files))) ≡ []
      elsewhere j other = rw other refl

      at_file :
          (j : ℕ)
          → reduced job.reducef k (values_of k (job.sort (share job j))) ≡ (
              if at == j then reduced job.reducef k (values_of k (job.sort (share job at))) else [])
      at_file j = elim (Bool-cases (at == j)) [
        | inl same ↦ rw same (
            ap (λ i. reduced job.reducef k (values_of k (job.sort (share job i))))
              (sym (==→eq at j same)))
        | inr other ↦ rw other (
            ap (reduced job.reducef k) (
              sort_none job.sort k (share job j) sorts (share-values kept k j ∙ elsewhere j other)))
      ]

-- The whole of MapReduce: if `sort.Sort` permutes the pairs and sorts them by key, `encoding/json` gives
-- back the pairs that `mapf` makes unchanged, which it does for valid UTF-8, there is at least one reduce task, and an input file that can be read has always the same content, then in
-- every run of a job, with tasks done by several workers, workers that fail, stop on the way or are
-- given up, and reports that come late, again or never: once `Done` answers true, the values of
-- every key, of all pairs that `mapf` makes of all input files, went to one call of `reducef`,
-- whose line stands in the output file of the reduce task that the key hashes to; a key without a
-- value has no line, and no other output file has a line of the key.
pub job_done :
    (job : Job) (d : Disk) {s : System}
    → Sorts job.sort
    → Survives job
    → 0 < job.n_reduce
    → Course job (begin job d) s
    → is_done s.coordinator ≡ true
    → (k : Bytes) → Output job s.disk k
job_done job d {s} sorts survives above course over k =
    files_there-Output job sorts above s.disk k survives
      (files_there job sorts above (Course-Inv job sorts above d course) over)
