-- ===== src/MapReduce/System/Output.antt =====
-- Mit6824/lab1/worker.go: the values of a key, from the pairs of the map tasks to a reduce task.
use cslearning.Prelude.{
  ℕ, zero, suc, ◌+◌, ◌%◌, ◌≡◌, refl, sym, ap, ap₂, ◌∙◌, inl, inr, Bool, true, false, List, [], ◌∷◌,
  ◌++◌, if◌then◌else◌, Bool-cases, ◌==◌, ◌&&◌, arith,
}
use cslearning.MapReduce.Coordinator.Tasks.{count, Every}
use cslearning.MapReduce.Worker.{Bytes, KeyValue, bytes_eq, ihash}
use cslearning.MapReduce.Worker.Grouping.{values_of, bytes_eq-eq, bytes_eq_refl}
use cslearning.MapReduce.Worker.Partition.{bucket}
use cslearning.MapReduce.Worker.Job.{Sorts, contents}

values_of-++ :
    (k : Bytes) (l m : List KeyValue) → values_of k (l ++ m) ≡ values_of k l ++ values_of k m
values_of-++ k [] m = refl
values_of-++ k (kv ∷ l) m = ground (arith, values_of-++ k l m)

-- what is left of a key's values at reduce task `j`
abbrev pub at_task : ℕ → ℕ → Bytes → List Bytes → List Bytes
at_task n j k vs = if ihash k % n == j then vs else []

values_of-bucket :
    (write : KeyValue → KeyValue) (n j : ℕ) (k : Bytes) (l : List KeyValue)
    → Every (λ kv. write kv ≡ kv) l
    → values_of k (bucket write n j l) ≡ at_task n j k (values_of k l)
values_of-bucket write n j k [] kept = ground arith
values_of-bucket write n j k (kv ∷ l) kept = elim (Bool-cases (bytes_eq kv.key k)) [
  | inl same ↦
      rw (kept.0, bytes_eq-eq kv.key k same)
        (own (ihash k % n == j) (values_of-bucket write n j k l kept.1))
  | inr other ↦ rw other (elim (Bool-cases (ihash kv.key % n == j)) [
    | inl here ↦ rw (here, kept.0, other) (values_of-bucket write n j k l kept.1)
    | inr away ↦ rw away (values_of-bucket write n j k l kept.1)
  ])
]
  where
    own :
        (b : Bool)
        → values_of k (bucket write n j l) ≡ (if b then values_of k l else [])
        → values_of k (if b then record kv { key = k } ∷ bucket write n j l else bucket write n j l)
          ≡ (if b then (if bytes_eq k k then kv.value ∷ values_of k l else values_of k l) else [])
    own true h = rw (bytes_eq_refl k, h) refl
    own false h = h

at_task-++ :
    (n j : ℕ) (k : Bytes) (l m : List Bytes)
    → at_task n j k l ++ at_task n j k m ≡ at_task n j k (l ++ m)
at_task-++ n j k l m = elim (Bool-cases (ihash k % n == j)) [
  | inl here ↦ rw here refl
  | inr away ↦ rw away refl
]

pub values_of-contents :
    (write : KeyValue → KeyValue) (n j : ℕ) (k : Bytes) (files : ℕ → List KeyValue) (i m : ℕ)
    → ((a : ℕ) → Every (λ kv. write kv ≡ kv) (files a))
    → values_of k (contents (λ a. bucket write n j (files a)) i m)
      ≡ at_task n j k (values_of k (contents files i m))
values_of-contents write n j k files i zero kept = ground arith
values_of-contents write n j k files i (suc m) kept =
    values_of-++ k (bucket write n j (files i))
      (contents (λ a. bucket write n j (files a)) (i + 1) m)
    ∙ ap₂ (λ l r. l ++ r) (values_of-bucket write n j k (files i) (kept i))
        (values_of-contents write n j k files (i + 1) m kept)
    ∙ at_task-++ n j k (values_of k (files i)) (values_of k (contents files (i + 1) m))
    ∙ ap (at_task n j k) (sym (values_of-++ k (files i) (contents files (i + 1) m)))

count-values :
    (p : Bytes → Bool) (k : Bytes) (l : List KeyValue)
    → count p (values_of k l) ≡ count (λ kv. bytes_eq kv.key k && p kv.value) l
count-values p k [] = refl
count-values p k (kv ∷ l) = ground (arith, count-values p k l)

-- Sorting keeps the values of a key, up to their order.
pub sort-values :
    (sort : List KeyValue → List KeyValue) (k : Bytes) (l : List KeyValue) (p : Bytes → Bool)
    → Sorts sort
    → count p (values_of k (sort l)) ≡ count p (values_of k l)
sort-values sort k l p sorts =
    count-values p k (sort l) ∙ sorts.permuted _ l ∙ sym (count-values p k l)

count_none : (l : List Bytes) → count (λ v. true) l ≡ 0 → l ≡ []
count_none [] h = refl
count_none (v ∷ l) h = absurd (omega arith)

pub sort_none :
    (sort : List KeyValue → List KeyValue) (k : Bytes) (l : List KeyValue)
    → Sorts sort
    → values_of k l ≡ []
    → values_of k (sort l) ≡ []
sort_none sort k l sorts e =
    count_none (values_of k (sort l))
      (sort-values sort k l (λ v. true) sorts ∙ ap (count (λ v. true)) e)
