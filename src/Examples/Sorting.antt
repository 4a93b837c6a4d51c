-- ===== src/Examples/Sorting.antt =====
-- Insertion sort by key, as one thing that `sort.Sort` may be.
use cslearning.Prelude.{
  ◌≡◌, refl, ◌∙◌, inl, inr, Bool, true, false, List, [], ◌∷◌, if◌then◌else◌, Bool-cases, arith,
}
use cslearning.MapReduce.Coordinator.Tasks.{count, Every}
use cslearning.MapReduce.Worker.{Bytes, KeyValue, bytes_less}
use cslearning.MapReduce.Worker.Grouping.{IsSorted}
use cslearning.MapReduce.Worker.Job.{Sorts}

abbrev pub insert : KeyValue → List KeyValue → List KeyValue
insert kv [] = kv ∷ []
insert kv (x ∷ l) = if bytes_less x.key kv.key then x ∷ insert kv l else kv ∷ x ∷ l

abbrev pub insertion_sort : List KeyValue → List KeyValue
insertion_sort [] = []
insertion_sort (kv ∷ l) = insert kv (insertion_sort l)

bytes_less_back :
    (s t u : Bytes) → bytes_less t s ≡ false → bytes_less u t ≡ false → bytes_less u s ≡ false
bytes_less_back [] t [] h k = refl
bytes_less_back [] t (c ∷ u) h k = refl
bytes_less_back (a ∷ s) [] u h k = cc
bytes_less_back (a ∷ s) (b ∷ t) [] h k = cc
bytes_less_back (a ∷ s) (b ∷ t) (c ∷ u) h k = ground (arith, bytes_less_back s t u)

bytes_less_asym : (s t : Bytes) → bytes_less s t ≡ true → bytes_less t s ≡ false
bytes_less_asym s [] h = cc
bytes_less_asym [] (b ∷ t) h = refl
bytes_less_asym (a ∷ s) (b ∷ t) h = ground (arith, bytes_less_asym s t)

-- Nothing in the list is less than the key.
abbrev Above : Bytes → List KeyValue → Type 0
Above k = Every (λ x. bytes_less x.key k ≡ false)

insert-Above :
    (k : Bytes) (kv : KeyValue) (l : List KeyValue)
    → bytes_less kv.key k ≡ false
    → Above k l
    → Above k (insert kv l)
insert-Above k kv [] h all = (h, tt)
insert-Above k kv (x ∷ l) h all = elim (Bool-cases (bytes_less x.key kv.key)) [
  | inl less ↦ rw less (all.0, insert-Above k kv l h all.1)
  | inr more ↦ rw more (h, all)
]

raise-Above : (s t : Bytes) (l : List KeyValue) → bytes_less t s ≡ false → Above t l → Above s l
raise-Above s t [] h all = tt
raise-Above s t (x ∷ l) h all = (bytes_less_back s t x.key h all.0, raise-Above s t l h all.1)

insert-IsSorted : (kv : KeyValue) (l : List KeyValue) → IsSorted l → IsSorted (insert kv l)
insert-IsSorted kv [] h = (tt, tt)
insert-IsSorted kv (x ∷ l) h = elim (Bool-cases (bytes_less x.key kv.key)) [
  | inl less ↦
      rw less
        (insert-Above x.key kv l (bytes_less_asym x.key kv.key less) h.0, insert-IsSorted kv l h.1)
  | inr more ↦ rw more ((more, raise-Above kv.key x.key l more h.0), h)
]

count-insert :
    (p : KeyValue → Bool) (kv : KeyValue) (l : List KeyValue)
    → count p (insert kv l) ≡ count p (kv ∷ l)
count-insert p kv [] = refl
count-insert p kv (x ∷ l) = elim (Bool-cases (bytes_less x.key kv.key)) [
  | inl less ↦ rw less (omega (arith, count-insert p kv l))
  | inr more ↦ rw more refl
]

sort-IsSorted : (l : List KeyValue) → IsSorted (insertion_sort l)
sort-IsSorted [] = tt
sort-IsSorted (kv ∷ l) = insert-IsSorted kv (insertion_sort l) (sort-IsSorted l)

count-sort : (p : KeyValue → Bool) (l : List KeyValue) → count p (insertion_sort l) ≡ count p l
count-sort p [] = refl
count-sort p (kv ∷ l) = count-insert p kv (insertion_sort l) ∙ omega (arith, count-sort p l)

pub insertion_sort-Sorts : Sorts insertion_sort
insertion_sort-Sorts = record { sorted = sort-IsSorted; permuted = count-sort }
