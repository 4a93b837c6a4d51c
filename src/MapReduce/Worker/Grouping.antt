-- ===== src/MapReduce/Worker/Grouping.antt =====
-- Mit6824/lab1/worker.go: the loop of a reduce task over the sorted pairs.
use cslearning.Prelude.{
  ℕ, zero, suc, ◌≤◌, ◌≡◌, ◌∙◌, ap, subst, refl, inl, inr, true, false, List, [], ◌∷◌, if◌then◌else◌,
  length, Bool-cases, arith,
}
use cslearning.MapReduce.Coordinator.Tasks.{Every}
use cslearning.MapReduce.Worker.{Bytes, KeyValue, bytes_eq, bytes_less, same_key, reduce_loop}

pub bytes_eq-eq : (s t : Bytes) → bytes_eq s t ≡ true → s ≡ t
bytes_eq-eq [] [] h = refl
bytes_eq-eq [] (b ∷ t) h = cc
bytes_eq-eq (a ∷ s) [] h = cc
bytes_eq-eq (a ∷ s) (b ∷ t) h = ground (arith, bytes_eq-eq s t)

pub bytes_eq_refl : (s : Bytes) → bytes_eq s s ≡ true
bytes_eq_refl [] = refl
bytes_eq_refl (a ∷ s) = ground (arith, bytes_eq_refl s)

bytes_less_total :
    (s t : Bytes) → bytes_less s t ≡ false → bytes_less t s ≡ false → bytes_eq s t ≡ true
bytes_less_total [] [] h k = refl
bytes_less_total [] (b ∷ t) h k = cc
bytes_less_total (a ∷ s) [] h k = cc
bytes_less_total (a ∷ s) (b ∷ t) h k = ground (arith, bytes_less_total s t)

-- No pair comes before one with a lesser key.
abbrev pub IsSorted : List KeyValue → Type 0
IsSorted [] = Unit
IsSorted (kv ∷ l) = Every (λ x. bytes_less x.key kv.key ≡ false) l × IsSorted l

-- the values of a key, in order
abbrev pub values_of : Bytes → List KeyValue → List Bytes
values_of k [] = []
values_of k (kv ∷ l) = if bytes_eq kv.key k then kv.value ∷ values_of k l else values_of k l

-- the lines of a key
abbrev pub lines_of : Bytes → List (Bytes × Bytes) → List (Bytes × Bytes)
lines_of k [] = []
lines_of k (x ∷ l) = if bytes_eq x.0 k then x ∷ lines_of k l else lines_of k l

-- what `reducef` makes of a key: nothing if it has no values
abbrev pub reduced : (Bytes → List Bytes → Bytes) → Bytes → List Bytes → List (Bytes × Bytes)
reduced reducef k [] = []
reduced reducef k (v ∷ vs) = (k, reducef k (v ∷ vs)) ∷ []

same_key-length : (k : Bytes) (l : List KeyValue) → length (same_key k l).1 ≤ length l
unfolding same_key
same_key-length k [] = omega arith
same_key-length k (kv ∷ l) = ground (arith, same_key-length k l)

same_key-IsSorted : (k : Bytes) (l : List KeyValue) → IsSorted l → IsSorted (same_key k l).1
unfolding same_key
same_key-IsSorted k [] h = tt
same_key-IsSorted k (kv ∷ l) h = elim (Bool-cases (bytes_eq kv.key k)) [
  | inl same ↦ rw same (same_key-IsSorted k l h.1)
  | inr other ↦ rw other h
]

-- Once another key has come, the key does not come again.
values_of_none :
    (k : Bytes) (kv : KeyValue) (l : List KeyValue)
    → bytes_less kv.key k ≡ false
    → bytes_eq kv.key k ≡ false
    → Every (λ x. bytes_less x.key kv.key ≡ false) l
    → values_of k l ≡ []
values_of_none k kv [] h e all = refl
values_of_none k kv (x ∷ l) h e all = elim (Bool-cases (bytes_eq x.key k)) [
  | inl same ↦ absurd (
      clash (
        bytes_less_total kv.key k h
          (subst (λ s. bytes_less s kv.key ≡ false) (bytes_eq-eq x.key k same) all.0)))
  | inr other ↦ rw other (values_of_none k kv l h e all.1)
]
  where
    clash : bytes_eq kv.key k ≡ true → ⊥
    clash q = ground arith

same_key-values :
    (k : Bytes) (l : List KeyValue)
    → Every (λ x. bytes_less x.key k ≡ false) l
    → IsSorted l
    → (values_of k l ≡ (same_key k l).0) × (values_of k (same_key k l).1 ≡ [])
unfolding same_key
same_key-values k [] all h = (refl, refl)
same_key-values k (kv ∷ l) all h = elim (Bool-cases (bytes_eq kv.key k)) [
  | inl same ↦
      let (these, gone) = same_key-values k l all.1 h.1 in
      rw same (ap (λ vs. kv.value ∷ vs) these, gone)
  | inr other ↦ let gone = values_of_none k kv l all.0 other h.0 in rw other (gone, rw other gone)
]

same_key-others :
    (k k' : Bytes) (l : List KeyValue)
    → bytes_eq k k' ≡ false
    → values_of k' (same_key k l).1 ≡ values_of k' l
unfolding same_key
same_key-others k k' [] e = refl
same_key-others k k' (kv ∷ l) e = elim (Bool-cases (bytes_eq kv.key k)) [
  | inl same ↦ rw (same, bytes_eq-eq kv.key k same, e) (same_key-others k k' l e)
  | inr other ↦ rw other refl
]

-- The lines of the reduce loop on pairs sorted by key, with fuel for all of them: of each key that
-- occurs there is one line, made of all its values in order, and of no other key there is one.
pub reduce_loop-lines :
    (reducef : Bytes → List Bytes → Bytes) (fuel : ℕ) (l : List KeyValue) (k : Bytes)
    → length l ≤ fuel
    → IsSorted l
    → lines_of k (reduce_loop reducef fuel l) ≡ reduced reducef k (values_of k l)
unfolding reduce_loop
reduce_loop-lines reducef zero [] k le h = refl
reduce_loop-lines reducef zero (kv ∷ l) k le h = absurd (omega arith)
reduce_loop-lines reducef (suc fuel) [] k le h = refl
reduce_loop-lines reducef (suc fuel) (kv ∷ l) k le h =
    let later = λ (k' : Bytes).
      reduce_loop-lines reducef fuel (same_key kv.key l).1 k'
        (omega (arith, same_key-length kv.key l)) (same_key-IsSorted kv.key l h.1) in
    elim (Bool-cases (bytes_eq kv.key k)) [
      | inl same ↦ subst Lines (bytes_eq-eq kv.key k same) (own (later kv.key))
      | inr other ↦ rw other (later k ∙ ap (reduced reducef k) (same_key-others kv.key k l other))
    ]
  where
    Lines : Bytes → Type 0
    Lines k' =
        lines_of k' (reduce_loop reducef (suc fuel) (kv ∷ l))
        ≡ reduced reducef k' (values_of k' (kv ∷ l))

    own :
        lines_of kv.key (reduce_loop reducef fuel (same_key kv.key l).1)
          ≡ reduced reducef kv.key (values_of kv.key (same_key kv.key l).1)
        → Lines kv.key
    own later =
        let (these, gone) = same_key-values kv.key l h.0 h.1 in
        rw (bytes_eq_refl kv.key, these, later, gone) refl
