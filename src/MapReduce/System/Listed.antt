-- ===== src/MapReduce/System/Listed.antt =====
-- Mit6824/lab1/coordinator.go: which tasks the coordinator has, at any time.
use cslearning.Prelude.{
  ℕ, zero, suc, ◌+◌, ◌-◌, ◌<◌, ◌≤◌, ◌≡◌, refl, sym, ap, subst, ◌∙◌, inl, inr, Bool, true, some,
  String, List, [], ◌∷◌, map, length, get_elem?, Bool-cases, arith, if◌then◌else◌,
}
use cslearning.MapReduce.Messages.{MapTask, ReduceTask}
use cslearning.MapReduce.Coordinator.Tasks.{find_first, update_first, Every, Evolves}
use cslearning.MapReduce.Coordinator.{
  Coordinator, map_tasks_from, reduce_tasks_from, make_coordinator,
}
use cslearning.MapReduce.Coordinator.Counting.{map_completed, reduce_completed}
use cslearning.MapReduce.Coordinator.Reach.{Reach, counters_exact}
use cslearning.MapReduce.Coordinator.Lasting.{map_key, reduce_key, completed_for_good}

module _ {A : Type 0} where
  pub Every-update_first :
      (P : A → Type 0) (test : A → Bool) (change : A → A) (xs : List A)
      → ((a : A) → test a ≡ true → P a → P (change a))
      → Every P xs
      → Every P (update_first test change xs)
  unfolding update_first
  Every-update_first P test change [] keep h = tt
  Every-update_first P test change (x ∷ xs) keep h = elim (Bool-cases (test x)) [
    | inl hit ↦ rw hit (keep x hit h.0, h.1)
    | inr miss ↦ rw miss (h.0, Every-update_first P test change xs keep h.1)
  ]

  pub Every-map :
      (P : A → Type 0) (change : A → A) (xs : List A)
      → ((a : A) → P a → P (change a))
      → Every P xs
      → Every P (map change xs)
  Every-map P change [] keep h = tt
  Every-map P change (x ∷ xs) keep h = (keep x h.0, Every-map P change xs keep h.1)

  pub Every_imp : (P Q : A → Type 0) (xs : List A) → ((a : A) → P a → Q a) → Every P xs → Every Q xs
  Every_imp P Q [] f h = tt
  Every_imp P Q (x ∷ xs) f h = (f x h.0, Every_imp P Q xs f h.1)

  pub Every-both :
      (P Q : A → Type 0) (xs : List A) → Every (λ a. P a → Q a) xs → Every P xs → Every Q xs
  Every-both P Q [] f h = tt
  Every-both P Q (x ∷ xs) f h = (f.0 h.0, Every-both P Q xs f.1 h.1)

-- The map tasks are those of the files, in order.
map_listed :
    (i : ℕ) (files : List String) (ts : List MapTask) (test : MapTask → Bool) (t : MapTask)
    → Evolves map_key map_completed (map_tasks_from i files) ts
    → find_first test ts ≡ some t
    → (i ≤ t.task_id) × (get_elem? files (t.task_id - i) ≡ some t.filename)
unfolding map_tasks_from find_first
map_listed i [] [] test t h found = cc
map_listed i [] (x ∷ ts) test t h found = absurd h
map_listed i (file ∷ files) [] test t h found = absurd h
map_listed i (file ∷ files) (x ∷ ts) test t h found = elim (Bool-cases (test x)) [
  | inl hit ↦
      let same =
        some_eq (subst (λ b. (if b then some x else find_first test ts) ≡ some t) hit found) in
      own (ap map_key (sym same) ∙ h.0)
  | inr miss ↦ later (
      map_listed (i + 1) files ts test t h.2
        (subst (λ b. (if b then some x else find_first test ts) ≡ some t) miss found))
]
  where
    some_eq : {a b : MapTask} → some a ≡ some b → a ≡ b
    some_eq e = cc

    own :
        map_key t ≡ (file, i)
        → (i ≤ t.task_id) × (get_elem? (file ∷ files) (t.task_id - i) ≡ some t.filename)
    own e =
        let name = ap (λ (p : String × ℕ). p.0) e in
        let id = ap (λ (p : String × ℕ). p.1) e in
        (
          omega (arith, id),
          subst (λ k. get_elem? (file ∷ files) k ≡ some t.filename) {x = 0} (omega (arith, id))
              (ap some (sym name)),
        )

    later :
        (i + 1 ≤ t.task_id) × (get_elem? files (t.task_id - (i + 1)) ≡ some t.filename)
        → (i ≤ t.task_id) × (get_elem? (file ∷ files) (t.task_id - i) ≡ some t.filename)
    later (le, e) = (
      omega (arith, le),
      subst (λ k. get_elem? (file ∷ files) k ≡ some t.filename) {x = suc (t.task_id - (i + 1))}
          (omega (arith, le)) e,
    )

reduce_listed :
    (i n : ℕ) (ts : List ReduceTask) (test : ReduceTask → Bool) (t : ReduceTask)
    → Evolves reduce_key reduce_completed (reduce_tasks_from i n) ts
    → find_first test ts ≡ some t
    → t.reduce_id < i + n
unfolding reduce_tasks_from find_first
reduce_listed i zero [] test t h found = cc
reduce_listed i zero (x ∷ ts) test t h found = absurd h
reduce_listed i (suc n) [] test t h found = absurd h
reduce_listed i (suc n) (x ∷ ts) test t h found = elim (Bool-cases (test x)) [
  | inl hit ↦
      let same =
        some_eq (subst (λ b. (if b then some x else find_first test ts) ≡ some t) hit found) in
      omega (arith, ap (λ (r : ReduceTask). r.reduce_id) same, h.0)
  | inr miss ↦ omega (
    arith,
    reduce_listed (i + 1) n ts test t h.2
        (subst (λ b. (if b then some x else find_first test ts) ≡ some t) miss found),
  )
]
  where
    some_eq : {a b : ReduceTask} → some a ≡ some b → a ≡ b
    some_eq e = cc

-- What holds of all map tasks holds of each number below the number of files.
map_each :
    (P : ℕ → Type 0) (i : ℕ) (files : List String) (ts : List MapTask)
    → Evolves map_key map_completed (map_tasks_from i files) ts
    → Every (λ t. P t.task_id) ts
    → (k : ℕ) → k < length files
    → P (i + k)
unfolding map_tasks_from
map_each P i [] ts h all k lt = absurd (omega arith)
map_each P i (file ∷ files) [] h all k lt = absurd h
map_each P i (file ∷ files) (x ∷ ts) h all zero lt =
    subst P (omega (arith, ap (λ (p : String × ℕ). p.1) h.0)) all.0
map_each P i (file ∷ files) (x ∷ ts) h all (suc k) lt =
    subst P (omega arith) (map_each P (i + 1) files ts h.2 all.1 k (omega arith))

reduce_each :
    (P : ℕ → Type 0) (i n : ℕ) (ts : List ReduceTask)
    → Evolves reduce_key reduce_completed (reduce_tasks_from i n) ts
    → Every (λ t. P t.reduce_id) ts
    → (k : ℕ) → k < n
    → P (i + k)
unfolding reduce_tasks_from
reduce_each P i zero ts h all k lt = absurd (omega arith)
reduce_each P i (suc n) [] h all k lt = absurd h
reduce_each P i (suc n) (x ∷ ts) h all zero lt = subst P (omega (arith, h.0)) all.0
reduce_each P i (suc n) (x ∷ ts) h all (suc k) lt =
    subst P (omega arith) (reduce_each P (i + 1) n ts h.2 all.1 k (omega arith))

map_length :
    (i : ℕ) (files : List String) (ts : List MapTask)
    → Evolves map_key map_completed (map_tasks_from i files) ts
    → length ts ≡ length files
unfolding map_tasks_from
map_length i [] [] h = refl
map_length i [] (x ∷ ts) h = absurd h
map_length i (file ∷ files) [] h = absurd h
map_length i (file ∷ files) (x ∷ ts) h = omega (arith, map_length (i + 1) files ts h.2)

reduce_length :
    (i n : ℕ) (ts : List ReduceTask)
    → Evolves reduce_key reduce_completed (reduce_tasks_from i n) ts
    → length ts ≡ n
unfolding reduce_tasks_from
reduce_length i zero [] h = refl
reduce_length i zero (x ∷ ts) h = absurd h
reduce_length i (suc n) [] h = absurd h
reduce_length i (suc n) (x ∷ ts) h = omega (arith, reduce_length (i + 1) n ts h.2)

module _ (files : List String) (n : ℕ) {c : Coordinator}
    (r : Reach (make_coordinator files n) c) where
  evolved :
      Evolves map_key map_completed (map_tasks_from 0 files) c.map_tasks
      × Evolves reduce_key reduce_completed (reduce_tasks_from 0 n) c.reduce_tasks
  unfolding make_coordinator
  evolved = completed_for_good r

  pub handed_map :
      (test : MapTask → Bool) (t : MapTask)
      → find_first test c.map_tasks ≡ some t
      → get_elem? files t.task_id ≡ some t.filename
  handed_map test t found =
      subst (λ k. get_elem? files k ≡ some t.filename) (omega arith)
        (map_listed 0 files c.map_tasks test t evolved.0 found).1

  pub handed_reduce :
      (test : ReduceTask → Bool) (t : ReduceTask)
      → find_first test c.reduce_tasks ≡ some t
      → t.reduce_id < n
  handed_reduce test t found =
      omega (arith, reduce_listed 0 n c.reduce_tasks test t evolved.1 found)

  pub each_map :
      (P : ℕ → Type 0) → Every (λ t. P t.task_id) c.map_tasks → (i : ℕ) → i < length files → P i
  each_map P all i lt = subst P (omega arith) (map_each P 0 files c.map_tasks evolved.0 all i lt)

  pub each_reduce :
      (P : ℕ → Type 0) → Every (λ t. P t.reduce_id) c.reduce_tasks → (j : ℕ) → j < n → P j
  each_reduce P all j lt =
      subst P (omega arith) (reduce_each P 0 n c.reduce_tasks evolved.1 all j lt)

  pub sizes : (c.n_task ≡ length files) × (c.n_reduce ≡ n)
  sizes =
      let v = counters_exact files n r in
      (
        v.maps_all ∙ map_length 0 files c.map_tasks evolved.0,
        v.reduces_all ∙ reduce_length 0 n c.reduce_tasks evolved.1,
      )
