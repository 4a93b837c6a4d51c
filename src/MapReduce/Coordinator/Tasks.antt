-- ===== src/MapReduce/Coordinator/Tasks.antt =====
-- Mit6824/lab1/coordinator.go: the loops over the task slices, for any kind of task.
use cslearning.Prelude.{
  Bool-cases, inl, inr, ◌∙◌, ℕ, suc, ◌+◌, ◌≤◌, ◌≡◌, refl, ap, Bool, true, false, Option, none, some,
  List, [], ◌∷◌, map, if◌then◌else◌, length, arith,
}

module _ {ℓ} {A : Type ℓ} where
  -- the task that the loop stops at
  unfoldable pub find_first : (A → Bool) → List A → Option A
  find_first test [] = none
  find_first test (x ∷ xs) = if test x then some x else find_first test xs

  -- the slice after the loop has changed that task
  unfoldable pub update_first : (A → Bool) → (A → A) → List A → List A
  update_first test change [] = []
  update_first test change (x ∷ xs) =
      if test x then change x ∷ xs else x ∷ update_first test change xs

  -- how many tasks pass a test
  abbrev pub count : (A → Bool) → List A → ℕ
  count test [] = 0
  count test (x ∷ xs) = (if test x then 1 else 0) + count test xs

  abbrev pub Every : (A → Type 0) → List A → Type 0
  Every P [] = Unit
  Every P (x ∷ xs) = P x × Every P xs

  pub find_first-holds :
      (test : A → Bool) (xs : List A) (x : A) → find_first test xs ≡ some x → test x ≡ true
  unfolding find_first
  find_first-holds test [] y h = cc
  find_first-holds test (x ∷ xs) y h = ground (arith, find_first-holds test xs y)

  pub length-update_first :
      (test : A → Bool) (change : A → A) (xs : List A)
      → length (update_first test change xs) ≡ length xs
  unfolding update_first
  length-update_first test change [] = refl
  length-update_first test change (x ∷ xs) = ground (arith, length-update_first test change xs)

  -- Nothing passes the test: the loop runs to the end and changes nothing.
  pub update_first-none :
      (test : A → Bool) (change : A → A) (xs : List A)
      → find_first test xs ≡ none
      → update_first test change xs ≡ xs
  unfolding find_first update_first
  update_first-none test change [] h = refl
  update_first-none test change (x ∷ xs) h = ground (arith, update_first-none test change xs)

  -- The count of tasks that pass `p`, where the changed task does not pass `p` before.
  pub count-update_first_up :
      (p test : A → Bool) (change : A → A) (xs : List A) (x : A)
      → ((a : A) → test a ≡ true → (p a ≡ false) × (p (change a) ≡ true))
      → find_first test xs ≡ some x
      → count p (update_first test change xs) ≡ count p xs + 1
  unfolding find_first update_first
  count-update_first_up p test change [] y h found = cc
  count-update_first_up p test change (x ∷ xs) y h found =
      ground (arith, h x, count-update_first_up p test change xs y h)

  -- Changes that leave `p` alone leave the count alone.
  pub count-update_first_same :
      (p test : A → Bool) (change : A → A) (xs : List A)
      → ((a : A) → test a ≡ true → p (change a) ≡ p a)
      → count p (update_first test change xs) ≡ count p xs
  unfolding update_first
  count-update_first_same p test change [] h = refl
  count-update_first_same p test change (x ∷ xs) h =
      ground (arith, h x, count-update_first_same p test change xs h)

  -- Changes that make no task pass `p` do not raise the count.
  pub count-update_first_le :
      (p test : A → Bool) (change : A → A) (xs : List A)
      → ((a : A) → p (change a) ≡ true → p a ≡ true)
      → count p (update_first test change xs) ≤ count p xs
  unfolding update_first
  count-update_first_le p test change [] h = omega arith
  count-update_first_le p test change (x ∷ xs) h =
      ground (arith, h x, count-update_first_le p test change xs h)

  pub count-map_le :
      (p : A → Bool) (change : A → A) (xs : List A)
      → ((a : A) → p (change a) ≡ true → p a ≡ true)
      → count p (map change xs) ≤ count p xs
  count-map_le p change [] h = omega arith
  count-map_le p change (x ∷ xs) h = ground (arith, h x, count-map_le p change xs h)

  pub length-map_lem : (change : A → A) (xs : List A) → length (map change xs) ≡ length xs
  length-map_lem change [] = refl
  length-map_lem change (x ∷ xs) = ap suc (length-map_lem change xs)

  pub count-map_same :
      (p : A → Bool) (change : A → A) (xs : List A)
      → ((a : A) → p (change a) ≡ p a)
      → count p (map change xs) ≡ count p xs
  count-map_same p change [] h = refl
  count-map_same p change (x ∷ xs) h = ground (arith, h x, count-map_same p change xs h)

  pub count-le-length : (p : A → Bool) (xs : List A) → count p xs ≤ length xs
  count-le-length p [] = omega arith
  count-le-length p (x ∷ xs) = ground (arith, count-le-length p xs)

  pub count_full :
      (p : A → Bool) (xs : List A) → count p xs ≡ length xs → Every (λ x. p x ≡ true) xs
  count_full p [] h = tt
  count_full p (x ∷ xs) h = ground (arith, count-le-length p xs, count_full p xs)

  pub full_count :
      (p : A → Bool) (xs : List A) → Every (λ x. p x ≡ true) xs → count p xs ≡ length xs
  full_count p [] h = refl
  full_count p (x ∷ xs) h = ground (arith, full_count p xs)

module _ {A : Type 0} {K : Type 0} (key : A → K) (p : A → Bool) where
  -- The tasks after a step, one by one: each keeps its `key`, and passes `p` if it did before.
  abbrev pub Evolves : List A → List A → Type 0
  Evolves [] [] = Unit
  Evolves (x ∷ xs) (y ∷ ys) = (key y ≡ key x) × (p x ≡ true → p y ≡ true) × Evolves xs ys
  Evolves _ _ = ⊥

  pub Evolves-refl : (xs : List A) → Evolves xs xs
  Evolves-refl [] = tt
  Evolves-refl (x ∷ xs) = (refl, λ h. h, Evolves-refl xs)

  pub Evolves-trans : (xs ys zs : List A) → Evolves xs ys → Evolves ys zs → Evolves xs zs
  Evolves-trans [] [] [] a b = tt
  Evolves-trans (x ∷ xs) (y ∷ ys) (z ∷ zs) a b =
      (b.0 ∙ a.0, λ h. b.1 (a.1 h), Evolves-trans xs ys zs a.2 b.2)
  Evolves-trans [] [] (z ∷ zs) a b = absurd b
  Evolves-trans [] (y ∷ ys) zs a b = absurd a
  Evolves-trans (x ∷ xs) [] zs a b = absurd a
  Evolves-trans (x ∷ xs) (y ∷ ys) [] a b = absurd b

  pub update_first-Evolves :
      (test : A → Bool) (change : A → A)
      → ((a : A) → key (change a) ≡ key a)
      → ((a : A) → test a ≡ true → p a ≡ true → p (change a) ≡ true)
      → (xs : List A) → Evolves xs (update_first test change xs)
  unfolding update_first
  update_first-Evolves test change same stays [] = tt
  update_first-Evolves test change same stays (x ∷ xs) = elim (Bool-cases (test x)) [
    | inl hit ↦ rw hit (same x, stays x hit, Evolves-refl xs)
    | inr miss ↦ rw miss (refl, λ h. h, update_first-Evolves test change same stays xs)
  ]

  pub map-Evolves :
      (change : A → A)
      → ((a : A) → key (change a) ≡ key a)
      → ((a : A) → p a ≡ true → p (change a) ≡ true)
      → (xs : List A) → Evolves xs (map change xs)
  map-Evolves change same stays [] = tt
  map-Evolves change same stays (x ∷ xs) = (same x, stays x, map-Evolves change same stays xs)
