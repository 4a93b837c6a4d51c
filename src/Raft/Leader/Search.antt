-- ===== src/Raft/Leader/Search.antt =====
-- lab3-D/raft.go: `BinarySearch`.
use cslearning.Prelude.{
  dec_lt, ◌&&◌, ℕ, zero, suc, ◌+◌, ◌-◌, ◌/◌, ◌≤◌, ◌<◌, ◌≡◌, ◌≢◌, refl, inl, inr, false, Option,
  none, some, List, length, ltb, leb, ◌==◌, Bool-cases, arith,
}
use cslearning.Raft.State.{Log, term_at}
use cslearning.Raft.Leader.{search_loop, found_at, search_run, binary_search}

-- The terms in a log never fall.
abbrev pub IsSorted : List Log → Type 0
IsSorted l = (i j : ℕ) → i ≤ j → j < length l → term_at l i ≤ term_at l j

-- `p` splits the log into terms up to `term` and terms above it.
record Splits (l : List Log) (term p : ℕ) : Type 0 where
  inside : p ≤ length l
  below : (i : ℕ) → i < p → term_at l i ≤ term
  above : (i : ℕ) → p ≤ i → i < length l → term < term_at l i

abbrev SplitsAt : List Log → ℕ → Option ℕ → Type 0
SplitsAt l term none = ⊥
SplitsAt l term (some p) = Splits l term p

record Window (l : List Log) (term lo hi : ℕ) : Type 0 where
  ordered : lo ≤ hi
  inside : hi ≤ length l
  below : (i : ℕ) → i < lo → term_at l i ≤ term
  above : (i : ℕ) → hi ≤ i → i < length l → term < term_at l i

module _ (l : List Log) (term : ℕ) (sorted : IsSorted l) where
  go_up :
      (lo hi : ℕ)
      → Window l term lo hi
      → lo < hi
      → term_at l (lo + (hi - lo) / 2) ≤ term
      → Window l term (lo + (hi - lo) / 2 + 1) hi
  go_up lo hi w h t = record {
    ordered = omega arith;
    inside = w.inside;
    below = λ i lt.
        omega (arith, sorted i (lo + (hi - lo) / 2) (omega arith) (omega (arith, w.inside)));
    above = w.above;
  }

  go_down :
      (lo hi : ℕ)
      → Window l term lo hi
      → lo < hi
      → term < term_at l (lo + (hi - lo) / 2)
      → Window l term lo (lo + (hi - lo) / 2)
  go_down lo hi w h t = record {
    ordered = omega arith;
    inside = omega (arith, w.inside);
    below = w.below;
    above = λ i le lt. omega (arith, sorted (lo + (hi - lo) / 2) i (omega arith) lt);
  }

  search_loop-Splits :
      (fuel lo hi : ℕ)
      → hi - lo < fuel
      → Window l term lo hi
      → SplitsAt l term (search_loop fuel l term lo hi)
  unfolding search_loop
  search_loop-Splits zero lo hi enough w = absurd (omega arith)
  search_loop-Splits (suc fuel) lo hi enough w = elim (Bool-cases (ltb lo hi)) [
    | inr over ↦ rw over (record {
      inside = omega (arith, w.ordered, w.inside);
      below = w.below;
      above = λ i le lt. w.above i (ground (arith, w.ordered)) lt;
    })
    | inl more ↦ rw more (elim (Bool-cases (leb (term_at l (lo + (hi - lo) / 2)) term)) [
      | inl up ↦ rw up (
          search_loop-Splits fuel (lo + (hi - lo) / 2 + 1) hi (ground arith)
            (go_up lo hi w (ground arith) (ground arith)))
      | inr down ↦ rw down (
          search_loop-Splits fuel lo (lo + (hi - lo) / 2) (ground arith)
            (go_down lo hi w (ground arith) (ground arith)))
    ])
  ]

-- What the caller may rely on.
abbrev pub Located : List Log → ℕ → Option ℕ → Type 0
Located l term (some p) =
    (0 < p)
    × (p ≤ length l)
    × (term_at l (p - 1) ≡ term)
    × ((i : ℕ) → p ≤ i → i < length l → term < term_at l i)
Located l term none = (i : ℕ) → i < length l → term_at l i ≢ term

found_at-Located :
    (l : List Log) (term p : ℕ) → IsSorted l → Splits l term p → Located l term (found_at l term p)
found_at-Located l term p sorted s = elim (Bool-cases (ltb 0 p && term_at l (p - 1) == term)) [
  | inl hit ↦ rw hit (ground arith, s.inside, ground arith, s.above)
  | inr miss ↦ rw miss (λ i lt e. elim (dec_lt i p) [
    | no past ↦ omega (arith, s.above i (omega arith) lt)
    | yes before ↦ omega (
      arith,
      last_differs miss (omega arith),
      s.below (p - 1) (omega arith),
      sorted i (p - 1) (omega arith) (omega (arith, s.inside)),
    )
  ])
]
  where
    last_differs : (ltb 0 p && term_at l (p - 1) == term) ≡ false → 0 < p → term_at l (p - 1) ≢ term
    last_differs miss h = ground arith

abbrev Ends : Option ℕ → Type 0
Ends none = ⊥
Ends (some p) = Unit

search_loop-Ends :
    (l : List Log) (term fuel lo hi : ℕ) → hi - lo < fuel → Ends (search_loop fuel l term lo hi)
unfolding search_loop
search_loop-Ends l term zero lo hi enough = absurd (omega arith)
search_loop-Ends l term (suc fuel) lo hi enough = elim (Bool-cases (ltb lo hi)) [
  | inr over ↦ rw over tt
  | inl more ↦ rw more (elim (Bool-cases (leb (term_at l (lo + (hi - lo) / 2)) term)) [
    | inl up ↦ rw up (search_loop-Ends l term fuel (lo + (hi - lo) / 2 + 1) hi (ground arith))
    | inr down ↦ rw down (search_loop-Ends l term fuel lo (lo + (hi - lo) / 2) (ground arith))
  ])
]

-- `search_run` and `binary_search` from what the loop comes to.
abbrev run_of : List Log → ℕ → Option ℕ → Option (Option ℕ)
run_of l term none = none
run_of l term (some lo) = some (found_at l term lo)

abbrev answer_of : Option (Option ℕ) → Option ℕ
answer_of none = none
answer_of (some answer) = answer

-- The fuel is enough on every log, sorted or not.
search_run-ends : (l : List Log) (term : ℕ) → search_run l term ≡ some (binary_search l term)
unfolding search_run binary_search
search_run-ends l term =
    ended (search_loop (suc (length l)) l term 0 (length l))
      (search_loop-Ends l term (suc (length l)) 0 (length l) (omega arith))
  where
    ended : (o : Option ℕ) → Ends o → run_of l term o ≡ some (answer_of (run_of l term o))
    ended none e = absurd e
    ended (some p) e = refl

search-Located : (l : List Log) (term : ℕ) → IsSorted l → Located l term (binary_search l term)
unfolding search_run binary_search
search-Located l term sorted = found (search_loop (suc (length l)) l term 0 (length l)) (
    search_loop-Splits l term sorted (suc (length l)) 0 (length l) (omega arith) (record {
      ordered = omega arith;
      inside = omega arith;
      below = λ i lt. absurd (omega arith);
      above = λ i le lt. absurd (omega arith);
    }))
  where
    found : (o : Option ℕ) → SplitsAt l term o → Located l term (answer_of (run_of l term o))
    found none s = absurd s
    found (some p) s = found_at-Located l term p sorted s

-- On a log whose terms never fall, the loop of `BinarySearch` ends within its fuel, of one more than
-- the log's length, and with it the search has an answer, which is the position just behind the
-- last entry of the term, or -1 (`none`) exactly when no entry has it.
pub binary_search-Located :
    (l : List Log) (term : ℕ)
    → IsSorted l
    → (search_run l term ≡ some (binary_search l term)) × Located l term (binary_search l term)
binary_search-Located l term sorted = (search_run-ends l term, search-Located l term sorted)
