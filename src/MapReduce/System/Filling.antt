-- ===== src/MapReduce/System/Filling.antt =====
-- Mit6824/lab1/worker.go: a map task fills its own intermediate files, all of them or some.
use cslearning.Prelude.{
  ℕ, zero, suc, ◌+◌, ◌-◌, ◌<◌, ◌≤◌, ◌≡◌, refl, ap, subst, ◌∙◌, ◌⊎◌, inl, inr, true, ltb, leb, some,
  List, [], ◌∷◌, ◌++◌, ◌&&◌, ◌==◌, Bool-cases, done, length, get_or, take, replicate,
  length-replicate, arith, Returns-elim, OnReturn-elim,
}
use cslearning.MapReduce.Messages.{Args}
use cslearning.MapReduce.Worker.{KeyValue, Disk, emit, rename_all}
use cslearning.MapReduce.Worker.Partition.{
  bucket, Emitted, emit-Emitted, Renamed, rename_all-mid, Mapped, get_or-replicate,
}
use cslearning.MapReduce.System.Mapping.{rename_all-out}

-- Some files of task `t` have got their pairs; the others are as they were.
abbrev pub Fills : (KeyValue → KeyValue) → ℕ → ℕ → List KeyValue → Disk → Disk → Type 0
Fills write n t kva d d' =
    (a b : ℕ)
    → (d'.mid a b ≡ d.mid a b) ⊎ ((a ≡ t) × (b < n) × (d'.mid a b ≡ some (bucket write n b kva)))

pub Mapped-Fills :
    (write : KeyValue → KeyValue) (n t : ℕ) (kva : List KeyValue) (d : Disk) (x : Args × Disk)
    → Mapped write n t kva d x
    → Fills write n t kva d x.1
Mapped-Fills write n t kva d x (_, files) a b = elim (Bool-cases (a == t && ltb b n)) [
  | inl own ↦ inr (ground arith, ground arith, files a b ∙ rw own refl)
  | inr other ↦ inl (files a b ∙ rw other refl)
]

take-length : (k : ℕ) (files : List (List KeyValue)) → length (take k files) ≤ length files
take-length zero files = omega arith
take-length (suc k) [] = omega arith
take-length (suc k) (x ∷ files) = ground (arith, take-length k files)

get_or-take :
    (k i : ℕ) (files : List (List KeyValue))
    → i < length (take k files)
    → get_or (take k files) i [] ≡ get_or files i []
get_or-take zero i files h = absurd (omega arith)
get_or-take (suc k) i [] h = absurd (omega arith)
get_or-take (suc k) zero (x ∷ files) h = refl
get_or-take (suc k) (suc i) (x ∷ files) h = get_or-take k i files (omega (arith, h))

-- After a worker has renamed the first files of its task.
pub some-Fills :
    (write : KeyValue → KeyValue) (n t k : ℕ) (kva : List KeyValue) (made : List (List KeyValue))
    (d d' : Disk)
    → 0 < n
    → emit (λ kv. some (write kv)) n kva (replicate n []) ≡ done (some made)
    → rename_all (λ i. true) t 0 (take k made) d ≡ done d'
    → Fills write n t kva d d' × (d'.out ≡ d.out)
some-Fills write n t k kva made d d' above e r = (
  fills,
  OnReturn-elim (λ x. x.out ≡ d.out) _ _ (rename_all-out (λ i. true) t 0 (take k made) d) r,
)
  where
    emitted : Emitted write n kva (replicate n []) (some made)
    emitted =
        Returns-elim (Emitted write n kva (replicate n [])) _ _
          (emit-Emitted write (λ kv. some (write kv)) n kva (replicate n []) (λ kv. refl) above
            (length-replicate n []))
          e

    renamed : Renamed t 0 (take k made) d d'
    renamed =
        Returns-elim (Renamed t 0 (take k made) d) _ _
          (rename_all-mid (λ i. true) t 0 (take k made) d (λ i. refl)) r

    full :
        (b : ℕ) → b < length (take k made) → get_or (take k made) (b - 0) [] ≡ bucket write n b kva
    full b lt =
        subst (λ m. get_or (take k made) m [] ≡ bucket write n b kva) (omega arith)
          (get_or-take k b made lt
            ∙ emitted.1 b (omega (arith, lt, take-length k made, emitted.0))
            ∙ ap (λ l. l ++ bucket write n b kva) (get_or-replicate n b))

    small :
        (b : ℕ)
        → (a : ℕ) → (a == t && leb 0 b && ltb b (0 + length (take k made))) ≡ true
        → b < length (take k made)
    small b a own = ground arith

    fills : Fills write n t kva d d'
    fills a b = elim (Bool-cases (a == t && leb 0 b && ltb b (0 + length (take k made)))) [
      | inl own ↦ inr (
        ground arith,
        omega (arith, small b a own, take-length k made, emitted.0),
        renamed a b ∙ rw own (ap some (full b (small b a own))),
      )
      | inr other ↦ inl (renamed a b ∙ rw other refl)
    ]
