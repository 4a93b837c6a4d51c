-- ===== src/MapReduce/Worker/Partition.antt =====
-- Mit6824/lab1/worker.go: the files that a map task leaves.
use native.Mathlib.Nat.{mod-lt}
use cslearning.Prelude.{
  ℕ, zero, suc, ◌+◌, ◌-◌, ◌%◌, ◌<◌, ◌≡◌, refl, sym, ap, subst, ◌∙◌, inl, inr, Bool, true, false,
  String, Option, none, some, List, [], ◌∷◌, ◌++◌, if◌then◌else◌, length, get_or, set, replicate,
  length-set, length-replicate, Bool-cases, ltb, leb, ◌==◌, ◌&&◌, done, append-nil, append_assoc,
  Returns, Returns_imp, Returns-bind, arith,
}
use cslearning.MapReduce.Messages.{Args, Reply, succeed}
use cslearning.MapReduce.Worker.{
  Bytes, KeyValue, ihash, Disk, MapIo, append_at, emit, write_mid, rename_all, map_ends, do_map,
}

-- What is written of the pairs of reduce task `i` among `n`, in order: `write` says what can be read
-- back of a pair.
abbrev pub bucket : (KeyValue → KeyValue) → ℕ → ℕ → List KeyValue → List KeyValue
bucket write n i [] = []
bucket write n i (kv ∷ kva) =
    if ihash kv.key % n == i then write kv ∷ bucket write n i kva else bucket write n i kva

get_or-set :
    (xs : List (List KeyValue)) (i j : ℕ) (v : List KeyValue)
    → i < length xs
    → get_or (set xs i v) j [] ≡ (if i == j then v else get_or xs j [])
get_or-set [] i j v h = absurd (omega arith)
get_or-set (x ∷ xs) zero zero v h = refl
get_or-set (x ∷ xs) zero (suc j) v h = ground arith
get_or-set (x ∷ xs) (suc i) zero v h = ground arith
get_or-set (x ∷ xs) (suc i) (suc j) v h = ground (arith, get_or-set xs i j v)

pub get_or-replicate : (n i : ℕ) → get_or {A = List KeyValue} (replicate n []) i [] ≡ []
get_or-replicate zero i = refl
get_or-replicate (suc n) zero = refl
get_or-replicate (suc n) (suc i) = get_or-replicate n i

-- What `emit` leaves where nothing fails: to each file its bucket is added.
abbrev pub Emitted :
    (KeyValue → KeyValue)
    → ℕ
    → List KeyValue
    → List (List KeyValue)
    → Option (List (List KeyValue))
    → Type 0
Emitted write n kva files none = ⊥
Emitted write n kva files (some files') =
    (length files' ≡ n)
    × ((i : ℕ) → i < n → get_or files' i [] ≡ get_or files i [] ++ bucket write n i kva)

-- A pair joins the bucket of its file.
append_at-bucket :
    (write : KeyValue → KeyValue) (n i : ℕ) (kv : KeyValue) (kva : List KeyValue)
    (files : List (List KeyValue))
    → ihash kv.key % n < length files
    → get_or (append_at (ihash kv.key % n) (write kv) files) i [] ++ bucket write n i kva
      ≡ get_or files i [] ++ bucket write n i (kv ∷ kva)
append_at-bucket write n i kv kva files lt = elim (Bool-cases (at == i)) [
  | inl same ↦
      rw (get_or-set files at i (get_or files at [] ++ write kv ∷ []) lt, same)
        (append_assoc (get_or files at []) (write kv ∷ []) (bucket write n i kva)
          ∙ ap (λ j. get_or files j [] ++ write kv ∷ bucket write n i kva) (equal same))
  | inr other ↦ rw (get_or-set files at i (get_or files at [] ++ write kv ∷ []) lt, other) refl
]
  where
    at : ℕ
    at = ihash kv.key % n

    equal : (at == i) ≡ true → at ≡ i
    equal h = ground arith

pub emit-Emitted :
    (write : KeyValue → KeyValue) (ok : KeyValue → Option KeyValue) (n : ℕ) (kva : List KeyValue)
    (files : List (List KeyValue))
    → ((kv : KeyValue) → ok kv ≡ some (write kv))
    → 0 < n
    → length files ≡ n
    → Returns (emit ok n kva files) (Emitted write n kva files)
unfolding emit
emit-Emitted write ok n [] files fine above size =
    (size, λ i lt. sym (append-nil (get_or files i [])))
emit-Emitted write ok n (kv ∷ kva) files fine above size =
    rw (positive, fine kv)
      (Returns_imp (Emitted write n kva (append_at at (write kv) files))
        (Emitted write n (kv ∷ kva) files) (emit ok n kva (append_at at (write kv) files)) grow
        (emit-Emitted write ok n kva (append_at at (write kv) files) fine above
          (length-set files at (get_or files at [] ++ write kv ∷ []) ∙ size)))
  where
    positive : (n == 0) ≡ false
    positive = ground arith

    at : ℕ
    at = ihash kv.key % n

    grow :
        (o : Option (List (List KeyValue)))
        → Emitted write n kva (append_at at (write kv) files) o
        → Emitted write n (kv ∷ kva) files o
    grow none h = h
    grow (some files') h = (
      h.0,
      λ i lt.
          h.1 i lt
          ∙ append_at-bucket write n i kv kva files (omega (arith, mod-lt (ihash kv.key) above)),
    )

-- The renamed files, from the `i`th of task `t` on, are the disk's; the others are as before.
abbrev pub Renamed : ℕ → ℕ → List (List KeyValue) → Disk → Disk → Type 0
Renamed t i files d d' =
    (a b : ℕ)
    → d'.mid a b ≡ (
        if a == t && leb i b && ltb b (i + length files)
        then some (get_or files (b - i) [])
        else d.mid a b)

pub rename_all-mid :
    (ok : ℕ → Bool) (t i : ℕ) (files : List (List KeyValue)) (d : Disk)
    → ((j : ℕ) → ok j ≡ true)
    → Returns (rename_all ok t i files d) (Renamed t i files d)
unfolding rename_all
rename_all-mid ok t i [] d fine = λ a b. ground arith
rename_all-mid ok t i (kvs ∷ files) d fine = rw (fine i) (
    Returns_imp (Renamed t (i + 1) files (write_mid t i kvs d)) (Renamed t i (kvs ∷ files) d)
      (rename_all ok t (i + 1) files (write_mid t i kvs d)) (λ d' h a b. h a b ∙ here a b)
      (rename_all-mid ok t (i + 1) files (write_mid t i kvs d) fine))
  where
    gone : {b : ℕ} → b ≡ i → b - i ≡ 0
    gone e = omega arith

    one_more : {b : ℕ} → i < b → b - i ≡ suc (b - (i + 1))
    one_more lt = omega arith

    first : (b : ℕ) → b ≡ i → get_or (kvs ∷ files) (b - i) [] ≡ kvs
    first b e = subst (λ m. get_or (kvs ∷ files) m [] ≡ kvs) (sym (gone e)) refl

    later : (b : ℕ) → i < b → get_or (kvs ∷ files) (b - i) [] ≡ get_or files (b - (i + 1)) []
    later b lt =
        subst (λ m. get_or (kvs ∷ files) m [] ≡ get_or files (b - (i + 1)) []) (sym (one_more lt))
          refl

    here :
        (a b : ℕ)
        → (if a == t && leb (i + 1) b && ltb b (i + 1 + length files)
            then some (get_or files (b - (i + 1)) [])
            else (write_mid t i kvs d).mid a b)
          ≡ (if a == t && leb i b && ltb b (i + length (kvs ∷ files))
              then some (get_or (kvs ∷ files) (b - i) [])
              else d.mid a b)
    here a b = ground (arith, first b, later b)

-- What a map task that succeeds reports and leaves.
abbrev pub Mapped : (KeyValue → KeyValue) → ℕ → ℕ → List KeyValue → Disk → Args × Disk → Type 0
Mapped write n t kva d x =
    (x.0.execute_type ≡ 2)
    × ((a b : ℕ)
        → x.1.mid a b ≡ (if a == t && ltb b n then some (bucket write n b kva) else d.mid a b))

pub map_ends-Mapped :
    (write : KeyValue → KeyValue) (io : MapIo) (reply : Reply) (args : Args) (d : Disk)
    (kva : List KeyValue) (o : Option (List (List KeyValue)))
    → ((j : ℕ) → io.renames j ≡ true)
    → Emitted write reply.n_reduce kva (replicate reply.n_reduce []) o
    → Returns (map_ends io reply args d o) (Mapped write reply.n_reduce reply.map_id kva d)
unfolding map_ends succeed
map_ends-Mapped write io reply args d kva none fine h = absurd h
map_ends-Mapped write io reply args d kva (some files) fine h =
    Returns-bind (Renamed t 0 files d) (Mapped write n t kva d) (rename_all io.renames t 0 files d)
      (λ d'. done (succeed args, d')) (rename_all-mid io.renames t 0 files d fine)
      (λ d' r. (refl, λ a b. r a b ∙ ground (arith, h.0, filled b)))
  where
    n : ℕ
    n = reply.n_reduce

    t : ℕ
    t = reply.map_id

    filled : (b : ℕ) → b < n → get_or files (b - 0) [] ≡ bucket write n b kva
    filled b lt =
        subst (λ m. get_or files m [] ≡ bucket write n b kva) (omega arith)
          (h.1 b lt ∙ ap (λ l. l ++ bucket write n b kva) (get_or-replicate n b))

-- A map task for at least one reduce task, whose file can be read, and whose writes and renames
-- succeed, returns and reports success, and leaves for each reduce task one intermediate file.
-- The decoder reads from it, in order, exactly what the encoder has written (`write kv`) of each
-- pair `kv` of `mapf`'s result whose key hashes to that reduce task. It touches no other
-- intermediate file.
pub do_map_partitions :
    (mapf : String → Bytes → List KeyValue) (write : KeyValue → KeyValue) (io : MapIo)
    (reply : Reply) (args : Args) (d : Disk) (content : Bytes)
    → io.content ≡ some content
    → io.creates ≡ true
    → ((kv : KeyValue) → io.encodes kv ≡ some (write kv))
    → ((j : ℕ) → io.renames j ≡ true)
    → 0 < reply.n_reduce
    → Returns
        (do_map mapf io reply args d)
        (Mapped write reply.n_reduce reply.map_id (mapf reply.filename content) d)
unfolding do_map
do_map_partitions mapf write io reply args d content reads creates encodes renames above =
    let n = reply.n_reduce in
    let kva = mapf reply.filename content in
    rw (reads, creates)
      (Returns-bind (Emitted write n kva (replicate n [])) (Mapped write n reply.map_id kva d)
        (emit io.encodes n kva (replicate n []))
        (map_ends io reply (record args { flag = 1; map_id = reply.map_id }) d)
        (emit-Emitted write io.encodes n kva (replicate n []) encodes above (length-replicate n []))
        (λ o h.
          map_ends-Mapped write io reply (record args { flag = 1; map_id = reply.map_id }) d kva o
            renames h))
