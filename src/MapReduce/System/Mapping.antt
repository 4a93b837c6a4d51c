-- ===== src/MapReduce/System/Mapping.antt =====
-- Mit6824/lab1/worker.go: what a map task does to the disk, whether or not its system calls succeed.
use cslearning.Prelude.{
  ℕ, ◌+◌, ◌%◌, ◌<◌, ◌≡◌, refl, ap, subst, ◌⊎◌, inl, inr, Bool, true, ltb, not, String, Option, none,
  some, List, [], ◌∷◌, ◌&&◌, if◌then◌else◌, Bool-cases, Option-cases, Run-cases, done, panic, ◌>>=◌,
  replicate, length-replicate, arith, Returns-elim, OnReturn, OnReturn-elim,
}
use cslearning.MapReduce.Messages.{Args, Reply, failed, succeed}
use cslearning.MapReduce.Worker.{
  Bytes, KeyValue, append_at, ihash, Disk, MapIo, emit, rename_all, write_mid, map_ends, do_map,
}
use cslearning.MapReduce.Worker.Partition.{Emitted, emit-Emitted, Mapped, map_ends-Mapped}

panic_done : {A : Type 0} {a : A} → panic ≡ done a → ⊥
panic_done h = cc

-- An encoder that fails, or writes of a pair what `write` says.
abbrev pub Encodes : (KeyValue → KeyValue) → (KeyValue → Option KeyValue) → Type 0
Encodes write ok = (kv : KeyValue) → (ok kv ≡ none) ⊎ (ok kv ≡ some (write kv))

-- A result of the loop over the pairs does not depend on the encoder.
emit_fine :
    (write : KeyValue → KeyValue) (ok : KeyValue → Option KeyValue) (n : ℕ) (kva : List KeyValue)
    (files made : List (List KeyValue))
    → Encodes write ok
    → emit ok n kva files ≡ done (some made)
    → emit (λ kv. some (write kv)) n kva files ≡ done (some made)
unfolding emit
emit_fine write ok n [] files made exact h = h
emit_fine write ok n (kv ∷ kva) files made exact h = elim (exact kv) [
  | inl fails ↦ ground (arith, h, fails)
  | inr writes ↦ ground (
    arith,
    h,
    writes,
    emit_fine write ok n kva (append_at (ihash kv.key % n) (write kv) files) made exact,
  )
]

rename_fine :
    (ok : ℕ → Bool) (t i : ℕ) (files : List (List KeyValue)) (d d' : Disk)
    → rename_all ok t i files d ≡ done d'
    → rename_all (λ j. true) t i files d ≡ done d'
unfolding rename_all
rename_fine ok t i [] d d' h = h
rename_fine ok t i (kvs ∷ files) d d' h = elim (Bool-cases (ok i)) [
  | inl fine ↦ rename_fine ok t (i + 1) files (write_mid t i kvs d) d' (
      subst
        (λ b. (if b then rename_all ok t (i + 1) files (write_mid t i kvs d) else panic) ≡ done d')
        fine h)
  | inr bad ↦ absurd (
      panic_done (
        subst
          (λ b.
            (if b then rename_all ok t (i + 1) files (write_mid t i kvs d) else panic) ≡ done d')
          bad h))
]

pub rename_all-out :
    (ok : ℕ → Bool) (t i : ℕ) (files : List (List KeyValue)) (d : Disk)
    → OnReturn (rename_all ok t i files d) (λ d'. d'.out ≡ d.out)
unfolding rename_all
rename_all-out ok t i [] d = refl
rename_all-out ok t i (kvs ∷ files) d = elim (Bool-cases (ok i)) [
  | inl fine ↦ rw fine (rename_all-out ok t (i + 1) files (write_mid t i kvs d))
  | inr bad ↦ rw bad tt
]

-- What a map task leaves: other files are as they were, and if it reports success, then each of its
-- files is there.
pub record MapLeaves (write : KeyValue → KeyValue) (n t : ℕ) (kva : List KeyValue) (d : Disk)
    (x : Args × Disk) : Type 0 where
  pub same_out : x.1.out ≡ d.out
  pub flagged : x.0.flag ≡ 1
  pub named : x.0.map_id ≡ t
  pub wrote : (x.1 ≡ d) ⊎ Mapped write n t kva d x
  pub reported : x.0.execute_type ≡ 2 → Mapped write n t kva d x

fail_leaves :
    (write : KeyValue → KeyValue) (n t : ℕ) (kva : List KeyValue) (args : Args) (d : Disk)
    → args.flag ≡ 1
    → args.map_id ≡ t
    → MapLeaves write n t kva d (failed args, d)
unfolding failed
fail_leaves write n t kva args d f m = record {
  same_out = refl;
  flagged = f;
  named = m;
  wrote = inl refl;
  reported = λ h. absurd (ground arith);
}

map_ends-MapLeaves :
    (write : KeyValue → KeyValue) (io : MapIo) (reply : Reply) (args : Args) (d : Disk)
    (kva : List KeyValue) (o : Option (List (List KeyValue)))
    → args.flag ≡ 1
    → args.map_id ≡ reply.map_id
    → (o ≡ none) ⊎ Emitted write reply.n_reduce kva (replicate reply.n_reduce []) o
    → OnReturn (map_ends io reply args d o) (MapLeaves write reply.n_reduce reply.map_id kva d)
unfolding map_ends
map_ends-MapLeaves write io reply args d kva none f m h =
    fail_leaves write reply.n_reduce reply.map_id kva args d f m
map_ends-MapLeaves write io reply args d kva (some files) f m (inl h) = cc
map_ends-MapLeaves write io reply args d kva (some files) f m (inr h) =
    elim (Run-cases (rename_all io.renames t 0 files d)) [
      | inl stuck ↦ rw stuck tt
      | inr (d', e) ↦ rw e (leaves d' e (full d' e))
    ]
  where
    t : ℕ
    t = reply.map_id

    full :
        (d' : Disk)
        → rename_all io.renames t 0 files d ≡ done d'
        → Mapped write reply.n_reduce t kva d (succeed args, d')
    full d' e =
        Returns-elim (Mapped write reply.n_reduce t kva d) _ _
          (map_ends-Mapped write (record io { renames = λ j. true }) reply args d kva (some files)
            (λ j. refl) h)
          (ap (λ r. r >>= λ x. done (succeed args, x)) (rename_fine io.renames t 0 files d d' e))

    leaves :
        (d' : Disk)
        → rename_all io.renames t 0 files d ≡ done d'
        → Mapped write reply.n_reduce t kva d (succeed args, d')
        → MapLeaves write reply.n_reduce t kva d (succeed args, d')
    leaves d' e mapped = record {
      same_out = OnReturn-elim (λ x. x.out ≡ d.out) _ _ (rename_all-out io.renames t 0 files d) e;
      flagged = f;
      named = m;
      wrote = inr mapped;
      reported = λ h. mapped;
    }

pub do_map-MapLeaves :
    (mapf : String → Bytes → List KeyValue) (write : KeyValue → KeyValue) (io : MapIo)
    (reply : Reply) (args : Args) (d : Disk) (content : Bytes)
    → Encodes write io.encodes
    → ((c : Bytes) → io.content ≡ some c → c ≡ content)
    → 0 < reply.n_reduce
    → OnReturn
        (do_map mapf io reply args d)
        (MapLeaves write reply.n_reduce reply.map_id (mapf reply.filename content) d)
unfolding do_map
do_map-MapLeaves mapf write io reply args d content exact reads above =
    elim (Option-cases io.content) [
      | inl lost ↦ rw lost (
          fail_leaves write reply.n_reduce reply.map_id _
            (record args { flag = 1; map_id = reply.map_id }) d refl refl)
      | inr (c, e) ↦
          rw (e, reads c e)
            (elim (Bool-cases (not io.creates && ltb 0 reply.n_reduce)) [
              | inl stuck ↦ rw stuck tt
              | inr on ↦
                  rw on
                    (elim (Run-cases (
                      emit io.encodes reply.n_reduce (mapf reply.filename content)
                        (replicate reply.n_reduce []))) [
                          | inl out_of_range ↦ rw out_of_range tt
                          | inr (o, made) ↦ rw made (
                              map_ends-MapLeaves write io reply
                                (record args { flag = 1; map_id = reply.map_id }) d
                                (mapf reply.filename content) o refl refl (emitted o made))
                        ])
            ])
    ]
  where
    emitted :
        (o : Option (List (List KeyValue)))
        → emit io.encodes reply.n_reduce (mapf reply.filename content) (replicate reply.n_reduce [])
          ≡ done o
        → (o ≡ none)
          ⊎ Emitted write reply.n_reduce
              (mapf reply.filename content)
              (replicate reply.n_reduce [])
              o
    emitted none made = inl refl
    emitted (some files) made = inr (
        Returns-elim
          (Emitted write reply.n_reduce (mapf reply.filename content) (replicate reply.n_reduce []))
          _ _
          (emit-Emitted write (λ kv. some (write kv)) reply.n_reduce (mapf reply.filename content)
            (replicate reply.n_reduce []) (λ kv. refl) above (length-replicate reply.n_reduce []))
          (emit_fine write io.encodes reply.n_reduce (mapf reply.filename content)
            (replicate reply.n_reduce []) files exact made))
