-- ===== src/MapReduce/System/Results.antt =====
-- Mit6824/lab1/worker.go: what the work of a worker comes to in a job.
use cslearning.Prelude.{
  ℕ, ◌<◌, ◌≡◌, refl, sym, ap, subst, ◌∙◌, inl, inr, Bool, true, false, some, List, length,
  get_elem?, ◌==◌, if◌then◌else◌, ◌&&◌, ltb, Option, Bool-cases, arith, OnReturn, OnReturn_imp,
  ℕ_discrete,
}
use cslearning.MapReduce.Messages.{Args, Reply, wanned, succeed}
use cslearning.MapReduce.Worker.{Bytes, KeyValue, Disk, MapIo, do_map, do_reduce, work}
use cslearning.MapReduce.Worker.Partition.{bucket, Mapped}
use cslearning.MapReduce.Worker.Job.{Sorts, contents, Reduced}
use cslearning.MapReduce.System.{Job, pairs, blank_args}
use cslearning.MapReduce.System.Mapping.{Encodes, MapLeaves, do_map-MapLeaves}
use cslearning.MapReduce.System.Filling.{Fills, Mapped-Fills}
use cslearning.MapReduce.System.Reducing.{ReduceLeaves, do_reduce-ReduceLeaves}
use cslearning.MapReduce.System.Invariant.{part, Filled, share, Made, Keeps, GoodReply, GoodArgs}

module _ (job : Job) where
  Keeps-refl : (d : Disk) → Keeps job d d
  Keeps-refl d = record { mids = λ i j h. h; outs = λ j h. h }

  Made-same : (d d' : Disk) (j : ℕ) → d'.out j ≡ d.out j → Made job d j → Made job d' j
  Made-same d d' j same (lines, e, all) = (lines, same ∙ e, all)

  pub Fills-Keeps :
      (t : ℕ) (kva : List KeyValue) (d d' : Disk)
      → kva ≡ pairs job t
      → Fills job.written job.n_reduce t kva d d'
      → d'.out ≡ d.out
      → Keeps job d d'
  Fills-Keeps t kva d d' own fills same = record {
    mids = λ i j h. elim (fills i j) [
      | inl kept ↦ kept ∙ h
      | inr (e, lt, new) ↦
          new ∙ ap (λ l. some (bucket job.written job.n_reduce j l)) (own ∙ ap (pairs job) (sym e))
    ];
    outs = λ j. Made-same d d' j (ap (λ f. f j) same);
  }

  -- what the work of a worker comes to
  abbrev pub Result : Disk → Args × Disk → Type 0
  Result d x = Keeps job d x.1 × (x.0.execute_type ≡ 2 → GoodArgs job x.1 x.0)

  Mapped-Filled :
      (t : ℕ) (kva : List KeyValue) (d : Disk) (x : Args × Disk) (j : ℕ)
      → kva ≡ pairs job t
      → j < job.n_reduce
      → Mapped job.written job.n_reduce t kva d x
      → Filled job x.1 t j
  Mapped-Filled t kva d x j own lt (_, files) =
      files t j
      ∙ if_true (t == t && ltb j job.n_reduce) _ _ (ground arith)
      ∙ ap (λ l. some (bucket job.written job.n_reduce j l)) own
    where
      if_true : (b : Bool) (u v : Option (List KeyValue)) → b ≡ true → (if b then u else v) ≡ u
      if_true true u v h = refl
      if_true false u v h = cc

  Reduced-Made :
      (j : ℕ) (x : Args × Disk) → Reduced job.reducef j (job.sort (share job j)) x → Made job x.1 j
  Reduced-Made j x (_, lines, e, all) = (lines, e, all)

  map-Result :
      (t : ℕ) (kva : List KeyValue) (d : Disk) (x : Args × Disk)
      → kva ≡ pairs job t
      → MapLeaves job.written job.n_reduce t kva d x
      → Result d x
  map-Result t kva d x own leaves = (
    elim leaves.wrote [
      | inl same ↦ subst (Keeps job d) (sym same) (Keeps-refl d)
      | inr mapped ↦
          Fills-Keeps t kva d x.1 own (Mapped-Fills job.written job.n_reduce t kva d x mapped)
            leaves.same_out
    ],
    λ well. record {
      of_map = λ h j lt.
          subst (λ a. Filled job x.1 a j) (sym leaves.named)
            (Mapped-Filled t kva d x j own lt (leaves.reported well));
      of_reduce = λ h. absurd (omega (arith, h, leaves.flagged));
    },
  )

  reduce-Result :
      (j : ℕ) (d : Disk) (x : Args × Disk)
      → ReduceLeaves job.reducef j (job.sort (share job j)) d x
      → Result d x
  reduce-Result j d x leaves = (
    record {
      mids = λ a b h. ap (λ f. f a b) leaves.same_mid ∙ h;
      outs = λ i. elim (ℕ_discrete i j) [
        | yes same ↦ λ h. subst (Made job x.1) (sym same) (elim leaves.wrote [
          | inl idle ↦ subst (λ y. Made job y j) (sym idle) (subst (Made job d) same h)
          | inr made ↦ Reduced-Made j x made
        ])
        | no other ↦ Made-same d x.1 i (leaves.others i other)
      ];
    },
    λ well. record {
      of_map = λ h. absurd (omega (arith, h, leaves.flagged));
      of_reduce =
          λ h. subst (Made job x.1) (sym leaves.named) (Reduced-Made j x (leaves.reported well));
    },
  )

module _ (job : Job) (sorts : Sorts job.sort) (above : 0 < job.n_reduce) where
  pub own_pairs :
      (reply : Reply)
      → get_elem? job.files reply.map_id ≡ some reply.filename
      → job.mapf reply.filename (job.inputs reply.filename) ≡ pairs job reply.map_id
  own_pairs reply e = rw (e, pairs) refl

  idle-Result : (d : Disk) → Result job d (succeed (wanned blank_args), d)
  unfolding succeed wanned
  idle-Result d = (
    Keeps-refl job d,
    λ well. record {
      of_map = λ h. absurd (omega (arith, h));
      of_reduce = λ h. absurd (omega (arith, h));
    },
  )

  pub work-Result :
      (reply : Reply) (io : MapIo) (calls : Bool × Bool) (d : Disk)
      → GoodReply job d reply
      → Encodes job.written io.encodes
      → ((content : Bytes) → io.content ≡ some content → content ≡ job.inputs reply.filename)
      → OnReturn
          (work job.mapf job.reducef job.sort io calls reply (wanned blank_args) d)
          (Result job d)
  unfolding work
  work-Result reply io calls d good exact reads = elim (Bool-cases (reply.flag == 1)) [
    | inl mapping ↦ rw mapping (by_map (good.of_map (ground arith)))
    | inr other ↦ rw other (elim (Bool-cases (reply.flag == 2)) [
      | inl reducing ↦ rw reducing (by_reduce (good.of_reduce (ground arith)))
      | inr idle ↦ rw idle (idle-Result d)
    ])
  ]
    where
      by_map :
          (reply.n_reduce ≡ job.n_reduce) × (get_elem? job.files reply.map_id ≡ some reply.filename)
          → OnReturn (do_map job.mapf io reply (wanned blank_args) d) (Result job d)
      by_map (n, e) =
          let kva = job.mapf reply.filename (job.inputs reply.filename) in
          OnReturn_imp (MapLeaves job.written reply.n_reduce reply.map_id kva d) (Result job d)
            (do_map job.mapf io reply (wanned blank_args) d)
            (λ x leaves.
              map-Result job reply.map_id kva d x (own_pairs reply e)
                (subst (λ m. MapLeaves job.written m reply.map_id kva d x) n leaves))
            (do_map-MapLeaves job.mapf job.written io reply (wanned blank_args) d
              (job.inputs reply.filename) exact reads (omega (arith, n, above)))

      by_reduce :
          (reply.n_task ≡ length job.files)
            × ((i : ℕ) → i < length job.files → Filled job d i reply.reduce_id)
          → OnReturn
              (do_reduce job.reducef job.sort calls.0 calls.1 reply (wanned blank_args) d)
              (Result job d)
      by_reduce (m, there) =
          let j = reply.reduce_id in
          OnReturn_imp
            (ReduceLeaves job.reducef j (job.sort (contents (λ i. part job i j) 0 reply.n_task)) d)
            (Result job d)
            (do_reduce job.reducef job.sort calls.0 calls.1 reply (wanned blank_args) d)
            (λ x leaves. reduce-Result job j d x (
              subst
                (λ k. ReduceLeaves job.reducef j (job.sort (contents (λ i. part job i j) 0 k)) d x)
                m leaves))
            (do_reduce-ReduceLeaves job.reducef job.sort calls.0 calls.1 reply (wanned blank_args) d
              (λ i. part job i j) sorts (λ i lt. there i (omega (arith, lt, m))))
