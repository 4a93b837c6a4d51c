-- ===== src/MapReduce/System/Reducing.antt =====
-- Mit6824/lab1/worker.go: what a reduce task does to the disk, whether or not its system calls succeed.
use cslearning.Prelude.{
  ℕ, ◌<◌, ◌≡◌, ◌≢◌, refl, ◌⊎◌, inl, inr, Bool, true, false, some, List, [], arith, Returns-elim,
  OnReturn, OnReturn-elim, Run-cases,
}
use cslearning.MapReduce.Messages.{Args, Reply, failed, succeed}
use cslearning.MapReduce.Worker.{Bytes, KeyValue, Disk, read_all, do_reduce}
use cslearning.MapReduce.Worker.Job.{Sorts, contents, read_all-contents, Reduced, do_reduce_once}

pub record ReduceLeaves (reducef : Bytes → List Bytes → Bytes) (j : ℕ) (sorted : List KeyValue)
    (d : Disk) (x : Args × Disk) : Type 0 where
  pub same_mid : x.1.mid ≡ d.mid
  pub others : (i : ℕ) → i ≢ j → x.1.out i ≡ d.out i
  pub flagged : x.0.flag ≡ 2
  pub named : x.0.reduce_id ≡ j
  pub wrote : (x.1 ≡ d) ⊎ Reduced reducef j sorted x
  pub reported : x.0.execute_type ≡ 2 → Reduced reducef j sorted x

-- Whatever the files hold, a reduce task changes no more than its own output.
abbrev Frame : ℕ → Disk → Args × Disk → Type 0
Frame j d x =
    (x.1.mid ≡ d.mid)
    × ((i : ℕ) → i ≢ j → x.1.out i ≡ d.out i)
    × (x.0.flag ≡ 2)
    × (x.0.reduce_id ≡ j)

do_reduce-Frame :
    (reducef : Bytes → List Bytes → Bytes) (sort : List KeyValue → List KeyValue) (reply : Reply)
    (args : Args) (d : Disk)
    → OnReturn (do_reduce reducef sort true true reply args d) (Frame reply.reduce_id d)
unfolding do_reduce succeed
do_reduce-Frame reducef sort reply args d =
    elim (Run-cases (read_all d reply.reduce_id 0 reply.n_task [])) [
      | inl lost ↦ rw lost tt
      | inr (kva, e) ↦ rw e (refl, λ i other. ground (arith, other), refl, refl)
    ]

full-ReduceLeaves :
    (reducef : Bytes → List Bytes → Bytes) (sort : List KeyValue → List KeyValue) (reply : Reply)
    (args : Args) (d : Disk) (files : ℕ → List KeyValue)
    → Sorts sort
    → ((i : ℕ) → i < reply.n_task → d.mid i reply.reduce_id ≡ some (files i))
    → OnReturn
        (do_reduce reducef sort true true reply args d)
        (ReduceLeaves reducef reply.reduce_id (sort (contents files 0 reply.n_task)) d)
full-ReduceLeaves reducef sort reply args d files sorts there =
    elim (Run-cases (do_reduce reducef sort true true reply args d)) [
      | inl stuck ↦ rw stuck tt
      | inr (x, e) ↦ rw e (
          leaves x
            (OnReturn-elim (Frame reply.reduce_id d) _ x (do_reduce-Frame reducef sort reply args d)
              e)
            (Returns-elim (Reduced reducef reply.reduce_id (sort (contents files 0 reply.n_task))) _
              x (do_reduce_once reducef sort reply args d files sorts there) e))
    ]
  where
    leaves :
        (x : Args × Disk)
        → Frame reply.reduce_id d x
        → Reduced reducef reply.reduce_id (sort (contents files 0 reply.n_task)) x
        → ReduceLeaves reducef reply.reduce_id (sort (contents files 0 reply.n_task)) d x
    leaves x (same_mid, others, flagged, named) made = record {
      same_mid = same_mid;
      others = others;
      flagged = flagged;
      named = named;
      wrote = inr made;
      reported = λ h. made;
    }

pub do_reduce-ReduceLeaves :
    (reducef : Bytes → List Bytes → Bytes) (sort : List KeyValue → List KeyValue)
    (creates renames : Bool) (reply : Reply) (args : Args) (d : Disk) (files : ℕ → List KeyValue)
    → Sorts sort
    → ((i : ℕ) → i < reply.n_task → d.mid i reply.reduce_id ≡ some (files i))
    → OnReturn
        (do_reduce reducef sort creates renames reply args d)
        (ReduceLeaves reducef reply.reduce_id (sort (contents files 0 reply.n_task)) d)
unfolding do_reduce failed succeed
do_reduce-ReduceLeaves reducef sort false renames reply args d files sorts there = record {
  same_mid = refl;
  others = λ i other. refl;
  flagged = refl;
  named = refl;
  wrote = inl refl;
  reported = λ h. absurd (ground arith);
}
do_reduce-ReduceLeaves reducef sort true false reply args d files sorts there =
    rw (read_all-contents d files reply.reduce_id 0 reply.n_task [] (λ m lt. there m (omega arith)))
      tt
do_reduce-ReduceLeaves reducef sort true true reply args d files sorts there =
    full-ReduceLeaves reducef sort reply args d files sorts there
