-- ===== src/MapReduce/Worker/Job.antt =====
-- Mit6824/lab1/worker.go: a reduce task, from the intermediate files to the output.
use cslearning.Prelude.{
  ℕ, zero, suc, ◌+◌, ◌<◌, ◌≤◌, ◌≡◌, refl, sym, ap, ◌∙◌, Bool, true, some, List, [], ◌∷◌, ◌++◌,
  length, done, append-nil, append_assoc, Returns, arith, ◌==◌,
}
use cslearning.MapReduce.Messages.{Args, Reply, succeed}
use cslearning.MapReduce.Coordinator.Tasks.{count}
use cslearning.MapReduce.Worker.{Bytes, KeyValue, Disk, read_all, reduce_loop, do_reduce}
use cslearning.MapReduce.Worker.Grouping.{IsSorted, values_of, lines_of, reduced, reduce_loop-lines}

-- What `sort.Sort(ByKey(kva))` promises: the pairs sorted by key, and the same pairs, as far as
-- any test can count.
pub record Sorts (sort : List KeyValue → List KeyValue) : Type 0 where
  pub sorted : (l : List KeyValue) → IsSorted (sort l)
  pub permuted : (p : KeyValue → Bool) (l : List KeyValue) → count p (sort l) ≡ count p l

-- the contents of the files of the map tasks from `i` on, one after the other
abbrev pub contents : (ℕ → List KeyValue) → ℕ → ℕ → List KeyValue
contents files i zero = []
contents files i (suc n) = files i ++ contents files (i + 1) n

pub read_all-contents :
    (d : Disk) (files : ℕ → List KeyValue) (j i n : ℕ) (kva : List KeyValue)
    → ((m : ℕ) → m < i + n → d.mid m j ≡ some (files m))
    → read_all d j i n kva ≡ done (kva ++ contents files i n)
unfolding read_all
read_all-contents d files j i zero kva there = ap done (sym (append-nil kva))
read_all-contents d files j i (suc n) kva there =
    rw (read_all, there i (omega arith))
      (read_all-contents d files j (i + 1) n (kva ++ files i) (λ m lt. there m (omega arith))
        ∙ ap done (append_assoc kva (files i) (contents files (i + 1) n)))

count_all : (l : List KeyValue) → count (λ kv. true) l ≡ length l
count_all [] = refl
count_all (kv ∷ l) = omega (arith, count_all l)

-- What a reduce task that succeeds reports and leaves: for each key that occurs among the pairs one line, of all
-- its values, and for no other key a line.
abbrev pub Reduced : (Bytes → List Bytes → Bytes) → ℕ → List KeyValue → Args × Disk → Type 0
Reduced reducef j sorted x =
    (x.0.execute_type ≡ 2)
    × (lines : List (Bytes × Bytes)) × (x.1.out j ≡ some lines)
    × ((k : Bytes) → lines_of k lines ≡ reduced reducef k (values_of k sorted))

-- If `sort.Sort` permutes the pairs and sorts them by key, then a reduce task that finds its
-- intermediate files, and whose output file can be created and renamed, returns and reports
-- success, and its output has for each key among the pairs of those files exactly one line, the
-- result of `reducef` on all values of the key, and no line for any other key.
pub do_reduce_once :
    (reducef : Bytes → List Bytes → Bytes) (sort : List KeyValue → List KeyValue) (reply : Reply)
    (args : Args) (d : Disk) (files : ℕ → List KeyValue)
    → Sorts sort
    → ((i : ℕ) → i < reply.n_task → d.mid i reply.reduce_id ≡ some (files i))
    → Returns
        (do_reduce reducef sort true true reply args d)
        (Reduced reducef reply.reduce_id (sort (contents files 0 reply.n_task)))
unfolding do_reduce succeed
do_reduce_once reducef sort reply args d files sorts there =
    rw
      (
        read_all-contents d files reply.reduce_id 0 reply.n_task [] (λ m lt. there m (omega arith)),
        own,
      )
      (
        refl,
        reduce_loop reducef (length kva) (sort kva),
        refl,
        λ k. reduce_loop-lines reducef (length kva) (sort kva) k enough (sorts.sorted kva),
      )
  where
    kva : List KeyValue
    kva = contents files 0 reply.n_task

    own : (reply.reduce_id == reply.reduce_id) ≡ true
    own = ground arith

    enough : length (sort kva) ≤ length kva
    enough = omega (arith, sorts.permuted (λ kv. true) kva, count_all kva, count_all (sort kva))
