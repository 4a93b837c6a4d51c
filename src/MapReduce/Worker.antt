-- ===== src/MapReduce/Worker.antt =====
-- Mit6824/lab1/worker.go: the worker. A Go string is its bytes here. The disk holds what the worker
-- writes: the pairs that the decoder reads from an intermediate file, and the
-- lines of an output file. Whether an operating-system call succeeds is an argument.
pub mod Partition
pub mod Grouping
pub mod Job
use Prim.Native.Nat.{bit_xor, bit_and}
use cslearning.Prelude.{
  ℕ, zero, suc, ◌+◌, ◌*◌, ◌%◌, ◌^◌, Bool, true, false, String, Option, none, some, List, [], ◌∷◌,
  ◌++◌, ltb, ◌==◌, ◌&&◌, ◌||◌, not, if◌then◌else◌, length, set, get_or, replicate, Run, done, panic,
  ◌>>=◌,
}
use cslearning.MapReduce.Messages.{Args, Reply, failed, wanned, succeed}

abbrev pub Bytes : Type 0
Bytes = List ℕ

pub record KeyValue : Type 0 where
  pub key : Bytes
  pub value : Bytes

-- Go's `==` on strings
abbrev pub bytes_eq : Bytes → Bytes → Bool
bytes_eq [] [] = true
bytes_eq (a ∷ s) (b ∷ t) = a == b && bytes_eq s t
bytes_eq _ _ = false

-- Go's `<` on strings, as in `ByKey.Less`
abbrev pub bytes_less : Bytes → Bytes → Bool
bytes_less s [] = false
bytes_less [] (b ∷ t) = true
bytes_less (a ∷ s) (b ∷ t) = ltb a b || (a == b && bytes_less s t)

-- `hash/fnv`'s `New32a`: FNV-1a over 32-bit words
unfoldable pub fnv1a : ℕ → Bytes → ℕ
fnv1a h [] = h
fnv1a h (b ∷ bs) = fnv1a ((bit_xor h b * 16_777_619) % 2 ^ 32) bs

-- `int(h.Sum32() & 0x7fffffff)`
unfoldable pub ihash : Bytes → ℕ
unfolding fnv1a
ihash key = bit_and (fnv1a 2_166_136_261 key) 2_147_483_647

-- "mr-i-j", as the pairs that a decoder reads from it, and "mr-out-j"
pub record Disk : Type 0 where
  pub mid : (i j : ℕ) → Option (List KeyValue)
  pub out : (j : ℕ) → Option (List (Bytes × Bytes))

-- How the system calls of a map task go: the file's content (`none` if it cannot be opened or
-- read), the temporary files, the encoder, and the renames. `encoding/json` is not in the repository:
-- `encodes kv` is the pair that its decoder reads back from what `Encode` writes for `kv`, or
-- `none` if `Encode` fails. The two may differ, since invalid UTF-8 does not survive.
pub record MapIo : Type 0 where
  pub content : Option Bytes
  pub creates : Bool
  pub encodes : KeyValue → Option KeyValue
  pub renames : ℕ → Bool

-- `fileFds[hash_key].Encode(&kv)`
abbrev pub append_at : ℕ → KeyValue → List (List KeyValue) → List (List KeyValue)
append_at i kv files = set files i (get_or files i [] ++ kv ∷ [])

-- The loop over `kva`: `none` when the encoder fails; `% 0` panics.
unfoldable pub emit :
    (KeyValue → Option KeyValue)
    → ℕ
    → List KeyValue
    → List (List KeyValue)
    → Run (Option (List (List KeyValue)))
emit ok n [] files = done (some files)
emit ok n (kv ∷ rest) files = if n == 0 then panic else elim (ok kv) [
  | none ↦ done none
  | some written ↦ emit ok n rest (append_at (ihash kv.key % n) written files)
]

abbrev pub write_mid : ℕ → ℕ → List KeyValue → Disk → Disk
write_mid t i kvs d = record d { mid = λ a b. if a == t && b == i then some kvs else d.mid a b }

-- The loop that renames the temporary files from the `i`th on.
unfoldable pub rename_all : (ℕ → Bool) → ℕ → ℕ → List (List KeyValue) → Disk → Run Disk
rename_all ok t i [] d = done d
rename_all ok t i (kvs ∷ files) d =
    if ok i then rename_all ok t (i + 1) files (write_mid t i kvs d) else panic

-- The last part of a map task, for what the loop over `kva` left.
unfoldable pub map_ends :
    MapIo → Reply → Args → Disk → Option (List (List KeyValue)) → Run (Args × Disk)
unfolding rename_all failed succeed
map_ends io reply args d none = done (failed args, d)
map_ends io reply args d (some files) =
    rename_all io.renames reply.map_id 0 files d >>= λ d'. done (succeed args, d')

-- `reply.Flag == 1`
unfoldable pub do_map :
    (String → Bytes → List KeyValue) → MapIo → Reply → Args → Disk → Run (Args × Disk)
unfolding emit map_ends
do_map mapf io reply args d =
    let args₁ = record args { flag = 1; map_id = reply.map_id } in
    elim io.content [
      | none ↦ done (failed args₁, d)
      | some content ↦
          if not io.creates && ltb 0 reply.n_reduce
          then panic
          else (emit io.encodes reply.n_reduce (mapf reply.filename content)
                (replicate reply.n_reduce [])
              >>= map_ends io reply args₁ d)
    ]

-- The loop that decodes the intermediate files of a reduce task, from the `i`th map task on, up to
-- the end of each. What the encoder changed in a pair was changed when the file was written.
unfoldable pub read_all : Disk → ℕ → ℕ → ℕ → List KeyValue → Run (List KeyValue)
read_all d j i zero kva = done kva
read_all d j i (suc n) kva = elim (d.mid i j) [
  | none ↦ panic
  | some kvs ↦ read_all d j (i + 1) n (kva ++ kvs)
]

-- The inner loop over `j`: the values of the pairs that follow with the same key, and the rest.
unfoldable pub same_key : Bytes → List KeyValue → List Bytes × List KeyValue
same_key k [] = ([], [])
same_key k (kv ∷ l) =
    let (vs, rest) = same_key k l in
    if bytes_eq kv.key k then (kv.value ∷ vs, rest) else ([], kv ∷ l)

-- The loop over `i`, on the pairs left. The list's length is fuel enough: a round takes a pair.
unfoldable pub reduce_loop : (Bytes → List Bytes → Bytes) → ℕ → List KeyValue → List (Bytes × Bytes)
unfolding same_key
reduce_loop reducef zero l = []
reduce_loop reducef (suc fuel) [] = []
reduce_loop reducef (suc fuel) (kv ∷ l) =
    let (vs, rest) = same_key kv.key l in
    (kv.key, reducef kv.key (kv.value ∷ vs)) ∷ reduce_loop reducef fuel rest

-- `reply.Flag == 2`; `sort` is `sort.Sort(ByKey(kva))`, which may leave equal keys in any order.
unfoldable pub do_reduce :
    (Bytes → List Bytes → Bytes)
    → (List KeyValue → List KeyValue)
    → (creates renames : Bool) → Reply
    → Args
    → Disk
    → Run (Args × Disk)
unfolding read_all reduce_loop failed succeed
do_reduce reducef sort creates renames reply args d =
    let args₁ = record args { flag = 2; reduce_id = reply.reduce_id } in
    if not creates
    then done (failed args₁, d)
    else (read_all d reply.reduce_id 0 reply.n_task [] >>= λ kva.
        if renames
        then done (
          succeed args₁,
          record d {
            out = λ j.
                if j == reply.reduce_id
                then some (reduce_loop reducef (length kva) (sort kva))
                else d.out j;
          },
        )
        else panic)

-- What a turn of `Worker`'s loop comes to after its request: it ends, asks again, or works and reports.
pub data Turn : Type 0 where
  exits : Turn
  asks_again : Turn
  works : Turn

unfoldable pub after_request : Bool → Reply → Turn
after_request ok reply = if reply.is_done then exits else if not ok then asks_again else works

-- The work, up to the report that follows it: `reduces` are the two system calls of a reduce task.
unfoldable pub work :
    (String → Bytes → List KeyValue)
    → (Bytes → List Bytes → Bytes)
    → (List KeyValue → List KeyValue)
    → MapIo
    → (reduces : Bool × Bool) → Reply
    → Args
    → Disk
    → Run (Args × Disk)
unfolding do_map do_reduce succeed
work mapf reducef sort io reduces reply args d =
    if reply.flag == 1
    then do_map mapf io reply args d
    else if reply.flag == 2
    then do_reduce reducef sort reduces.0 reduces.1 reply args d
    else done (succeed args, d)
