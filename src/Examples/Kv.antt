-- ===== src/Examples/Kv.antt =====
-- A store with one key, a clerk whose network loses a reply, and a lock.
use Prim.Native.String.{◌++◌, count}
use text.Mathlib.TextLemmas.{length-append}
use cslearning.Prelude.{
  ℕ, zero, suc, ◌+◌, ◌≡◌, ◌≢◌, refl, sym, ap, ◌∙◌, false, String, none, some, List, [], ◌∷◌, arith,
  str_eq, ℕ_discrete, if◌then◌else◌,
}
use cslearning.Kv.Rpc.{PutArgs, GetReply, unset}
use cslearning.Kv.Server.{make_kv_server, get, put}
use cslearning.Kv.Server.Spec.{cas, answer, put-cas}
use cslearning.Kv.Clerk.{Attempt, no_reply, delivered, reply_lost, put_all, clerk_put, clerk_get}
use cslearning.Kv.Clerk.Retries.{IsAnswer, read}
use cslearning.Kv.Clerk.Laws.{Verdict, PutEnds, clerk_put-Verdict, clerk_returns}
use cslearning.Kv.Lock.{
  System, held, update, acquire_get, acquire_put, acquire, acquire_reads, acquire_heard, turn,
  start, next, Reach, acquire_got, acquire_answered, init,
}
use cslearning.Kv.Lock.Mutex.{mutual_exclusion, owner_can_free, Frees}

abbrev first_write : PutArgs
first_write = record { key = "k"; value = "v"; version = 0 }

put-cas_example :
    ((put make_kv_server first_write no_reply).0.mp "k"
      ≡ (if str_eq "k" "k" then cas (make_kv_server.mp "k") 0 "v" else make_kv_server.mp "k"))
    × ((put make_kv_server first_write no_reply).1.err ≡ answer (make_kv_server.mp "k") 0)
put-cas_example = put-cas make_kv_server first_write no_reply "k"

abbrev empty_reply : GetReply
empty_reply = record { value = ""; version = 0; err = unset }

-- The first reply is lost, the second call gets through.
abbrev calls_made : List Attempt
calls_made =
    record { others = []; fate = reply_lost } ∷ record { others = []; fate = delivered } ∷ []

clerk_put-Verdict_example :
    Verdict
      (clerk_put make_kv_server "k" "v" 0 calls_made).err
      (clerk_put make_kv_server "k" "v" 0 calls_made).applied
unfolding make_kv_server
clerk_put-Verdict_example = clerk_put-Verdict make_kv_server "k" "v" 0 calls_made (omega arith)

abbrev lost_call : Attempt
lost_call = record { others = []; fate = reply_lost }

abbrev heard_call : Attempt
heard_call = record { others = []; fate = delivered }

clerk_returns_example :
    PutEnds make_kv_server "k" "v" 0 (lost_call ∷ []) heard_call []
    × (clerk_get make_kv_server "k" (lost_call ∷ []) ≡ none)
    × (clerk_get make_kv_server "k" (lost_call ∷ heard_call ∷ [])
        ≡ some (read (put_all (put_all make_kv_server []) []) "k"))
    × IsAnswer (clerk_get make_kv_server "k" (lost_call ∷ heard_call ∷ []))
clerk_returns_example =
    clerk_returns make_kv_server "k" "v" 0 (lost_call ∷ []) heard_call [] refl refl

-- Identifiers of clients: "x", "xx", and so on.
abbrev name_of : ℕ → String
name_of zero = "x"
name_of (suc n) = "x" ++ name_of n

grow : {m n k : ℕ} → m ≡ 1 + n → n ≡ suc k → m ≡ suc (suc k)
grow e e' = omega arith

count-name_of : (n : ℕ) → count (name_of n) ≡ suc n
count-name_of zero = refl
count-name_of (suc n) = grow (length-append "x" (name_of n)) (count-name_of n)

suc_injective : {m n : ℕ} → suc m ≡ suc n → m ≡ n
suc_injective e = omega arith

names_distinct : (i j : ℕ) → name_of i ≡ name_of j → i ≡ j
names_distinct i j e = suc_injective (sym (count-name_of i) ∙ ap count e ∙ count-name_of j)

names_present : (i : ℕ) → name_of i ≢ ""
names_present i e = zero_suc (sym (count-name_of i) ∙ ap count e)
  where
    zero_suc : {n : ℕ} → suc n ≡ 0 → ⊥
    zero_suc e = omega arith

-- Client 0 takes the lock.
abbrev taken_by_first : System
taken_by_first = record {
  kv = (put make_kv_server (record { key = "l"; value = "x"; version = 0 }) no_reply).0;
  pc = update (update (update init.pc 0 (acquire_get false)) 0 (acquire_put false 0 false)) 0 held;
}

first_takes : Reach "l" name_of 3 taken_by_first
unfolding make_kv_server get put acquire_got acquire_answered ℕ_discrete
first_takes =
    next (next (next start (turn 0 acquire)) (turn 0 acquire_reads)) (turn 0 acquire_heard)

abbrev first : ℕ
first = 0

mutual_exclusion_example : first ≡ first
unfolding ℕ_discrete
mutual_exclusion_example =
    mutual_exclusion "l" name_of names_present names_distinct (omega arith) first_takes first first
      refl refl

owner_can_free_example : Frees "l" (name_of first) taken_by_first.kv (taken_by_first.pc first)
unfolding put make_kv_server
owner_can_free_example =
    owner_can_free "l" name_of names_present names_distinct (omega arith) first_takes first refl
