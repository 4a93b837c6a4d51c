-- ===== src/Kv/Clerk/Laws.antt =====
-- Mit6824/lab2/client.go: what `Clerk.Put` and `Clerk.Get` tell their caller.
use cslearning.Kv.Clerk.Retries.{
  answered, retried, told, put_loop-Ends, IsAnswer, get-err, all_others, read, clerk_get-ends,
}
use cslearning.Prelude.{
  ℕ, suc, ◌+◌, ◌-◌, ◌<◌, ◌≤◌, ◌≡◌, ◌⊎◌, Bool, true, false, String, Option, none, some, List, [],
  ◌∷◌, ◌++◌, sym, subst, length, arith, eq_iff,
}
use cslearning.Kv.Rpc.{
  Err, Tversion, u64_mod, PutArgs, unset, ok, err_no_key, err_version, err_maybe,
}
use cslearning.Kv.Server.{KvServer, put}
use cslearning.Kv.Server.Spec.{version_of, put-version}
use cslearning.Kv.Clerk.{clerk_get, delivered, Attempt, no_reply, put_all, put_loop, clerk_put}

-- How many times the server's handler may run in these attempts.
abbrev pub calls : List Attempt → ℕ
calls [] = 0
calls (a ∷ rest) = suc (length a.others + calls rest)

put_all-version :
    (kv : KvServer) (others : List PutArgs) (k : String)
    → version_of (kv.mp k) + length others < u64_mod
    → (version_of (kv.mp k) ≤ version_of ((put_all kv others).mp k))
      × (version_of ((put_all kv others).mp k) ≤ version_of (kv.mp k) + length others)
unfolding put_all
put_all-version kv [] k room = omega arith
put_all-version kv (args ∷ rest) k room =
    omega (arith, put-version kv args no_reply k, put_all-version (put kv args no_reply).0 rest k)

-- What a returned error says about how often the write was taken.
abbrev pub Verdict : Option Err → ℕ → Type 0
Verdict (some ok) n = n ≡ 1
Verdict (some err_version) n = n ≡ 0
Verdict (some err_no_key) n = n ≡ 0
Verdict (some err_maybe) n = n ≤ 1
Verdict none n = n ≤ 1
Verdict _ n = ⊥

-- After its version is past, a write is refused for good.
put-late :
    (kv : KvServer) (args : PutArgs)
    → args.version < version_of (kv.mp args.key)
    → (put kv args no_reply).1.err ≡ err_version
unfolding put
put-late kv args late = ground arith

put-once :
    (kv : KvServer) (args : PutArgs)
    → version_of (kv.mp args.key) < u64_mod - 1
    → (((put kv args no_reply).1.err ≡ ok)
        × (args.version < version_of ((put kv args no_reply).0.mp args.key)))
      ⊎ ((put kv args no_reply).1.err ≡ err_version)
      ⊎ ((put kv args no_reply).1.err ≡ err_no_key)
unfolding put
put-once kv args small = ground (arith, eq_iff args.key args.key)

put_loop-late :
    (kv : KvServer) (args : PutArgs) (rest : List Attempt)
    → args.version < version_of (kv.mp args.key)
    → version_of (kv.mp args.key) + calls rest < u64_mod
    → ((put_loop kv args true rest).applied ≡ 0)
      × (((put_loop kv args true rest).err ≡ none)
          ⊎ ((put_loop kv args true rest).err ≡ some err_maybe))
unfolding put_loop
put_loop-late kv args [] late room = ground arith
put_loop-late kv args (a ∷ rest) late room =
    let now = put_all kv a.others in
    ground (
      arith,
      put_all-version kv a.others args.key,
      put-late now args,
      put-version now args no_reply args.key,
      put_loop-late now args rest,
      put_loop-late (put now args no_reply).0 args rest,
    )

put_loop-Verdict :
    (kv : KvServer) (args : PutArgs) (flag : Bool) (rest : List Attempt)
    → version_of (kv.mp args.key) + calls rest < u64_mod
    → Verdict (put_loop kv args flag rest).err (put_loop kv args flag rest).applied
unfolding put_loop
put_loop-Verdict kv args flag [] room = omega arith
put_loop-Verdict kv args flag (a ∷ rest) room =
    let now = put_all kv a.others in
    ground (
      arith,
      put_all-version kv a.others args.key,
      put-once now args,
      put-version now args no_reply args.key,
      put_loop-late (put now args no_reply).0 args rest,
      put_loop-Verdict now args true rest,
      put_loop-Verdict (put now args no_reply).0 args true rest,
    )

-- `Clerk.Put` keeps its word under any loss of requests and replies and any writes of others, while
-- the key's version has room for them: when it returns `OK` the server took its write exactly
-- once; when it returns `ErrVersion` or `ErrNoKey`, never; when it returns `ErrMaybe`, or has not
-- returned yet, at most once; it returns nothing else.
pub clerk_put-Verdict :
    (kv : KvServer) (key value : String) (version : Tversion) (rest : List Attempt)
    → version_of (kv.mp key) + calls rest < u64_mod
    → Verdict
        (clerk_put kv key value version rest).err
        (clerk_put kv key value version rest).applied
unfolding clerk_put
clerk_put-Verdict kv key value version rest room =
    put_loop-Verdict kv (record { key = key; value = value; version = version }) false rest room

-- `Put` waits through `before`, and returns with the call `a`.
abbrev pub PutEnds :
    KvServer → String → String → Tversion → List Attempt → Attempt → List Attempt → Type 0
PutEnds kv key value version before a after =
    let waiting = clerk_put kv key value version before in
    let ended = clerk_put kv key value version (before ++ a ∷ after) in
    let args : PutArgs = record { key = key; value = value; version = version } in
    let (server, reply) = put (put_all waiting.server a.others) args no_reply in
    (waiting.err ≡ none)
    × (ended.err ≡ some (told (retried before) reply.err))
    × (ended.server ≡ server)

-- The retry loops of `Clerk.Put` and `Clerk.Get` go on while no call has got through, and end with
-- the first that does, `a`: `Put` returns what it makes of the reply of that call's handler (where
-- `ErrVersion` is `ErrMaybe` after a retry), with the server as that handler left it, and `Get`
-- returns that handler's answer, which is `OK` or `ErrNoKey`. What the network would do after is
-- of no effect.
pub clerk_returns :
    (kv : KvServer) (key value : String) (version : Tversion) (before : List Attempt) (a : Attempt)
    (after : List Attempt)
    → answered before ≡ false
    → a.fate ≡ delivered
    → PutEnds kv key value version before a after
      × (clerk_get kv key before ≡ none)
      × (clerk_get kv key (before ++ a ∷ after)
          ≡ some (read (put_all (put_all kv (all_others before)) a.others) key))
      × IsAnswer (clerk_get kv key (before ++ a ∷ after))
unfolding clerk_put
clerk_returns kv key value version before a after lost through =
    let ends =
      put_loop-Ends kv (record { key = key; value = value; version = version }) false before a after
        lost through in
    let (waits, answers) = clerk_get-ends kv key before a after lost through in
    (
      (ends.retries, ends.err, ends.server),
      waits,
      answers,
      subst IsAnswer (sym answers) (
          get-err (put_all (put_all kv (all_others before)) a.others) (record { key = key })
            (record { value = ""; version = 0; err = unset })),
    )
