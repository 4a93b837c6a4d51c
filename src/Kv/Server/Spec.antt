-- ===== src/Kv/Server/Spec.antt =====
-- Mit6824/lab2/server.go as a versioned register for each key; a missing key is a register at
-- version 0 with the empty text.
use cslearning.Prelude.{
  ◌<◌, ◌≤◌, ◌-◌, refl, ◌+◌, ◌%◌, ◌≡◌, String, Option, none, some, ◌==◌, if◌then◌else◌, str_eq,
  eq_iff, arith,
}
use cslearning.Kv.Rpc.{
  GetArgs, GetReply, Err, Tversion, u64_mod, PutArgs, PutReply, ok, err_no_key, err_version,
}
use cslearning.Kv.Server.{get, Pair, KvServer, put}

abbrev pub version_of : Option Pair → Tversion
version_of none = 0
version_of (some pair) = pair.version

abbrev pub value_of : Option Pair → String
value_of none = ""
value_of (some pair) = pair.value

-- The register of a key after a conditional write that names `version`.
abbrev pub cas : Option Pair → Tversion → String → Option Pair
cas r version value =
    if version == version_of r
    then some (record { value = value; version = (version + 1) % u64_mod })
    else r

-- What the writer is told.
abbrev pub answer : Option Pair → Tversion → Err
answer r version =
    if version == version_of r then ok else elim r [ none ↦ err_no_key | some _ ↦ err_version ]

-- `Put` is a conditional write of one register: it takes effect exactly when the caller names the
-- key's current version (0 for a missing key), then moves the version on by one and is answered
-- `OK`; otherwise it changes nothing and is answered `ErrVersion` or `ErrNoKey` as the key is
-- there or not. Every other key keeps its register.
pub put-cas :
    (kv : KvServer) (args : PutArgs) (reply : PutReply) (k : String)
    → ((put kv args reply).0.mp k
        ≡ (if str_eq args.key k then cas (kv.mp k) args.version args.value else kv.mp k))
      × ((put kv args reply).1.err ≡ answer (kv.mp args.key) args.version)
unfolding put
put-cas kv args reply k = ground (arith, eq_iff args.key k)

-- `Get` reads the register: it answers `OK` with the value and version of a key that is there, and
-- `ErrNoKey` with the reply's own value and version for one that is not.
pub get-register :
    (kv : KvServer) (args : GetArgs) (reply : GetReply)
    → get kv args reply ≡ elim (kv.mp args.key) [
      | none ↦ record reply { err = err_no_key }
      | some r ↦ record { value = r.value; version = r.version; err = ok }
    ]
unfolding get
get-register kv args reply = refl

put-stores :
    (kv : KvServer) (args : PutArgs) (reply : PutReply)
    → (put kv args reply).1.err ≡ ok
    → args.version < u64_mod - 1
    → (put kv args reply).0.mp args.key
      ≡ some (record { value = args.value; version = args.version + 1 })
unfolding put
put-stores kv args reply h small = ground (arith, eq_iff args.key args.key)

get-present :
    (kv : KvServer) (args : GetArgs) (answered : GetReply) {r : Pair}
    → kv.mp args.key ≡ some r
    → get kv args answered ≡ record { value = r.value; version = r.version; err = ok }
unfolding get
get-present kv args answered h = rw (h, get)

-- A `Get` after a `Put` of the same key that was answered `OK` returns what was put, at the next
-- version, while the version has room to grow.
pub get-put :
    (kv : KvServer) (args : PutArgs) (reply : PutReply) (answered : GetReply)
    → (put kv args reply).1.err ≡ ok
    → args.version < u64_mod - 1
    → get (put kv args reply).0 (record { key = args.key }) answered
      ≡ record { value = args.value; version = args.version + 1; err = ok }
get-put kv args reply answered h small =
    get-present _ (record { key = args.key }) answered (put-stores kv args reply h small)

-- A write moves the version of a key on by at most one, and never back while it has room.
pub put-version :
    (kv : KvServer) (args : PutArgs) (reply : PutReply) (k : String)
    → version_of (kv.mp k) < u64_mod - 1
    → (version_of (kv.mp k) ≤ version_of ((put kv args reply).0.mp k))
      × (version_of ((put kv args reply).0.mp k) ≤ version_of (kv.mp k) + 1)
unfolding put
put-version kv args reply k small = ground (arith, eq_iff args.key k)
