-- ===== src/Kv/Server.antt =====
-- Mit6824/lab2/server.go: the server. A handler runs under the server's mutex, so it is one step;
-- it takes the reply it fills in and returns it.
pub mod Spec
use cslearning.Prelude.{ℕ, ◌+◌, ◌%◌, Bool, String, Option, none, some, ◌==◌, if◌then◌else◌, assign}
use cslearning.Kv.Rpc.{
  Tversion, u64_mod, PutArgs, PutReply, GetArgs, GetReply, ok, err_no_key, err_version,
}

pub record Pair : Type 0 where
  pub value : String
  pub version : Tversion

-- The map holds pointers that no one else keeps: a write through one is a write to the map.
pub record KvServer : Type 0 where
  pub mp : String → Option Pair

unfoldable pub make_kv_server : KvServer
make_kv_server = record { mp = λ _. none }

unfoldable pub get : KvServer → GetArgs → GetReply → GetReply
get kv args reply = elim (kv.mp args.key) [
  | some pair ↦ record { value = pair.value; version = pair.version; err = ok }
  | none ↦ record reply { err = err_no_key }
]

-- `value.Version++; value.Value = args.Value` and `kv.mp[args.Key] = &Pair{args.Value, 1}`
store : KvServer → PutArgs → Tversion → KvServer
store kv args version = record {
  mp = assign kv.mp args.key (record { value = args.value; version = version });
}

unfoldable pub put : KvServer → PutArgs → PutReply → KvServer × PutReply
unfolding store
put kv args reply = elim (kv.mp args.key) [
  | some pair ↦
      if args.version == pair.version
      then (store kv args ((pair.version + 1) % u64_mod), record { err = ok })
      else (kv, record { err = err_version })
  | none ↦
      if args.version == 0
      then (store kv args 1, record { err = ok })
      else (kv, record { err = err_no_key })
]
