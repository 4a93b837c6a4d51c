-- ===== src/Kv/Clerk.antt =====
-- Mit6824/lab2/client.go: `Clerk.Get` and `Clerk.Put`, which retry until the network answers.
-- `labrpc` is not part of the repository: what `Call` does is a list of attempts, one for each
-- call, in which a request may be lost before the handler runs or its reply after, and the `Put`s
-- of other clients may come first.
pub mod Retries
pub mod Laws
use cslearning.Prelude.{
  ℕ, suc, ◌+◌, Bool, true, false, String, Option, none, some, List, [], ◌∷◌, ◌&&◌, if◌then◌else◌,
}
use cslearning.Kv.Rpc.{
  Err, Tversion, PutArgs, PutReply, GetArgs, GetReply, unset, ok, err_version, err_maybe,
}
use cslearning.Kv.Server.{KvServer, get, put}

pub data Fate : Type 0 where
  delivered request_lost reply_lost : Fate

pub record Attempt : Type 0 where
  pub others : List PutArgs
  pub fate : Fate

abbrev pub no_reply : PutReply
no_reply = record { err = unset }

unfoldable pub put_all : KvServer → List PutArgs → KvServer
put_all kv [] = kv
put_all kv (args ∷ rest) = put_all (put kv args no_reply).0 rest

abbrev pub is_version_error : Err → Bool
is_version_error err_version = true
is_version_error _ = false

-- 1 if the handler took the write
abbrev pub taken : Err → ℕ
taken ok = 1
taken _ = 0

-- How a `Clerk.Put` stands after the attempts given: the server, what it returned (`none` while it
-- is still retrying), and how often the server took its write (which the client cannot see).
pub record Outcome : Type 0 where
  pub server : KvServer
  pub err : Option Err
  pub applied : ℕ

abbrev count_taken : Err → Outcome → Outcome
count_taken e o = record o { applied = o.applied + taken e }

-- The `for` loop of `Put`, over its variable `flag`.
unfoldable pub put_loop : KvServer → PutArgs → Bool → List Attempt → Outcome
put_loop kv args flag [] = record { server = kv; err = none; applied = 0 }
put_loop kv args flag (a ∷ rest) = elim a.fate [
  | request_lost ↦ put_loop (put_all kv a.others) args true rest
  | reply_lost ↦
      let (kv', reply) = put (put_all kv a.others) args no_reply in
      count_taken reply.err (put_loop kv' args true rest)
  | delivered ↦
      let (kv', reply) = put (put_all kv a.others) args no_reply in
      count_taken reply.err (record {
        server = kv';
        err = some (if flag && is_version_error reply.err then err_maybe else reply.err);
        applied = 0;
      })
]

unfoldable pub clerk_put : KvServer → String → String → Tversion → List Attempt → Outcome
clerk_put kv key value version attempts =
    put_loop kv (record { key = key; value = value; version = version }) false attempts

-- The `for` loop of `Get`: a lost request and a lost reply look the same, and change nothing.
unfoldable pub clerk_get : KvServer → String → List Attempt → Option GetReply
clerk_get kv key [] = none
clerk_get kv key (a ∷ rest) = elim a.fate [
  | delivered ↦ some (
      get (put_all kv a.others) (record { key = key })
        (record { value = ""; version = 0; err = unset }))
  | _ ↦ clerk_get (put_all kv a.others) key rest
]
