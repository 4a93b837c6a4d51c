-- ===== src/Kv/Lock.antt =====
-- Mit6824/lab2/lock/lock.go: `Acquire` and `Release` over the versioned store, run by any number of
-- clients at once. Between two RPCs a client computes alone, so a step of the system is one RPC of
-- one client; each RPC may be lost, or lose its reply, as in `Kv/Clerk.antt`.
pub mod Invariant
pub mod Owner
pub mod Mutex
use cslearning.Prelude.{
  ℕ, suc, ◌<◌, ◌≡◌, ◌≢◌, Bool, true, false, String, Option, none, some, ◌&&◌, if◌then◌else◌, ite,
  ℕ_discrete, str_eq,
}
use cslearning.Kv.Rpc.{
  Err, Tversion, PutArgs, GetArgs, GetReply, unset, ok, err_no_key, err_version, err_maybe,
}
use cslearning.Kv.Server.{KvServer, make_kv_server, get, put}
use cslearning.Kv.Clerk.{no_reply, is_version_error}

-- Where a client stands, with the local variables that are live there: `flag` of `Acquire`, the
-- version its `Put` names, and `flag` of `Clerk.Put` (`resend`).
pub data Pc : Type 0 where
  idle : Pc
  acquire_get : (flag : Bool) → Pc
  acquire_put : (flag : Bool) (version : Tversion) (resend : Bool) → Pc
  held : Pc
  release_get : Pc
  release_put : (version : Tversion) (resend : Bool) → Pc

-- `reply.Err` as `Clerk.Put` hands it on
abbrev pub clerk_err : Bool → Err → Err
clerk_err resend e = if resend && is_version_error e then err_maybe else e

-- `Acquire` after its `Get`
unfoldable pub acquire_got : String → Bool → GetReply → Pc
acquire_got me flag reply = if flag && str_eq reply.value me then held else elim reply.err [
  | err_no_key ↦ acquire_put flag reply.version false
  | _ ↦ if str_eq reply.value "" then acquire_put flag reply.version false else acquire_get flag
]

-- `Acquire` after its `Put`
unfoldable pub acquire_answered : Bool → Err → Pc
acquire_answered flag ok = held
acquire_answered flag err_maybe = acquire_get true
acquire_answered flag _ = acquire_get flag

-- `Release` after its `Get`
unfoldable pub release_got : String → GetReply → Pc
release_got me reply = elim reply.err [
  | ok ↦ if str_eq reply.value me then release_put reply.version false else release_get
  | _ ↦ release_get
]

-- `Release` after its `Put`
unfoldable pub release_answered : Err → Pc
release_answered ok = idle
release_answered err_maybe = idle
release_answered _ = release_get

abbrev pub fresh_reply : GetReply
fresh_reply = record { value = ""; version = 0; err = unset }

-- `name` is `lk.name_`, and `me` the client's `lk.mystate_`.
module _ (name me : String) where
  abbrev pub lock_get : KvServer → GetReply
  lock_get kv = get kv (record { key = name }) fresh_reply

  abbrev pub acquire_args : Tversion → PutArgs
  acquire_args v = record { key = name; value = me; version = v }

  abbrev pub release_args : Tversion → PutArgs
  release_args v = record { key = name; value = ""; version = v }

  pub data Move (kv : KvServer) : Pc → KvServer → Pc → Type 0 where
    acquire : Move kv idle kv (acquire_get false)
    acquire_reads : {f : Bool} → Move kv (acquire_get f) kv (acquire_got me f (lock_get kv))
    acquire_lost : {f r : Bool} {v : ℕ} → Move kv (acquire_put f v r) kv (acquire_put f v true)
    acquire_unheard :
        {f r : Bool} {v : ℕ}
        → Move kv (acquire_put f v r) (put kv (acquire_args v) no_reply).0 (acquire_put f v true)
    acquire_heard :
        {f r : Bool} {v : ℕ}
        → Move kv
            (acquire_put f v r)
            (put kv (acquire_args v) no_reply).0
            (acquire_answered f (clerk_err r (put kv (acquire_args v) no_reply).1.err))
    release : Move kv held kv release_get
    release_reads : Move kv release_get kv (release_got me (lock_get kv))
    release_lost : {r : Bool} {v : ℕ} → Move kv (release_put v r) kv (release_put v true)
    release_unheard :
        {r : Bool} {v : ℕ}
        → Move kv (release_put v r) (put kv (release_args v) no_reply).0 (release_put v true)
    release_heard :
        {r : Bool} {v : ℕ}
        → Move kv
            (release_put v r)
            (put kv (release_args v) no_reply).0
            (release_answered (clerk_err r (put kv (release_args v) no_reply).1.err))

pub record System : Type 0 where
  pub kv : KvServer
  pub pc : ℕ → Pc

abbrev pub update {ℓ} : {A : Type ℓ} → (ℕ → A) → ℕ → A → ℕ → A
update f i a j = ite (ℕ_discrete i j) a (f j)

abbrev pub init : System
init = record { kv = make_kv_server; pc = λ _. idle }

module _ (name : String) (id : ℕ → String) where
  -- A client makes a move, or somebody writes another key.
  pub data Step (s : System) : System → Type 0 where
    turn :
        (i : ℕ) {kv : KvServer} {p : Pc}
        → Move name (id i) s.kv (s.pc i) kv p
        → Step s (record { kv = kv; pc = update s.pc i p })
    elsewhere :
        (args : PutArgs)
        → args.key ≢ name
        → Step s (record { kv = (put s.kv args no_reply).0; pc = s.pc })

  -- The states after a number of steps.
  pub data Reach : ℕ → System → Type 0 where
    start : Reach 0 init
    next : {n : ℕ} {s t : System} → Reach n s → Step s t → Reach (suc n) t
