-- ===== src/Kv/Rpc.antt =====
-- Mit6824/lab2/rpc/rpc.go: the messages between `Clerk` and `KVServer`.
use cslearning.Prelude.{ℕ, ◌^◌, String}

-- `type Err string`. `unset` is the empty string of a fresh reply.
pub data Err : Type 0 where
  unset ok err_no_key err_version err_maybe err_wrong_leader err_wrong_group : Err

-- `type Tversion uint64`
abbrev pub Tversion : Type 0
Tversion = ℕ

abbrev pub u64_mod : ℕ
u64_mod = 2 ^ 64

pub record PutArgs : Type 0 where
  pub key : String
  pub value : String
  pub version : Tversion

pub record PutReply : Type 0 where
  pub err : Err

pub record GetArgs : Type 0 where
  pub key : String

pub record GetReply : Type 0 where
  pub value : String
  pub version : Tversion
  pub err : Err
