-- ===== src/Raft/State.antt =====
-- lab3-D/raft.go: the state of a peer, its persistence, and the helpers on log positions. An `int`
-- that is only ever a count, a term or an index is a number, `-1` for "no peer" is `none`.
use cslearning.Prelude.{
  ℕ, ◌+◌, ◌-◌, Bool, true, false, String, Option, none, some, List, [], ◌∷◌, length, get_or,
  replicate, ltb, ◌==◌, if◌then◌else◌, ℤ, sub_ℕ, Run, done, panic, ◌>>=◌,
}

-- `Cmd any`: the zero value, a text such as the `""` of a log's first entry, or a command.
pub data Cmd : Type 0 where
  nil : Cmd
  text : String → Cmd
  command : ℕ → Cmd

pub record Log : Type 0 where
  pub term : ℕ
  pub cmd : Cmd

abbrev pub zero_log : Log
zero_log = record { term = 0; cmd = nil }

pub data Role : Type 0 where
  leader candidate follower : Role

abbrev pub is_leader : Role → Bool
is_leader leader = true
is_leader _ = false

abbrev pub is_candidate : Role → Bool
is_candidate candidate = true
is_candidate _ = false

abbrev pub is_follower : Role → Bool
is_follower follower = true
is_follower _ = false

-- The values handed to the encoder, one by one. What `labgob` makes of them is not modelled.
pub data Field : Type 0 where
  int : Option ℕ → Field
  logs : List Log → Field

pub record Persister : Type 0 where
  pub raft_state : List Field
  pub snapshot : List ℕ

pub record Raft : Type 0 where
  pub peers : ℕ  -- len(rf.peers)
  pub persister : Persister
  pub me : ℕ
  pub dead : ℕ
  pub term : ℕ
  pub voted_for : Option ℕ
  pub log : List Log
  pub commit_index : ℕ
  pub last_applied : ℕ
  pub next_index : List ℕ
  pub match_index : List ℕ
  pub time : ℕ
  pub state : Role
  pub last_snapshot_commit : ℕ
  pub last_snapshot_term : ℕ
  pub snapshot : List ℕ

unfoldable pub get_state : Raft → ℕ × Bool
get_state r = (r.term, is_leader r.state)

-- What `persist` encodes, in its order.
abbrev pub fields : Raft → List Field
fields r =
    int (some r.term)
    ∷ int r.voted_for
    ∷ logs r.log
    ∷ int (some r.last_snapshot_commit)
    ∷ int (some r.last_snapshot_term)
    ∷ []

unfoldable pub persist : Raft → Raft
persist r = record r { persister = record { raft_state = fields r; snapshot = r.snapshot } }

-- `readPersist`, over the values that the decoder finds in the data; any others are a decode error.
unfoldable pub read_persist : List Field → Raft → Run Raft
read_persist [] r = done r
read_persist (int (some t) ∷ int v ∷ logs l ∷ int (some c) ∷ int (some s) ∷ rest) r =
    done (record r {
      term = t;
      voted_for = v;
      log = l;
      last_snapshot_commit = c;
      last_snapshot_term = s;
      snapshot = r.persister.snapshot;
      commit_index = c;
      last_applied = c;
    })
read_persist _ r = panic

unfoldable pub kill : Raft → Raft
kill r = record r { dead = 1 }

unfoldable pub killed : Raft → Bool
killed r = r.dead == 1

-- `indexSub` may go below zero, where an index panics.
unfoldable pub index_sub : Raft → ℕ → ℤ
index_sub r i = sub_ℕ i r.last_snapshot_commit

unfoldable pub index_add : Raft → ℕ → ℕ
index_add r i = i + r.last_snapshot_commit

-- `log[i].Term` where `i` is known to be in range
abbrev pub term_at : List Log → ℕ → ℕ
term_at l i = (get_or l i zero_log).term

-- `lastIndex` and `lastTerm` as `RequestVote` and `RequestVoteHelper` compute them.
unfoldable pub last_log : Raft → ℕ × ℕ
unfolding index_add
last_log r =
    if ltb 1 (length r.log)
    then (index_add r (length r.log - 1), term_at r.log (length r.log - 1))
    else (r.last_snapshot_commit, r.last_snapshot_term)

-- `if reply.Term > rf.term`: the peer falls back to follower in the newer term.
unfoldable pub step_down : ℕ → Raft → Raft
step_down term r = record r { term = term; state = follower; voted_for = none }

-- The `Raft` that `Make` builds, before and after it reads what was persisted; `n` is `len(peers)`.
unfoldable pub blank : ℕ → ℕ → Persister → ℕ → Raft
blank n me persister now = record {
  peers = n;
  persister = persister;
  me = me;
  dead = 0;
  term = 0;
  voted_for = none;
  log = zero_log ∷ [];
  commit_index = 0;
  last_applied = 0;
  next_index = replicate n 0;
  match_index = replicate n 0;
  time = now;
  state = follower;
  last_snapshot_commit = 0;
  last_snapshot_term = 0;
  snapshot = [];
}

-- `rf.log[0] = Log{Term: rf.last_snapShot_term_, Cmd: ""}`
unfoldable pub reset_first : Raft → Run Raft
reset_first r = elim r.log [
  | [] ↦ panic
  | _ ∷ rest ↦
      done (record r { log = record { term = r.last_snapshot_term; cmd = text "" } ∷ rest })
]

-- `stored` is what the decoder reads from the persister's data.
unfoldable pub make : List Field → ℕ → ℕ → Persister → ℕ → Run Raft
unfolding blank read_persist reset_first
make stored n me persister now = read_persist stored (blank n me persister now) >>= reset_first
