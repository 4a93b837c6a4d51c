-- ===== src/Lab3C/State.antt =====
-- lab3-C/raft.go: the state of a peer without snapshots, and its persistence. `Log`, the roles and
-- the encoded values are those of lab3-D.
use cslearning.Prelude.{
  ℕ, Bool, Option, none, some, List, [], ◌∷◌, length, replicate, ◌==◌, Run, done, panic, sub_ℕ,
  index,
}
use cslearning.Raft.State.{text, Log, Role, follower, is_leader, Field, int, logs, Persister}

pub record Raft : Type 0 where
  pub peers : ℕ  -- len(rf.peers)
  pub persister : Persister
  pub me : ℕ
  pub dead : ℕ
  pub term : ℕ
  pub voted_for : Option ℕ
  pub log : List Log
  pub commit_index : ℕ
  pub last_applied : ℕ
  pub next_index : List ℕ
  pub match_index : List ℕ
  pub time : ℕ
  pub state : Role

unfoldable pub get_state : Raft → ℕ × Bool
get_state r = (r.term, is_leader r.state)

-- The snapshot that `persist` saves is nil.
unfoldable pub persist : Raft → Raft
persist r = record r {
  persister = record {
    raft_state = int (some r.term) ∷ int r.voted_for ∷ logs r.log ∷ [];
    snapshot = [];
  };
}

-- `readPersist`, over the values that the decoder finds in the data.
unfoldable pub read_persist : List Field → Raft → Run Raft
read_persist [] r = done r
read_persist (int (some t) ∷ int v ∷ logs l ∷ rest) r =
    done (record r { term = t; voted_for = v; log = l })
read_persist _ r = panic

unfoldable pub kill : Raft → Raft
kill r = record r { dead = 1 }

unfoldable pub killed : Raft → Bool
killed r = r.dead == 1

-- `rf.log[len(rf.log)-1]`
unfoldable pub last_entry : Raft → Run Log
last_entry r = index r.log (sub_ℕ (length r.log) 1)

-- A newer term makes the peer a follower that has not voted.
unfoldable pub step_down : ℕ → Raft → Raft
step_down term r = record r { term = term; state = follower; voted_for = none }

-- `rf.log[0]` as `Make` sets it
abbrev pub root : Log
root = record { term = 0; cmd = text "" }

-- The `Raft` that `Make` builds before it reads what was persisted.
unfoldable pub blank : ℕ → ℕ → Persister → ℕ → Raft
blank n me persister now = record {
  peers = n;
  persister = persister;
  me = me;
  dead = 0;
  term = 0;
  voted_for = none;
  log = root ∷ [];
  commit_index = 0;
  last_applied = 0;
  next_index = replicate n 1;
  match_index = replicate n 0;
  time = now;
  state = follower;
}

-- `stored` is what the decoder reads from the persister's data.
unfoldable pub make : List Field → ℕ → ℕ → Persister → ℕ → Run Raft
unfolding blank read_persist
make stored n me persister now = read_persist stored (blank n me persister now)
