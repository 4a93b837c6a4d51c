-- ===== src/Lab3C/Beside.antt =====
-- lab3-C/raft.go beside lab3-D/raft.go: the same peer, once without snapshots and once with none
-- taken yet.
pub mod Votes
pub mod Appends
pub mod Roots
pub mod Always
pub mod Others
pub mod Steps
pub mod Commits
pub mod OneVote
use cslearning.Prelude.{
  ℕ, zero, suc, ◌-◌, ◌<◌, ◌≡◌, refl, some, List, [], ◌∷◌, ◌++◌, length, get_elem?, get_or, arith,
  index, sub_ℕ, done,
}
use cslearning.Raft.State.{Log, zero_log, Field, int, logs}
use cslearning.Raft.State.{Raft as FullRaft}
use cslearning.Lab3C.State.{Raft, root}

-- What the two versions keep differently, or update at other moments.
pub record Extra : Type 0 where
  pub time : ℕ
  pub commit_index : ℕ
  pub last_applied : ℕ
  pub next_index : List ℕ
  pub match_index : List ℕ

-- lab3-D encodes the snapshot's index and term as well.
abbrev pub pad : List Field → List Field
pad [] = []
pad (f ∷ fs) = (f ∷ fs) ++ int (some 0) ∷ int (some 0) ∷ []

abbrev pub lift : Extra → Raft → FullRaft
lift x c = record {
  peers = c.peers;
  persister = record { raft_state = pad c.persister.raft_state; snapshot = [] };
  me = c.me;
  dead = c.dead;
  term = c.term;
  voted_for = c.voted_for;
  log = c.log;
  commit_index = x.commit_index;
  last_applied = x.last_applied;
  next_index = x.next_index;
  match_index = x.match_index;
  time = x.time;
  state = c.state;
  last_snapshot_commit = 0;
  last_snapshot_term = 0;
  snapshot = [];
}

-- The log begins with the entry that `Make` puts there.
abbrev pub IsRooted : List Log → Type 0
IsRooted [] = ⊥
IsRooted (e ∷ es) = e ≡ root

-- So does the log on disk, if there is one.
abbrev pub SavedIsRooted : List Field → Type 0
SavedIsRooted [] = Unit {0}
SavedIsRooted (int (some t) ∷ int v ∷ logs l ∷ []) = IsRooted l
SavedIsRooted _ = ⊥

pub record Sound (c : Raft) : Type 0 where
  pub rooted : IsRooted c.log
  pub saved : SavedIsRooted c.persister.raft_state

pub get_elem?_or :
    (l : List Log) (i : ℕ) → i < length l → get_elem? l i ≡ some (get_or l i zero_log)
get_elem?_or [] i h = absurd (omega arith)
get_elem?_or (e ∷ l) zero h = refl
get_elem?_or (e ∷ l) (suc i) h = get_elem?_or l i (omega arith)

-- The last entry is there, and it is the one that lab3-D goes by.
pub last_entry_done :
    (l : List Log)
    → IsRooted l
    → index l (sub_ℕ (length l) 1) ≡ done (get_or l (length l - 1) zero_log)
last_entry_done [] h = absurd h
last_entry_done (e ∷ l) h = ground (arith, get_elem?_or (e ∷ l) (length l))
