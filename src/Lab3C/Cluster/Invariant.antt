-- ===== src/Lab3C/Cluster/Invariant.antt =====
-- lab3-C/raft.go: what holds of the peers and of the network at all times.
use mathlib.Core.List.{Memᴰ}
use cslearning.Prelude.{ℕ, ◌<◌, ◌≡◌, some, List, length, get_elem?}
use cslearning.Raft.State.{Log, leader}
use cslearning.Lab3C.Node.{Reach}
use cslearning.Lab3C.Matching.{Matching, Built}
use cslearning.Lab3C.Beside.OneVote.{fresh}
use cslearning.Lab3C.Cluster.{World, Packet}

-- A log of a peer, or one that a request was made from.
pub data Logged (w : World) (l : List Log) : Type 0 where
  at_peer : (p : ℕ) → (w.peers p).log ≡ l → Logged w l
  in_flight : (m : Packet) → Memᴰ m w.sent → m.log ≡ l → Logged w l

pub record Inv (n now : ℕ) (w : World) : Type 0 where
  pub matching : (l m : List Log) → Logged w l → Logged w m → Matching l m
  -- Entries are of terms that someone has led.
  pub known :
      (l : List Log) (i : ℕ) (e : Log) → Logged w l → get_elem? l i ≡ some e → Memᴰ e.term w.won
  pub led : (p : ℕ) → (w.peers p).state ≡ leader → Memᴰ (w.peers p).term w.won
  -- No log has an entry of a leader's term past the end of the leader's log.
  pub mine :
      (p : ℕ) (l : List Log) (i : ℕ) (e : Log)
      → (w.peers p).state ≡ leader
      → Logged w l
      → get_elem? l i ≡ some e
      → e.term ≡ (w.peers p).term
      → i < length (w.peers p).log
  pub single :
      (p q : ℕ)
      → (w.peers p).state ≡ leader
      → (w.peers q).state ≡ leader
      → (w.peers p).term ≡ (w.peers q).term
      → p ≡ q
  pub stamped : (m : Packet) → Memᴰ m w.sent → Memᴰ m.args.term w.won
  -- Requests of a leader's term are the leader's.
  pub own :
      (m : Packet) (p : ℕ)
      → Memᴰ m w.sent
      → (w.peers p).state ≡ leader
      → m.args.term ≡ (w.peers p).term
      → m.from ≡ p
  pub built : (m : Packet) → Memᴰ m w.sent → Built m.log m.args
  pub runs : (p : ℕ) → Reach (fresh n p now) (w.peers p)
