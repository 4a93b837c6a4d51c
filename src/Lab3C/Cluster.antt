-- ===== src/Lab3C/Cluster.antt =====
-- Several peers of lab3-C/raft.go and the network between them. Requests to append stay in the
-- network, where each may be delivered any number of times, in any order, or never. All other
-- messages may have any contents, as in the steps of one peer.
pub mod Change
pub mod Invariant
pub mod Elected
pub mod Appended
pub mod Moves
pub mod Poll
pub mod Ballots
pub mod Rounds
pub mod Winners
pub mod LogMatching
use mathlib.Core.List.{Memᴰ}
use cslearning.Prelude.{
  ℕ, ◌≡◌, ◌≢◌, refl, true, false, Bool, List, [], ◌∷◌, Run, done, ◌==◌, if◌then◌else◌,
}
use cslearning.Raft.State.{Log, Cmd, leader}
use cslearning.Raft.Replication.{AppendEntriesArgs, AppendEntriesReply}
use cslearning.Lab3C.State.{Raft}
use cslearning.Lab3C.Vote.{finish_election}
use cslearning.Lab3C.Append.{append_entries}
use cslearning.Lab3C.Leader.{start, build_entries}
use cslearning.Lab3C.Node.{Step}
use cslearning.Lab3C.Quiet.{Quiet}
use cslearning.Lab3C.Beside.OneVote.{fresh}

-- A request in the network, with its sender and, for the proofs, the sender's log.
pub record Packet : Type 0 where
  pub from : ℕ
  pub log : List Log
  pub args : AppendEntriesArgs

-- `won` lists the terms in which an election has been won. No election is won in term 0, which is
-- the term of the first entry of each log, so 0 stands in it from the start.
pub record World : Type 0 where
  pub peers : ℕ → Raft
  pub sent : List Packet
  pub won : List ℕ

abbrev pub put : (ℕ → Raft) → ℕ → Raft → ℕ → Raft
put f p r q = if q == p then r else f q

-- The peers as `Make` starts them, with nothing on disk.
abbrev pub first : ℕ → ℕ → World
first n now = record { peers = λ p. fresh n p now; sent = []; won = 0 ∷ [] }

pub data Move (w : World) : World → Type 0 where
  acts :
      (p : ℕ) {s : Raft} (st : Step (w.peers p) s)
      → Quiet st
      → Move w (record w { peers = put w.peers p s })
  elects :
      (p n : ℕ)
      → (finish_election n (w.peers p)).1 ≡ true
      → Move w (record w {
        peers = put w.peers p (finish_election n (w.peers p)).0;
        won = (w.peers p).term ∷ w.won;
      })
  sends :
      (p i length : ℕ) (args : AppendEntriesArgs)
      → (w.peers p).state ≡ leader
      → build_entries i (w.peers p) ≡ done (args, length)
      → Move w
          (record w { sent = record { from = p; log = (w.peers p).log; args = args } ∷ w.sent })
  delivers :
      (q now : ℕ) (m : Packet) (reply : AppendEntriesReply) {s : Raft}
      → Memᴰ m w.sent
      → m.from ≢ q
      → append_entries now m.args (w.peers q) ≡ done (s, reply)
      → Move w (record w { peers = put w.peers q s })
  commands :
      (p : ℕ) (cmd : Cmd) → Move w (record w { peers = put w.peers p (start cmd (w.peers p)).0 })

pub data Course (w : World) : World → Type 0 where
  here : Course w w
  next : {u v : World} → Course w u → Move u v → Course w v

-- An election that the step wins is the first that is won in its term.
abbrev pub NewTerm : {w u : World} → Move w u → Type 0
NewTerm (acts p st quiet) = Unit {0}
NewTerm {w} (elects p n won) = ¬ Memᴰ (w.peers p).term w.won
NewTerm (sends p i length args l e) = Unit {0}
NewTerm (delivers q now m reply sent other e) = Unit {0}
NewTerm (commands p cmd) = Unit {0}

abbrev pub NewTerms : {w u : World} → Course w u → Type 0
NewTerms here = Unit {0}
NewTerms (next c m) = NewTerms c × NewTerm m
