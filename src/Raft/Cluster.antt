-- ===== src/Raft/Cluster.antt =====
-- Several peers of lab3-D/raft.go at once. Between two moments each peer takes any number of its
-- steps, with any arguments, so that every interleaving and every behaviour of the network is a run.
pub mod OneLeader
use cslearning.Prelude.{ℕ, zero, suc, ◌+◌, ◌≤◌, ◌≡◌, Bool, true, Option, some, List, if◌then◌else◌}
use cslearning.Raft.State.{Raft}
use cslearning.Raft.Node.{Reach}
use cslearning.Raft.Node.Durable.{Stored}
use cslearning.Raft.Election.{Turn, run_election}
use cslearning.Raft.Election.Tally.{votes_in}
use cslearning.Raft.Election.Winner.{ByOthers, AllByOthers}

-- A run: the state of each peer at each moment, where everything is on disk at first.
pub record Runs (c : (moment peer : ℕ) → Raft) : Type 0 where
  pub goes_on : (t p : ℕ) → Reach (c t p) (c (suc t) p)
  pub begins : (p : ℕ) → Stored (c 0 p)

-- The peer's vote in a term is the candidate's at some moment.
abbrev pub Voted : (ℕ → ℕ → Raft) → ℕ → ℕ → ℕ → Type 0
Voted c term candidate p = (t : ℕ) × ((c t p).term ≡ term) × ((c t p).voted_for ≡ some candidate)

-- how many of the first `n` peers pass a test
abbrev pub tally : ℕ → (ℕ → Bool) → ℕ
tally zero voters = 0
tally (suc n) voters = (if voters n then 1 else 0) + tally n voters

-- Peer `a` of `n` wins a round of `RequestVoteHelper` in a term. Of `labrpc` it says that a call is
-- answered at most once, by its peer's handler: behind the granted replies and the peer's own vote
-- stand as many peers, which voted for it in that term.
pub record Wins (c : ℕ → ℕ → Raft) (n term a : ℕ) : Type 0 where
  pub moment : ℕ
  pub now : ℕ
  pub turns : List Turn
  pub lastly : Raft → Raft
  pub result : Raft
  pub by_others : AllByOthers turns
  pub last_by_others : ByOthers lastly
  pub elected : run_election now turns lastly (c moment a) ≡ some (result, true)
  pub new_term : (c moment a).term + 1 ≡ term
  pub all_peers : (c moment a).peers ≡ n
  pub voters : ℕ → Bool
  pub delivered : 1 + votes_in term turns ≤ tally n voters
  pub voted : (p : ℕ) → voters p ≡ true → Voted c term a p
