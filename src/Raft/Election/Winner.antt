-- ===== src/Raft/Election/Winner.antt =====
-- lab3-D/raft.go: what a peer needs to become the leader in `RequestVoteHelper`.
use cslearning.Prelude.{ℕ, ◌+◌, ◌≤◌, ◌≡◌, true, some, List, [], ◌∷◌}
use cslearning.Raft.State.{Raft}
use cslearning.Raft.Vote.{majority}
use cslearning.Raft.Election.{Turn, run_election}
use cslearning.Raft.Election.Tally.{AllDemoting, votes_in, run_election-wins}
use cslearning.Raft.Election.Others.{OthersRun, OthersRun-Demotes}

-- `f` is what a run of the other goroutines makes of a peer.
abbrev pub ByOthers : (Raft → Raft) → Type 0
ByOthers f = (r : Raft) → OthersRun r (f r)

abbrev pub AllByOthers : List Turn → Type 0
AllByOthers [] = Unit
AllByOthers (t ∷ ts) = ByOthers t.before × ByOthers t.meanwhile × AllByOthers ts

AllByOthers-AllDemoting : (ts : List Turn) → AllByOthers ts → AllDemoting ts
AllByOthers-AllDemoting [] all = tt
AllByOthers-AllDemoting (t ∷ ts) all = (
  λ r. OthersRun-Demotes (all.0 r),
  λ r. OthersRun-Demotes (all.1 r),
  AllByOthers-AllDemoting ts all.2,
)

-- Let an election round make the peer the leader, the other goroutines of the peer taking any of
-- their steps whenever the round lets the lock go. Then the peer's term is the one after the term
-- in which the round began, and the replies of that term which granted their vote, with the peer's
-- own vote, are a majority of the peers.
pub elected_by_majority :
    (now : ℕ) (turns : List Turn) (lastly : Raft → Raft) (r s : Raft)
    → AllByOthers turns
    → ByOthers lastly
    → run_election now turns lastly r ≡ some (s, true)
    → (s.term ≡ r.term + 1) × (majority r ≤ 1 + votes_in (r.term + 1) turns)
elected_by_majority now turns lastly r s all last =
    run_election-wins now turns lastly r s (AllByOthers-AllDemoting turns all)
      (λ r'. OthersRun-Demotes (last r'))
