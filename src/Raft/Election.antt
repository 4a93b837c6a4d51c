-- ===== src/Raft/Election.antt =====
-- lab3-D/raft.go: a round of `RequestVoteHelper` as a whole. Its goroutine lets the lock go while it
-- waits for replies, so what the other goroutines do meanwhile comes with each event.
pub mod Others
pub mod Tally
pub mod Winner
use cslearning.Prelude.{
  ℕ, suc, ◌+◌, Bool, true, false, Option, none, some, List, [], ◌∷◌, leb, ◌==◌, ◌&&◌, not,
  if◌then◌else◌,
}
use cslearning.Raft.State.{Raft, is_candidate}
use cslearning.Raft.Vote.{RequestVoteReply, start_election, majority, receive_vote, finish_election}

-- What the `select` yields.
pub data Signal : Type 0 where
  timeout : Signal
  reply : RequestVoteReply → Signal

-- One turn of the inner loop: what others do before it tests the state, and after that before
-- it takes the lock again.
pub record Turn : Type 0 where
  pub before : Raft → Raft
  pub meanwhile : Raft → Raft
  pub signal : Signal

-- `waiting` is a loop that has not ended with the turns given, `returned` the early returns,
-- `ended` the loop's end with `n` votes.
pub data Round : Type 0 where
  waiting : Round
  returned : Raft → Round
  ended : ℕ → Raft → Round

-- `for n < len(rf.peers)/2+1 && !timeoutFlag`
unfoldable pub collect : ℕ → List Turn → Raft → Round
collect n [] r = if leb (majority r) n then ended n r else waiting
collect n (t ∷ ts) r =
    let turn =
      (let r₁ = t.before r in
        if not (is_candidate r₁.state) then returned r₁ else elim t.signal [
          | timeout ↦ ended n r₁
          | reply v ↦ elim (receive_vote n v (t.meanwhile r₁)).1 [
            | none ↦ returned (receive_vote n v (t.meanwhile r₁)).0
            | some n' ↦ collect n' ts (receive_vote n v (t.meanwhile r₁)).0
          ]
        ]) in
    if leb (majority r) n then ended n r else turn

-- A whole round; `lastly` is what others do before the last locked part. `none` is a round that has
-- not ended, the truth value whether the peer became the leader.
unfoldable pub run_election : ℕ → List Turn → (Raft → Raft) → Raft → Option (Raft × Bool)
unfolding collect
run_election now turns lastly r =
    let (r₁, args) = start_election now r in
    elim args [
      | none ↦ some (r₁, false)
      | some _ ↦ elim (collect 1 turns r₁) [
        | waiting ↦ none
        | returned r₂ ↦ some (r₂, false)
        | ended n r₂ ↦ some (finish_election n (lastly r₂))
      ]
    ]
