-- ===== src/Raft/Vote.antt =====
-- lab3-D/raft.go: `RequestVote`, and the election that `RequestVoteHelper` and `ticker` run.
use cslearning.Prelude.{
  ℕ, ◌+◌, ◌-◌, ◌/◌, ◌*◌, Bool, true, false, Option, none, some, ltb, leb, ◌==◌, ◌&&◌, ◌||◌, not,
  if◌then◌else◌,
}
use cslearning.Raft.State.{
  Raft, leader, candidate, is_candidate, is_follower, persist, step_down, last_log,
}

pub record RequestVoteArgs : Type 0 where
  pub term : ℕ
  pub candidate_id : ℕ
  pub last_log_index : ℕ
  pub last_log_term : ℕ

pub record RequestVoteReply : Type 0 where
  pub term : ℕ
  pub vote_granted : Bool

-- `votedFor != -1 && votedFor != args.CandidateId`
abbrev pub voted_other : Option ℕ → ℕ → Bool
voted_other none c = false
voted_other (some v) c = not (v == c)

-- `args.LastLogTerm < lastTerm || (args.LastLogTerm == lastTerm && args.LastLogIndex < lastIndex)`
abbrev pub behind : RequestVoteArgs → ℕ × ℕ → Bool
behind args last =
    ltb args.last_log_term last.1
    || (args.last_log_term == last.1 && ltb args.last_log_index last.0)

-- The handler from the second test on, with `flag` as the first test left it.
unfoldable pub request_vote_tail : Bool → RequestVoteArgs → Raft → Raft × RequestVoteReply
request_vote_tail flag args r =
    if ltb args.term r.term
    then (r, record { term = r.term; vote_granted = false })
    else if voted_other r.voted_for args.candidate_id
    then (r, record { term = r.term; vote_granted = false })
    else if behind args (last_log r)
    then (if flag then persist r else r, record { term = r.term; vote_granted = false })
    else (
      persist (record r { voted_for = some args.candidate_id }),
      record { term = r.term; vote_granted = true },
    )

unfoldable pub request_vote : ℕ → RequestVoteArgs → Raft → Raft × RequestVoteReply
unfolding request_vote_tail step_down
request_vote now args r =
    let flag = ltb r.term args.term in
    request_vote_tail flag args
      (if flag then step_down args.term (record r { time = now }) else record r { time = now })

-- `votedFor == -1`
abbrev pub no_vote : Option ℕ → Bool
no_vote none = true
no_vote (some _) = false

-- `ticker`, when its sleep of `ms` is over: whether it goes on to `RequestVoteHelper`.
unfoldable pub ticker : ℕ → ℕ → Raft → Raft × Bool
ticker now ms r =
    if ltb (ms * 1_000_000) (now - r.time) && (is_follower r.state || no_vote r.voted_for)
    then (record r { state = candidate }, true)
    else (r, false)

-- The first locked part of `RequestVoteHelper`: a new term, a vote for itself, and the arguments
-- sent to every other peer. `none` is the early return.
unfoldable pub start_election : ℕ → Raft → Raft × Option RequestVoteArgs
start_election now r =
    let r₁ = record r { time = now } in
    if is_candidate r.state
    then (let r₂ = persist (record r₁ { term = r.term + 1; voted_for = some r.me }) in
        (
          r₂,
          some (record {
            term = r₂.term;
            candidate_id = r.me;
            last_log_index = (last_log r₂).0;
            last_log_term = (last_log r₂).1;
          }),
        ))
    else (r₁, none)

abbrev pub majority : Raft → ℕ
majority r = r.peers / 2 + 1

-- One reply taken from `rf.C_`, with `n` votes so far. `none` is the early return.
unfoldable pub receive_vote : ℕ → RequestVoteReply → Raft → Raft × Option ℕ
receive_vote n reply r =
    if reply.term == r.term
    then (r, some (if reply.vote_granted then n + 1 else n))
    else if ltb r.term reply.term
    then (persist (step_down reply.term r), none)
    else (r, some n)

-- The last locked part: whether the peer becomes the leader.
unfoldable pub finish_election : ℕ → Raft → Raft × Bool
finish_election n r =
    if is_candidate r.state && leb (majority r) n
    then (record r { state = leader }, true)
    else (r, false)
