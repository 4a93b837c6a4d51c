-- ===== src/Lab3C/Vote.antt =====
-- lab3-C/raft.go: `RequestVote`, and the election that `RequestVoteHelper` and `ticker` run. The
-- requests and the replies are those of lab3-D.
use cslearning.Prelude.{
  ℕ, ◌+◌, ◌-◌, ◌/◌, ◌*◌, Bool, true, false, Option, none, some, ltb, leb, ◌==◌, ◌&&◌, not,
  if◌then◌else◌, length, Run, done, ◌>>=◌,
}
use cslearning.Raft.State.{leader, candidate, is_leader, is_candidate}
use cslearning.Raft.Vote.{RequestVoteArgs, RequestVoteReply, voted_other, behind}
use cslearning.Lab3C.State.{Raft, persist, step_down, last_entry}

-- The handler from the second test on, with `flag` as the first test left it.
unfoldable pub request_vote_tail : Bool → RequestVoteArgs → Raft → Run (Raft × RequestVoteReply)
unfolding last_entry
request_vote_tail flag args r =
    if ltb args.term r.term
    then done (r, record { term = r.term; vote_granted = false })
    else if voted_other r.voted_for args.candidate_id
    then done (r, record { term = r.term; vote_granted = false })
    else (last_entry r >>= λ e.
        if behind args (length r.log - 1, e.term)
        then done (if flag then persist r else r, record { term = r.term; vote_granted = false })
        else done (
          persist (record r { voted_for = some args.candidate_id }),
          record { term = r.term; vote_granted = true },
        ))

unfoldable pub request_vote : RequestVoteArgs → Raft → Run (Raft × RequestVoteReply)
unfolding request_vote_tail step_down
request_vote args r =
    let flag = ltb r.term args.term in
    request_vote_tail flag args (if flag then step_down args.term r else r)

-- `ticker`, when its sleep of `ms` is over: whether it goes on to `RequestVoteHelper`.
unfoldable pub ticker : ℕ → ℕ → Raft → Raft × Bool
ticker now ms r =
    if ltb (ms * 1_000_000) (now - r.time) && not (is_leader r.state)
    then (record r { state = candidate }, true)
    else (r, false)

-- The first locked part of `RequestVoteHelper`: a new term, a vote for itself, and the arguments
-- sent to every other peer. `none` is the early return.
unfoldable pub start_election : ℕ → Raft → Run (Raft × Option RequestVoteArgs)
unfolding last_entry
start_election now r =
    let r₁ = record r { time = now } in
    if is_candidate r.state
    then (let r₂ = persist (record r₁ { term = r.term + 1; voted_for = some r.me }) in
        last_entry r₂ >>= λ e. done (
          r₂,
          some (record {
            term = r₂.term;
            candidate_id = r.me;
            last_log_index = length r₂.log - 1;
            last_log_term = e.term;
          }),
        ))
    else done (r₁, none)

abbrev pub majority : Raft → ℕ
majority r = r.peers / 2 + 1

-- One reply taken from `rf.C_`, with `n` votes so far. `none` is the early return.
unfoldable pub receive_vote : ℕ → RequestVoteReply → Raft → Raft × Option ℕ
unfolding step_down
receive_vote n reply r =
    if reply.term == r.term
    then (r, some (if reply.vote_granted then n + 1 else n))
    else if ltb r.term reply.term
    then (persist (step_down reply.term r), none)
    else (r, some n)

-- The last locked part: whether the peer becomes the leader.
unfoldable pub finish_election : ℕ → Raft → Raft × Bool
finish_election n r =
    if is_candidate r.state && leb (majority r) n
    then (record r { state = leader }, true)
    else (r, false)
