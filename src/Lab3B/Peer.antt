-- ===== src/Lab3B/Peer.antt =====
-- lab3-B/raft.go: the state of a peer, votes, elections and `AppendEntries`. The roles, the log
-- entries and the requests are those of lab3-D.
use cslearning.Prelude.{
  ℕ, ◌+◌, ◌-◌, ◌/◌, ◌*◌, Bool, true, false, Option, none, some, List, [], ◌∷◌, ltb, leb, ◌==◌, ◌&&◌,
  ◌||◌, not, if◌then◌else◌, length, replicate, pos, sub_ℕ, Run, done, index, ◌>>=◌,
}
use cslearning.Raft.State.{Log, Role, leader, candidate, follower, is_leader, is_candidate}
use cslearning.Raft.Vote.{RequestVoteArgs, RequestVoteReply, voted_other, behind}
use cslearning.Raft.Replication.{AppendEntriesArgs, append_loop, is_empty}
use cslearning.Lab3A.Peer.{AppendEntriesReply}
use cslearning.Lab3C.State.{root}

pub record Raft : Type 0 where
  pub peers : ℕ  -- len(rf.peers)
  pub me : ℕ
  pub dead : ℕ
  pub term : ℕ
  pub voted_for : Option ℕ
  pub log : List Log
  pub commit_index : ℕ
  pub last_applied : ℕ
  pub next_index : List ℕ
  pub match_index : List ℕ
  pub time : ℕ
  pub state : Role

unfoldable pub get_state : Raft → ℕ × Bool
get_state r = (r.term, is_leader r.state)

unfoldable pub kill : Raft → Raft
kill r = record r { dead = 1 }

unfoldable pub killed : Raft → Bool
killed r = r.dead == 1

-- `rf.log[len(rf.log)-1]`
unfoldable pub last_entry : Raft → Run Log
last_entry r = index r.log (sub_ℕ (length r.log) 1)

unfoldable pub step_down : ℕ → Raft → Raft
step_down term r = record r { term = term; state = follower; voted_for = none }

-- `Make`, whose `readPersist` reads nothing.
unfoldable pub make : ℕ → ℕ → ℕ → Raft
make n me now = record {
  peers = n;
  me = me;
  dead = 0;
  term = 0;
  voted_for = none;
  log = root ∷ [];
  commit_index = 0;
  last_applied = 0;
  next_index = replicate n 1;
  match_index = replicate n 0;
  time = now;
  state = follower;
}

-- The handler from the second test on.
unfoldable pub request_vote_tail : RequestVoteArgs → Raft → Run (Raft × RequestVoteReply)
unfolding last_entry
request_vote_tail args r =
    if ltb args.term r.term
    then done (r, record { term = r.term; vote_granted = false })
    else if voted_other r.voted_for args.candidate_id
    then done (r, record { term = r.term; vote_granted = false })
    else (last_entry r >>= λ e.
        if behind args (length r.log - 1, e.term)
        then done (r, record { term = r.term; vote_granted = false })
        else done (
          record r { voted_for = some args.candidate_id },
          record { term = r.term; vote_granted = true },
        ))

unfoldable pub request_vote : RequestVoteArgs → Raft → Run (Raft × RequestVoteReply)
unfolding request_vote_tail step_down
request_vote args r =
    request_vote_tail args (if ltb r.term args.term then step_down args.term r else r)

-- `ticker`, when its sleep of `ms` is over: whether it goes on to `RequestVoteHelper`.
unfoldable pub ticker : ℕ → ℕ → Raft → Raft × Bool
ticker now ms r =
    if ltb (ms * 1_000_000) (now - r.time) && not (is_leader r.state)
    then (record r { state = candidate }, true)
    else (r, false)

-- The first locked part of `RequestVoteHelper`: a new term, a vote for itself, and the arguments
-- sent to every other peer. `none` is the early return.
unfoldable pub start_election : ℕ → Raft → Run (Raft × Option RequestVoteArgs)
unfolding last_entry
start_election now r =
    let r₁ = record r { time = now } in
    if is_candidate r.state
    then (let r₂ = record r₁ { term = r.term + 1; voted_for = some r.me } in
        last_entry r₂ >>= λ e. done (
          r₂,
          some (record {
            term = r₂.term;
            candidate_id = r.me;
            last_log_index = length r₂.log - 1;
            last_log_term = e.term;
          }),
        ))
    else done (r₁, none)

abbrev pub majority : Raft → ℕ
majority r = r.peers / 2 + 1

-- One reply taken from `rf.C_`, with `n` votes so far. `none` is the early return.
unfoldable pub receive_vote : ℕ → RequestVoteReply → Raft → Raft × Option ℕ
unfolding step_down
receive_vote n reply r =
    if reply.term == r.term
    then (r, some (if reply.vote_granted then n + 1 else n))
    else if ltb r.term reply.term
    then (step_down reply.term r, none)
    else (r, some n)

-- The last locked part: whether the peer becomes the leader.
unfoldable pub finish_election : ℕ → Raft → Raft × Bool
finish_election n r =
    if is_candidate r.state && leb (majority r) n
    then (record r { state = leader }, true)
    else (r, false)

-- `LeaderCommit > commitIndex`: the follower learns what is committed.
unfoldable pub learn_commit : AppendEntriesArgs → Raft → Raft
learn_commit args r =
    if ltb r.commit_index args.leader_commit
    then record r {
      commit_index =
          let last = args.prev_log_index + length args.entries in
          if ltb args.leader_commit last then args.leader_commit else last;
    }
    else r

-- The logs agree at `PrevLogIndex`. Only a request with no entries sets the term and the role.
unfoldable pub accept : AppendEntriesArgs → Raft → Raft × AppendEntriesReply
accept args r =
    if is_empty args.entries
    then (
      learn_commit args (record r {
        voted_for = if ltb r.term args.term then none else r.voted_for;
        term = args.term;
        state = follower;
      }),
      record { term = args.term; success = true },
    )
    else (
      learn_commit args
          (record r { log = append_loop (args.prev_log_index + 1) args.entries r.log }),
      record { term = 0; success = true },
    )

-- `PrevLogIndex` is not negative here; the handler of Lab3B/Checked.antt takes any `int`, panics on a
-- negative one that is not stale, and is this one on the others.
unfoldable pub append_entries : ℕ → AppendEntriesArgs → Raft → Run (Raft × AppendEntriesReply)
append_entries now args r =
    let r₁ = record r { time = now } in
    let refuse : Raft × AppendEntriesReply = (r₁, record { term = r.term; success = false }) in
    if ltb args.term r.term || leb (length r.log) args.prev_log_index
    then done refuse
    else (index r.log (pos args.prev_log_index) >>= λ e.
        done (if e.term == args.prev_log_term then accept args r₁ else refuse))
