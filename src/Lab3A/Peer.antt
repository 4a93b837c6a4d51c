-- ===== src/Lab3A/Peer.antt =====
-- lab3-A/raft.go: the state of a peer, and all that it does under its lock. The roles, the log
-- entries and the two vote messages are those of lab3-D.
use cslearning.Prelude.{
  ℕ, zero, suc, ◌+◌, ◌-◌, ◌/◌, ◌*◌, Bool, true, false, Option, none, some, List, [], ltb, leb, ◌==◌,
  ◌&&◌, ◌||◌, not, if◌then◌else◌, replicate, set, get_or, ℤ, pos, negsuc, Run, done, index, ◌>>=◌,
}
use cslearning.Raft.State.{
  Log, zero_log, Cmd, Role, leader, candidate, follower, is_leader, is_candidate,
}
use cslearning.Raft.Replication.{AppendEntriesArgs}
use cslearning.Raft.Vote.{RequestVoteArgs, RequestVoteReply, no_vote}

pub record Raft : Type 0 where
  pub peers : ℕ  -- len(rf.peers)
  pub me : ℕ
  pub dead : ℕ
  pub term : ℕ
  pub voted_for : Option ℕ
  pub log : List Log
  pub commit_index : ℕ
  pub last_applied : ℕ
  pub next_index : List ℤ
  pub match_index : List ℕ
  pub time : ℕ
  pub state : Role

unfoldable pub get_state : Raft → ℕ × Bool
get_state r = (r.term, is_leader r.state)

unfoldable pub kill : Raft → Raft
kill r = record r { dead = 1 }

unfoldable pub killed : Raft → Bool
killed r = r.dead == 1

unfoldable pub step_down : ℕ → Raft → Raft
step_down term r = record r { term = term; state = follower; voted_for = none }

-- `RequestVote`: a newer term gets the vote at once; the role stays as it is.
unfoldable pub request_vote : RequestVoteArgs → Raft → Raft × RequestVoteReply
request_vote args r =
    if ltb r.term args.term
    then (
      record r { term = args.term; voted_for = some args.candidate_id },
      record { term = args.term; vote_granted = true },
    )
    else if ltb args.term r.term || not (no_vote r.voted_for)
    then (r, record { term = r.term; vote_granted = false })
    else (
      record r { term = args.term; voted_for = some args.candidate_id },
      record { term = args.term; vote_granted = true },
    )

-- `Start` does nothing yet: index and term are -1.
unfoldable pub start : Cmd → Raft → Raft × (ℤ × ℤ × Bool)
start cmd r = (r, (negsuc 0, negsuc 0, true))

-- `ticker`, when its sleep of `ms` is over: whether it goes on to `RequestVoteHelper`.
unfoldable pub ticker : ℕ → ℕ → Raft → Raft × Bool
ticker now ms r =
    if ltb (ms * 1_000_000) (now - r.time) && not (is_leader r.state)
    then (record r { state = candidate }, true)
    else (r, false)

-- The first locked part of `RequestVoteHelper`: a new term, a vote for itself, and the arguments
-- sent to every other peer. `none` is the early return.
unfoldable pub start_election : ℕ → Raft → Run (Raft × Option RequestVoteArgs)
start_election now r =
    let r₁ = record r { time = now } in
    if is_candidate r.state
    then (let r₂ = record r₁ { term = r.term + 1; voted_for = some r.me } in
        index r₂.log (pos r₂.last_applied) >>= λ e. done (
          r₂,
          some (record {
            term = r₂.term;
            candidate_id = r.me;
            last_log_index = r₂.last_applied;
            last_log_term = e.term;
          }),
        ))
    else done (r₁, none)

abbrev pub majority : Raft → ℕ
majority r = r.peers / 2 + 1

-- One reply taken from `rf.C_`, with `n` votes so far. `none` is the early return.
unfoldable pub receive_vote : ℕ → RequestVoteReply → Raft → Raft × Option ℕ
unfolding step_down
receive_vote n reply r =
    if reply.term == r.term
    then (r, some (if reply.vote_granted then n + 1 else n))
    else if ltb r.term reply.term
    then (step_down reply.term r, none)
    else (r, some n)

-- The last locked part: whether the peer becomes the leader.
unfoldable pub finish_election : ℕ → Raft → Raft × Bool
finish_election n r =
    if is_candidate r.state && leb (majority r) n
    then (record r { state = leader }, true)
    else (r, false)

-- `make([]Log, 100)`, and `Make`, whose `readPersist` reads nothing.
unfoldable pub make : ℕ → ℕ → ℕ → Raft
make n me now = record {
  peers = n;
  me = me;
  dead = 0;
  term = 0;
  voted_for = none;
  log = replicate 100 zero_log;
  commit_index = 0;
  last_applied = 0;
  next_index = replicate n (pos 0);
  match_index = replicate n 0;
  time = now;
  state = follower;
}

pub record AppendEntriesReply : Type 0 where
  pub term : ℕ
  pub success : Bool

-- A round of the loop of `startLearder`: what is sent to each peer, its last four fields unset, or
-- the end of the loop.
unfoldable pub leader_round : ℕ → Raft → Raft × Option AppendEntriesArgs
unfolding killed
leader_round now r = if killed r || not (is_leader r.state) then (r, none) else (
  record r { time = now },
  some (record {
    term = r.term;
    leader_id = r.me;
    prev_log_index = 0;
    prev_log_term = 0;
    entries = [];
    leader_commit = 0;
  }),
)

-- `nextIndex[i]--`, which nothing keeps above zero
abbrev pub pred : ℤ → ℤ
pred (pos zero) = negsuc 0
pred (pos (suc n)) = pos n
pred (negsuc n) = negsuc (suc n)

-- What the goroutine for peer `i` does with a reply.
unfoldable pub entries_reply : ℕ → AppendEntriesReply → Raft → Raft
unfolding step_down
entries_reply i reply r =
    if ltb r.term reply.term
    then step_down reply.term r
    else if reply.success
    then r
    else record r { next_index = set r.next_index i (pred (get_or r.next_index i (pos 0))) }

-- `AppendEntries`, which takes no entries in.
unfoldable pub append_entries : ℕ → AppendEntriesArgs → Raft → Raft × AppendEntriesReply
append_entries now args r =
    let r₁ = record r { time = now } in
    if ltb args.term r.term then (r₁, record { term = r.term; success = false }) else (
      record r₁ {
        voted_for = if ltb r.term args.term then none else r.voted_for;
        term = args.term;
        state = follower;
      },
      record { term = args.term; success = true },
    )
