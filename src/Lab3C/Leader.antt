-- ===== src/Lab3C/Leader.antt =====
-- lab3-C/raft.go: `Start`, `startLearder` and the goroutine that it runs for each follower.
use cslearning.Prelude.{
  ◌||◌, not, ℕ, zero, suc, ◌+◌, ◌-◌, Bool, Option, none, some, List, [], ◌∷◌, ◌++◌, map, ltb, leb,
  ◌==◌, if◌then◌else◌, length, get_or, get_elem?, set, sub_ℕ, pos, Run, done, of_option, index,
  slice_from, ◌>>=◌,
}
use cslearning.Raft.State.{Cmd, is_leader}
use cslearning.Raft.Replication.{
  AppendEntriesArgs, AppendEntriesReply, Hint, no_hint, x_len, x_term,
}
use cslearning.Raft.Leader.{min_int, max_int, binary_search as search_log}
use cslearning.Lab3C.State.{Raft, persist, step_down, killed}

-- `Start`: the index and term of the new entry, and whether this peer is the leader.
unfoldable pub start : Cmd → Raft → Raft × (ℕ × ℕ × Bool)
start cmd r =
    let r' =
      if is_leader r.state
      then (let l = r.log ++ record { term = r.term; cmd = cmd } ∷ [] in
          persist (record r { log = l; next_index = set r.next_index r.me (length l - 1 + 1) }))
      else r in
    (r', (length r'.log - 1, r'.term, is_leader r.state))

-- The first locked part of `startLearder`. `matchIndex` stays as it was.
unfoldable pub start_leader : Raft → Raft
start_leader r = record r { next_index = map (λ _. length r.log) r.next_index }

-- The arguments for follower `i`, and `length`.
unfoldable pub build_entries : ℕ → Raft → Run (AppendEntriesArgs × ℕ)
build_entries i r = of_option (get_elem? r.next_index i) >>= λ next.
    (index r.log (sub_ℕ next 1) >>= λ prev.
    ((if leb (length r.log) next then done [] else slice_from r.log (pos next)) >>= λ entries.
    done (
      record {
        term = r.term;
        leader_id = r.me;
        prev_log_index = next - 1;
        prev_log_term = prev.term;
        entries = entries;
        leader_commit = r.commit_index;
      },
      length r.log,
    )))

-- The loop over `rf.peers` from `i` on: what is sent to each of the other peers.
unfoldable pub build_all : (left i : ℕ) → Raft → Run (List (ℕ × AppendEntriesArgs × ℕ))
unfolding build_entries
build_all zero i r = done []
build_all (suc left) i r =
    let rest = build_all left (i + 1) r in
    if i == r.me
    then rest
    else (build_entries i r >>= λ sent. (rest >>= λ others. done ((i, sent.0, sent.1) ∷ others)))

-- A round of the loop of `startLearder`; `none` is the end of the loop for a peer that no longer
-- leads or is killed.
unfoldable pub leader_round : ℕ → Raft → Run (Raft × Option (List (ℕ × AppendEntriesArgs × ℕ)))
unfolding build_all killed
leader_round now r =
    if killed r || not (is_leader r.state)
    then done (r, none)
    else (build_all r.peers 0 r >>= λ sent. done (record r { time = now }, some sent))

-- `BinarySearch`, whose body is that of lab3-D; `none` is -1.
unfoldable pub binary_search : ℕ → Raft → Option ℕ
unfolding search_log
binary_search term r = search_log r.log term

-- The `switch` on a refusal: where to try next.
unfoldable pub next_try : Hint → ℕ → Raft → ℕ
unfolding binary_search
next_try no_hint next r = max_int 1 (next - 1)
next_try (x_len n) next r = min_int n (length r.log)
next_try (x_term term i) next r = elim (binary_search term r) [
  | none ↦ min_int i (length r.log)
  | some at ↦ min_int at (length r.log)
]

-- What the goroutine for follower `i` does with a reply to a request sent at log length `sent`.
unfoldable pub entries_reply : ℕ → ℕ → AppendEntriesReply → Raft → Raft
unfolding step_down next_try
entries_reply i sent reply r =
    if ltb r.term reply.term
    then persist (step_down reply.term r)
    else if reply.success
    then record r {
      next_index = set r.next_index i sent;
      match_index = set r.match_index i (sent - 1);
    }
    else record r {
      next_index = set r.next_index i (next_try reply.hint (get_or r.next_index i 0) r);
    }
