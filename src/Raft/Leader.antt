-- ===== src/Raft/Leader.antt =====
-- lab3-D/raft.go: the leader's side of replication: `Start`, `startLearder`, the goroutine that it
-- runs for each follower, and `BinarySearch`.
pub mod Search
use cslearning.Prelude.{
  ℕ, zero, suc, ◌+◌, ◌-◌, ◌/◌, Bool, Option, none, some, List, [], ◌∷◌, ◌++◌, map, ltb, leb, ◌==◌,
  ◌&&◌, ◌||◌, not, if◌then◌else◌, length, get_or, get_elem?, set, sub_ℕ, Run, done, of_option,
  index, slice_from, ◌>>=◌,
}
use cslearning.Raft.State.{
  Raft, Log, Cmd, is_leader, persist, step_down, index_sub, index_add, killed, term_at,
}
use cslearning.Raft.Replication.{
  AppendEntriesArgs, AppendEntriesReply, Hint, no_hint, x_len, x_term,
}

-- `Start`: the index and term of the new entry, and whether this peer is the leader.
unfoldable pub start : Cmd → Raft → Raft × (ℕ × ℕ × Bool)
unfolding index_add
start cmd r =
    let r' =
      if is_leader r.state
      then (let l = r.log ++ record { term = r.term; cmd = cmd } ∷ [] in
          let last = index_add r (length l) - 1 in
          persist (record r {
            log = l;
            next_index = set r.next_index r.me (last + 1);
            match_index = set r.match_index r.me last;
          }))
      else r in
    (r', (index_add r' (length r'.log - 1), r'.term, is_leader r.state))

-- The loop shared by `startLearder` and `Snapshot`: every follower starts at the log's end.
unfoldable pub reset_followers : Raft → Raft
unfolding index_add
reset_followers r = record r {
  next_index = map (λ _. index_add r (length r.log)) r.next_index;
  match_index =
      set (map (λ _. r.last_snapshot_commit) r.match_index) r.me (index_add r (length r.log) - 1);
}

-- The locked part of `startLearder`
unfoldable pub start_leader : Raft → Raft
unfolding reset_followers
start_leader r = reset_followers r

-- What the loop for follower `i` does next: stop, send the snapshot, or send entries.
pub data Round : Type 0 where
  stop send_snapshot send_entries : Round

unfoldable pub leader_round : ℕ → Raft → Run Round
unfolding killed
leader_round i r =
    if not (is_leader r.state) || killed r
    then done stop
    else (of_option (get_elem? r.next_index i) >>= λ next.
        if leb next r.last_snapshot_commit then done send_snapshot else done send_entries)

-- The arguments that the goroutine for follower `i` sends, and `myNext`.
unfoldable pub build_entries : ℕ → Raft → Run (AppendEntriesArgs × ℕ)
unfolding index_add index_sub
build_entries i r = of_option (get_elem? r.next_index i) >>= λ next.
    (index r.log (sub_ℕ next (r.last_snapshot_commit + 1)) >>= λ prev.
    ((if leb (index_add r (length r.log)) next
        then done []
        else slice_from r.log (index_sub r next))
      >>= λ entries. done (
        record {
          term = r.term;
          leader_id = r.me;
          prev_log_index = next - 1;
          prev_log_term = prev.term;
          entries = entries;
          leader_commit = r.commit_index;
        },
        index_add r (length r.log),
      )))

-- The loop of `BinarySearch`; `none` is out of fuel.
unfoldable pub search_loop : ℕ → List Log → ℕ → ℕ → ℕ → Option ℕ
search_loop zero l term lo hi = none
search_loop (suc fuel) l term lo hi =
    let mid = lo + (hi - lo) / 2 in
    let up = search_loop fuel l term (mid + 1) hi in
    let down = search_loop fuel l term lo mid in
    if ltb lo hi then (if leb (term_at l mid) term then up else down) else some lo

-- the last test of `BinarySearch`; `none` is -1
abbrev pub found_at : List Log → ℕ → ℕ → Option ℕ
found_at l term lo = if ltb 0 lo && term_at l (lo - 1) == term then some lo else none

-- `BinarySearch` on its fuel: `none` is out of fuel, which does not happen, and `some none` is the
-- answer -1.
unfoldable pub search_run : List Log → ℕ → Option (Option ℕ)
search_run l term = elim (search_loop (suc (length l)) l term 0 (length l)) [
  | none ↦ none
  | some lo ↦ some (found_at l term lo)
]

-- The answer as the caller reads it.
unfoldable pub binary_search : List Log → ℕ → Option ℕ
unfolding search_run
binary_search l term = elim (search_run l term) [ none ↦ none | some answer ↦ answer ]

abbrev pub min_int : ℕ → ℕ → ℕ
min_int a b = if ltb a b then a else b

abbrev pub max_int : ℕ → ℕ → ℕ
max_int a b = if ltb b a then a else b

-- The `switch` on a refusal: where to try next.
unfoldable pub next_try : Hint → ℕ → Raft → ℕ
unfolding index_add binary_search
next_try no_hint next r = max_int 1 (next - 1)
next_try (x_len n) next r = min_int n (index_add r (length r.log))
next_try (x_term term i) next r = elim (binary_search r.log term) [
  | none ↦ min_int i (index_add r (length r.log))
  | some at ↦ min_int (index_add r at) (index_add r (length r.log))
]

-- What the goroutine for follower `i` does with a reply.
unfoldable pub entries_reply : ℕ → ℕ → AppendEntriesReply → Raft → Raft
unfolding step_down next_try
entries_reply i my_next reply r =
    if ltb r.term reply.term
    then persist (step_down reply.term r)
    else if reply.success
    then record r {
      next_index = set r.next_index i my_next;
      match_index = set r.match_index i (my_next - 1);
    }
    else record r {
      next_index = set r.next_index i (next_try reply.hint (get_or r.next_index i 0) r);
    }
