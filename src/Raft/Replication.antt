-- ===== src/Raft/Replication.antt =====
-- lab3-D/raft.go: `AppendEntries`, the follower's side of log replication.
pub mod Cases
pub mod Merge
pub mod Outcome
pub mod Agreement
pub mod Panic
pub mod Checked
use cslearning.Prelude.{
  ℕ, zero, suc, ◌+◌, ◌-◌, Bool, true, false, Option, none, some, List, [], ◌∷◌, ◌++◌, ltb, leb,
  ◌==◌, ◌&&◌, if◌then◌else◌, length, take, drop, ℤ, pos, negsuc, to_index, Run, done, panic, index,
  ◌>>=◌,
}
use cslearning.Raft.State.{Raft, Log, persist, step_down, index_sub, index_add, term_at}

pub record AppendEntriesArgs : Type 0 where
  pub term : ℕ
  pub leader_id : ℕ
  pub prev_log_index : ℕ
  pub prev_log_term : ℕ
  pub entries : List Log
  pub leader_commit : ℕ

-- `XTerm`, `XIndex` and `XLen`: the handler leaves all three at -1, or sets `XLen` alone, or sets
-- `XTerm` and `XIndex`.
pub data Hint : Type 0 where
  no_hint : Hint
  x_len : ℕ → Hint
  x_term : (term index : ℕ) → Hint

pub record AppendEntriesReply : Type 0 where
  pub term : ℕ
  pub success : Bool
  pub hint : Hint

-- `len(rf.log)-1 < p`, also where `p` is negative
abbrev pub is_short : List Log → ℤ → Bool
is_short l (pos p) = leb (length l) p
is_short l (negsuc p) = false

-- `for index > 0 && rf.log[index-1].Term == reply.XTerm { index-- }`, from an `index` in the log. The
-- loops of Raft/Replication/Checked.antt check each read, here and below, and are these.
unfoldable pub back_up : List Log → ℕ → ℕ → ℕ
back_up l term zero = zero
back_up l term (suc i) = if term_at l i == term then back_up l term i else suc i

-- The body of the loop over `args.Entries`; `at` is `index+i`, and `log_index < index+i` is
-- `len(log) <= at`.
unfoldable pub append_one : ℕ → Log → List Log → List Log
append_one at e l =
    if leb (length l) at
    then l ++ e ∷ []
    else if term_at l at == e.term
    then l
    else take at l ++ e ∷ []

unfoldable pub append_loop : ℕ → List Log → List Log → List Log
unfolding append_one
append_loop at [] l = l
append_loop at (e ∷ es) l = append_loop (at + 1) es (append_one at e l)

-- The reply that says where the logs part.
unfoldable pub reject : ℤ → Raft → Run AppendEntriesReply
unfolding index_add back_up
reject p r =
    if is_short r.log p
    then done (record { term = r.term; success = false; hint = x_len (index_add r (length r.log)) })
    else (index r.log p >>= λ e. done (record {
      term = r.term;
      success = false;
      hint = x_term e.term (index_add r (back_up r.log e.term (to_index p)));
    }))

abbrev pub is_empty {ℓ} : {A : Type ℓ} → List A → Bool
is_empty [] = true
is_empty (_ ∷ _) = false

-- `LeaderCommit > commitIndex`: the follower learns what is committed.
unfoldable pub learn_commit : AppendEntriesArgs → Raft → Raft
learn_commit args r =
    if ltb r.commit_index args.leader_commit
    then record r {
      commit_index =
          let last = args.prev_log_index + length args.entries in
          if ltb args.leader_commit last then args.leader_commit else last;
    }
    else r

-- The logs agree at `at`: take the entries in. With entries the reply's `Term` stays unset.
unfoldable pub accept : ℕ → AppendEntriesArgs → Raft → Raft × AppendEntriesReply
accept at args r =
    if is_empty args.entries
    then (learn_commit args r, record { term = r.term; success = true; hint = no_hint })
    else (
      learn_commit args (persist (record r { log = append_loop (at + 1) args.entries r.log })),
      record { term = 0; success = true; hint = no_hint },
    )

-- The check against `PrevLogIndex`, and what follows.
unfoldable pub match_prev : ℤ → AppendEntriesArgs → Raft → Run (Raft × AppendEntriesReply)
match_prev p args r =
    if is_short r.log p
    then reject p r >>= (λ reply. done (r, reply))
    else (index r.log p >>= λ e.
        if e.term == args.prev_log_term
        then done (accept (to_index p) args r)
        else reject p r >>= (λ reply. done (r, reply)))

-- `time_`, and the newer term if there is one
unfoldable pub see_leader : ℕ → AppendEntriesArgs → Raft → Raft
unfolding step_down
see_leader now args r =
    if ltb r.term args.term
    then persist (step_down args.term (record r { time = now }))
    else record r { time = now }

unfoldable pub append_entries : ℕ → AppendEntriesArgs → Raft → Run (Raft × AppendEntriesReply)
append_entries now args r =
    if ltb args.term r.term
    then done (r, record { term = r.term; success = false; hint = no_hint })
    else (let r₂ = see_leader now args r in match_prev (index_sub r₂ args.prev_log_index) args r₂)
