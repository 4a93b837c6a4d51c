-- ===== src/Lab3C/Checked.antt =====
-- lab3-C/raft.go: `AppendEntries` for any `int` as `PrevLogIndex`, with every read of the log checked
-- for its range. Lab3C/Append.antt has it for a `PrevLogIndex` that is not negative.
use cslearning.Prelude.{
  ℕ, ◌+◌, ◌≡◌, refl, ◌∙◌, inl, inr, true, false, ltb, leb, ◌==◌, if◌then◌else◌, length, ℤ, pos,
  negsuc, to_index, Run, done, panic, index, Returns, ◌>>=◌, Bool-cases, arith,
}
use cslearning.Raft.State.{term_at}
use cslearning.Raft.Replication.{
  AppendEntriesArgs, AppendEntriesReply, no_hint, x_len, x_term, is_empty, is_short,
}
use cslearning.Raft.Replication.Checked.{
  back_up_checked, append_loop_checked, back_up-checked, append_loop-checked, read_at,
}
use cslearning.Lab3C.State.{Raft, persist, step_down}
use cslearning.Lab3C.Append.{see_leader, reject, learn_commit, accept, match_prev, append_entries}

unfoldable pub reject_checked : ℤ → Raft → Run AppendEntriesReply
reject_checked p r =
    if is_short r.log p
    then done (record { term = r.term; success = false; hint = x_len (length r.log) })
    else (index r.log p >>= λ e.
        (back_up_checked r.log e.term (to_index p) >>= λ at.
        done (record { term = r.term; success = false; hint = x_term e.term at })))

-- Past the read at `PrevLogIndex`, which is `args.prev_log_index` here.
unfoldable pub accept_checked : AppendEntriesArgs → Raft → Run (Raft × AppendEntriesReply)
accept_checked args r =
    if is_empty args.entries
    then done (learn_commit args r, record { term = r.term; success = true; hint = no_hint })
    else (append_loop_checked (args.prev_log_index + 1) args.entries r.log >>= λ l. done (
      learn_commit args (persist (record r { log = l })),
      record { term = 0; success = true; hint = no_hint },
    ))

unfoldable pub match_checked : ℤ → AppendEntriesArgs → Raft → Run (Raft × AppendEntriesReply)
match_checked p args r =
    if is_short r.log p
    then reject_checked p r >>= (λ reply. done (r, reply))
    else (index r.log p >>= λ e.
        if e.term == args.prev_log_term
        then accept_checked (record args { prev_log_index = to_index p }) r
        else reject_checked p r >>= (λ reply. done (r, reply)))

-- The handler for `PrevLogIndex` `p`; that of `args` is not read.
unfoldable pub append_entries_checked :
    ℕ → ℤ → AppendEntriesArgs → Raft → Run (Raft × AppendEntriesReply)
append_entries_checked now p args r =
    let r₁ = see_leader now args r in
    if ltb args.term r₁.term
    then done (r₁, record { term = r₁.term; success = false; hint = no_hint })
    else match_checked p args r₁

reject-checked : (p : ℕ) (r : Raft) → reject_checked (pos p) r ≡ reject p r
unfolding reject_checked reject
reject-checked p r = elim (Bool-cases (leb (length r.log) p)) [
  | inl short ↦ rw short refl
  | inr long ↦
      rw (long, read_at r.log p (ground arith))
        (rw (back_up-checked r.log (term_at r.log p) p (ground arith)) refl)
]

accept-checked :
    (args : AppendEntriesArgs) (r : Raft) → accept_checked args r ≡ done (accept args r)
unfolding accept_checked accept
accept-checked args r = elim (Bool-cases (is_empty args.entries)) [
  | inl beat ↦ rw beat refl
  | inr new ↦ rw (new, append_loop-checked (args.prev_log_index + 1) args.entries r.log) refl
]

match_prev-checked :
    (p : ℕ) (args : AppendEntriesArgs) (r : Raft)
    → match_checked (pos p) args r ≡ match_prev (record args { prev_log_index = p }) r
unfolding match_checked match_prev
match_prev-checked p args r =
    rw (reject-checked p r, accept-checked (record args { prev_log_index = p }) r) refl

same_leader :
    (now p : ℕ) (args : AppendEntriesArgs) (r : Raft)
    → see_leader now (record args { prev_log_index = p }) r ≡ see_leader now args r
unfolding see_leader
same_leader now p args r = refl

same_staleness :
    (now : ℕ) (args : AppendEntriesArgs) (r : Raft)
    → ltb args.term (see_leader now args r).term ≡ ltb args.term r.term
unfolding see_leader persist step_down
same_staleness now args r = ground arith

-- A stale request is refused before anything is read.
pub stale_returns :
    (now : ℕ) (p : ℤ) (args : AppendEntriesArgs) (r : Raft)
    → ltb args.term r.term ≡ true
    → Returns (append_entries_checked now p args r) (λ out. out.1.success ≡ false)
unfolding append_entries_checked
stale_returns now p args r stale = rw (same_staleness now args r ∙ stale) refl

-- A `PrevLogIndex` below 0 is read, and panics, unless the request is stale.
pub negative_panics :
    (now p : ℕ) (args : AppendEntriesArgs) (r : Raft)
    → ltb args.term r.term ≡ false
    → append_entries_checked now (negsuc p) args r ≡ panic
unfolding append_entries_checked match_checked
negative_panics now p args r current = rw (same_staleness now args r ∙ current) refl

-- Nothing is read out of range, where `PrevLogIndex` is not negative.
pub append_entries-checked :
    (now p : ℕ) (args : AppendEntriesArgs) (r : Raft)
    → append_entries_checked now (pos p) args r
      ≡ append_entries now (record args { prev_log_index = p }) r
unfolding append_entries_checked append_entries
append_entries-checked now p args r =
    rw (same_leader now p args r, match_prev-checked p args (see_leader now args r)) refl
