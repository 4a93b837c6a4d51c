-- ===== src/Lab3B/Checked.antt =====
-- lab3-B/raft.go: `AppendEntries` for any `int` as `PrevLogIndex`, with every read of the log checked
-- for its range. Lab3B/Peer.antt has it for a `PrevLogIndex` that is not negative.
use cslearning.Prelude.{
  ℕ, ◌+◌, ◌≡◌, refl, inl, inr, true, false, ltb, leb, ◌==◌, ◌||◌, if◌then◌else◌, length, ℤ, pos,
  negsuc, to_index, Run, done, panic, index, ◌>>=◌, Bool-cases, arith,
}
use cslearning.Raft.State.{term_at}
use cslearning.Raft.Replication.{AppendEntriesArgs, is_empty, is_short}
use cslearning.Raft.Replication.Checked.{append_loop_checked, append_loop-checked, read_at}
use cslearning.Lab3A.Peer.{AppendEntriesReply}
use cslearning.Lab3B.Peer.{Raft, append_entries, accept, learn_commit}

-- Past the read at `PrevLogIndex`, which is `args.prev_log_index` here.
unfoldable pub accept_checked : AppendEntriesArgs → Raft → Run (Raft × AppendEntriesReply)
unfolding accept
accept_checked args r =
    if is_empty args.entries
    then done (accept args r)
    else (append_loop_checked (args.prev_log_index + 1) args.entries r.log >>= λ l.
        done (learn_commit args (record r { log = l }), record { term = 0; success = true }))

-- The handler for `PrevLogIndex` `p`; that of `args` is not read.
unfoldable pub append_entries_checked :
    ℕ → ℤ → AppendEntriesArgs → Raft → Run (Raft × AppendEntriesReply)
append_entries_checked now p args r =
    let r₁ = record r { time = now } in
    let refuse : Raft × AppendEntriesReply = (r₁, record { term = r.term; success = false }) in
    if ltb args.term r.term || is_short r.log p
    then done refuse
    else (index r.log p >>= λ e.
        if e.term == args.prev_log_term
        then accept_checked (record args { prev_log_index = to_index p }) r₁
        else done refuse)

accept-checked :
    (args : AppendEntriesArgs) (r : Raft) → accept_checked args r ≡ done (accept args r)
unfolding accept_checked accept
accept-checked args r = elim (Bool-cases (is_empty args.entries)) [
  | inl beat ↦ rw beat refl
  | inr new ↦ rw (new, append_loop-checked (args.prev_log_index + 1) args.entries r.log) refl
]

-- Nothing is read out of range, where `PrevLogIndex` is not negative.
pub append_entries-checked :
    (now : ℕ) (args : AppendEntriesArgs) (r : Raft)
    → append_entries_checked now (pos args.prev_log_index) args r ≡ append_entries now args r
unfolding append_entries_checked append_entries
append_entries-checked now args r =
    elim (Bool-cases (ltb args.term r.term || leb (length r.log) args.prev_log_index)) [
      | inl refused ↦ rw refused refl
      | inr long ↦
          rw (long, read_at r.log args.prev_log_index (ground arith))
            (elim (Bool-cases (term_at r.log args.prev_log_index == args.prev_log_term)) [
              | inl agrees ↦ rw (agrees, accept-checked args (record r { time = now })) refl
              | inr differs ↦ rw differs refl
            ])
    ]

-- A `PrevLogIndex` below 0 is read, and panics, unless the request is stale.
pub negative_panics :
    (now p : ℕ) (args : AppendEntriesArgs) (r : Raft)
    → ltb args.term r.term ≡ false
    → append_entries_checked now (negsuc p) args r ≡ panic
unfolding append_entries_checked
negative_panics now p args r current = rw current refl
