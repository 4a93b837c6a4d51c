-- ===== src/Raft/Replication/Outcome.antt =====
-- lab3-D/raft.go: what `AppendEntries` does to the log on each of its ways out.
use cslearning.Prelude.{
  take-append-drop, sub_ℕ, ==→eq, ℕ, zero, suc, ◌+◌, ◌<◌, ◌≡◌, refl, inl, inr, true, false, List,
  [], ◌∷◌, ◌++◌, length, take, drop, ltb, ◌==◌, if◌then◌else◌, Bool-cases, arith, ℤ, pos, negsuc,
  to_index, index, Run, done, panic, OnReturn, ◌>>=◌,
}
use mathlib.Core.Path.{subst₂}
use cslearning.Raft.State.{Raft, Log, index_sub, persist, term_at}
use cslearning.Raft.Replication.{
  AppendEntriesArgs, AppendEntriesReply, is_short, reject, accept, learn_commit, match_prev,
  see_leader, append_entries,
}
use cslearning.Raft.Replication.Merge.{merge, append_loop-merge}

-- The leader's previous entry lies at position `at` of the log `l`, whose first entry stands for index `c`,
-- and the entry there has the term that the leader says.
abbrev pub Agrees : AppendEntriesArgs → List Log → ℕ → ℕ → Type 0
Agrees args l c at =
    (sub_ℕ args.prev_log_index c ≡ pos at) × (at < length l) × (term_at l at ≡ args.prev_log_term)

-- A success means that the logs agree at `PrevLogIndex`, and the entries are merged in behind it; a
-- failure leaves the log alone.
abbrev pub Outcome : AppendEntriesArgs → List Log → ℕ → Raft × AppendEntriesReply → Type 0
Outcome args l c x = elim x.1.success [
  | true ↦
      (at : ℕ) × Agrees args l c at
      × (x.0.log ≡ take (at + 1) l ++ merge (drop (at + 1) l) args.entries)
  | false ↦ x.0.log ≡ l
]

merge-nil : (l : List Log) → merge l [] ≡ l
unfolding merge
merge-nil [] = refl
merge-nil (x ∷ l) = refl

accept_log :
    (at : ℕ) (args : AppendEntriesArgs) (r : Raft)
    → at < length r.log
    → (accept at args r).0.log ≡ take (at + 1) r.log ++ merge (drop (at + 1) r.log) args.entries
unfolding accept learn_commit persist
accept_log at args r h = ground (
  arith,
  append_loop-merge (at + 1) args.entries r.log (omega arith),
  take-append-drop (at + 1) r.log,
  merge-nil (drop (at + 1) r.log),
)

accept_succeeds :
    (at : ℕ) (args : AppendEntriesArgs) (r : Raft) → (accept at args r).1.success ≡ true
unfolding accept
accept_succeeds at args r = ground arith

reject_fails : (p : ℤ) (r : Raft) → OnReturn (reject p r) (λ reply. reply.success ≡ false)
unfolding reject
reject_fails p r = ground arith

index_found :
    (l : List Log) (at : ℕ) (e : Log)
    → index l (pos at) ≡ done e
    → (at < length l) × (term_at l at ≡ e.term)
index_found [] at e h = cc
index_found (x ∷ l) zero e h = ground arith
index_found (x ∷ l) (suc at) e h = ground (arith, index_found l at e)

module _ (args : AppendEntriesArgs) (r : Raft) where
  Held : Raft × AppendEntriesReply → Type 0
  Held = Outcome args r.log r.last_snapshot_commit

  refused :
      (m : Run AppendEntriesReply)
      → OnReturn m (λ reply. reply.success ≡ false)
      → OnReturn {A = Raft × AppendEntriesReply} (m >>= λ reply. done (r, reply)) Held
  unfolding Held
  refused (done reply) h = ground arith
  refused panic h = tt

  accepted : (at : ℕ) → Agrees args r.log r.last_snapshot_commit at → Held (accept at args r)
  unfolding Held
  accepted at agrees = rw (accept_succeeds at args r) (at, agrees, accept_log at args r agrees.1)

  found :
      (p : ℤ) (m : Run Log)
      → index_sub r args.prev_log_index ≡ p
      → index r.log p ≡ m
      → OnReturn
          (m >>= λ e.
            if e.term == args.prev_log_term
            then done (accept (to_index p) args r)
            else reject p r >>= (λ reply. done (r, reply)))
          Held
  unfolding index_sub
  found p panic e h = tt
  found (negsuc p) (done x) e h = cc
  found (pos at) (done x) e h = elim (Bool-cases (x.term == args.prev_log_term)) [
    | inl agrees ↦ rw agrees (
        accepted at (
          e,
          (index_found r.log at x h).0,
          omega (arith, (index_found r.log at x h).1, ==→eq _ _ agrees),
        ))
    | inr differs ↦ rw differs (refused (reject (pos at) r) (reject_fails (pos at) r))
  ]

  match_prev_outcome : OnReturn (match_prev (index_sub r args.prev_log_index) args r) Held
  unfolding match_prev
  match_prev_outcome = elim (Bool-cases (is_short r.log (index_sub r args.prev_log_index))) [
    | inl short ↦ rw short (refused _ (reject_fails (index_sub r args.prev_log_index) r))
    | inr long ↦ rw long (found (index_sub r args.prev_log_index) _ refl refl)
  ]

see_leader_log :
    (now : ℕ) (args : AppendEntriesArgs) (r : Raft)
    → ((see_leader now args r).log ≡ r.log)
      × ((see_leader now args r).last_snapshot_commit ≡ r.last_snapshot_commit)
unfolding see_leader persist
see_leader_log now args r = ground arith

-- Whatever the request, an `AppendEntries` that does not panic either fails and leaves the log
-- alone, or succeeds, and then the log has at `PrevLogIndex` an entry of term `PrevLogTerm`, is
-- unchanged up to and with that entry, and continues with the old rest merged with the leader's
-- entries.
pub append_entries_outcome :
    (now : ℕ) (args : AppendEntriesArgs) (r : Raft)
    → OnReturn (append_entries now args r) (Outcome args r.log r.last_snapshot_commit)
unfolding append_entries Held
append_entries_outcome now args r = elim (Bool-cases (ltb args.term r.term)) [
  | inl stale ↦ rw stale refl
  | inr current ↦ rw current (
      subst₂
        (λ l c. OnReturn (match_prev (index_sub s args.prev_log_index) args s) (Outcome args l c))
        (see_leader_log now args r).0 (see_leader_log now args r).1 (match_prev_outcome args s))
]
  where
    s : Raft
    s = see_leader now args r
