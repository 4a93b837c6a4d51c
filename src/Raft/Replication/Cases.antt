-- ===== src/Raft/Replication/Cases.antt =====
-- lab3-D/raft.go: the ways through `AppendEntries`, for whatever is to be shown of the peer after it.
use cslearning.Prelude.{
  if◌then◌else◌, ℕ, inl, inr, done, panic, OnReturn, OnReturn_keep, ◌>>=◌, index, ◌==◌, Run,
  Bool-cases, ℤ, to_index, ltb,
}
use cslearning.Raft.State.{Raft, Log}
use cslearning.Raft.Replication.{
  AppendEntriesArgs, is_short, reject, accept, match_prev, see_leader, append_entries,
}

module _ (P : Raft → Type 0) (args : AppendEntriesArgs) where
  match_prev_found :
      (p : ℤ) (r : Raft) (found : Run Log)
      → P r
      → ((at : ℕ) → P (accept at args r).0)
      → OnReturn
          (found >>= λ e.
            if e.term == args.prev_log_term
            then done (accept (to_index p) args r)
            else reject p r >>= (λ reply. done (r, reply)))
          (λ x. P x.0)
  match_prev_found p r panic kept taken = tt
  match_prev_found p r (done e) kept taken = elim (Bool-cases (e.term == args.prev_log_term)) [
    | inl agrees ↦ rw agrees (taken (to_index p))
    | inr differs ↦ rw differs (OnReturn_keep P r (reject p r) kept)
  ]

  match_prev_cases :
      (p : ℤ) (r : Raft)
      → P r
      → ((at : ℕ) → P (accept at args r).0)
      → OnReturn (match_prev p args r) (λ x. P x.0)
  unfolding match_prev
  match_prev_cases p r kept taken = elim (Bool-cases (is_short r.log p)) [
    | inl short ↦ rw short (OnReturn_keep P r (reject p r) kept)
    | inr long ↦ rw long (match_prev_found p r (index r.log p) kept taken)
  ]

  -- What holds of the peer left alone, of the peer that has seen the leader's term, and of what
  -- accepting the entries makes of that, holds of the peer after `AppendEntries`.
  pub append_entries_cases :
      (now : ℕ) (r : Raft)
      → P r
      → P (see_leader now args r)
      → ((at : ℕ) → P (accept at args (see_leader now args r)).0)
      → OnReturn (append_entries now args r) (λ x. P x.0)
  unfolding append_entries
  append_entries_cases now r kept seen taken = elim (Bool-cases (ltb args.term r.term)) [
    | inl stale ↦ rw stale kept
    | inr current ↦ rw current (match_prev_cases _ _ seen taken)
  ]
