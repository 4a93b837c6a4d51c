-- ===== src/Lab3B/Appends.antt =====
-- lab3-B/raft.go: `AppendEntries`, beside that of lab3-C.
use cslearning.Prelude.{
  ℕ, ◌≡◌, refl, sym, subst, ◌∙◌, inl, inr, true, false, length, ltb, leb, ◌==◌, if◌then◌else◌, Run,
  done, Returns, Returns_imp, index, pos, Bool-cases, arith, ◌>>=◌,
}
use cslearning.Raft.State.{term_at, Persister}
use cslearning.Raft.Replication.{AppendEntriesArgs}
use cslearning.Raft.Replication.{AppendEntriesReply as HintedReply}
use cslearning.Lab3A.Peer.{AppendEntriesReply}
use cslearning.Lab3B.Peer.{Raft, append_entries, accept, learn_commit}
use cslearning.Lab3B.Checked.{append_entries_checked, append_entries-checked}
use cslearning.Lab3C.State.{Raft as LaterRaft, persist, step_down}
use cslearning.Lab3C.Append.{
  append_entries as later_append_entries, accept as later_accept,
  learn_commit as later_learn_commit, see_leader, match_prev, reject,
}
use cslearning.Lab3C.Beside.{get_elem?_or}

-- The peer of lab3-C with the same state and something on disk.
abbrev pub upgrade : Persister → Raft → LaterRaft
upgrade p r = record {
  peers = r.peers;
  persister = p;
  me = r.me;
  dead = r.dead;
  term = r.term;
  voted_for = r.voted_for;
  log = r.log;
  commit_index = r.commit_index;
  last_applied = r.last_applied;
  next_index = r.next_index;
  match_index = r.match_index;
  time = r.time;
  state = r.state;
}

-- lab3-C returns as well, with the same answer, the same log and the same `commitIndex`.
abbrev pub SameLog : Run (LaterRaft × HintedReply) → Raft × AppendEntriesReply → Type 0
SameLog later out = Returns later (λ x.
    (x.0.log ≡ out.0.log) × (x.0.commit_index ≡ out.0.commit_index) × (x.1.success ≡ out.1.success))

-- lab3-C refuses and leaves the log alone.
abbrev Refused : LaterRaft → LaterRaft × HintedReply → Type 0
Refused c x = (x.0.log ≡ c.log) × (x.0.commit_index ≡ c.commit_index) × (x.1.success ≡ false)

later_short :
    (args : AppendEntriesArgs) (c : LaterRaft)
    → leb (length c.log) args.prev_log_index ≡ true
    → Returns (match_prev args c) (Refused c)
unfolding match_prev reject
later_short args c short = rw short (refl, refl, refl)

later_differs :
    (args : AppendEntriesArgs) (c : LaterRaft)
    → leb (length c.log) args.prev_log_index ≡ false
    → (term_at c.log args.prev_log_index == args.prev_log_term) ≡ false
    → Returns (match_prev args c) (Refused c)
unfolding match_prev reject
later_differs args c long differs =
    rw (long, get_elem?_or c.log args.prev_log_index (ground arith)) (rw differs (refl, refl, refl))

later_agrees :
    (args : AppendEntriesArgs) (c : LaterRaft)
    → leb (length c.log) args.prev_log_index ≡ false
    → (term_at c.log args.prev_log_index == args.prev_log_term) ≡ true
    → match_prev args c ≡ done (later_accept args c)
unfolding match_prev
later_agrees args c long agrees =
    rw (long, get_elem?_or c.log args.prev_log_index (ground arith)) (rw agrees refl)

-- What `learn_commit` and `accept` do to the log and `commitIndex`, in either version.
accept-SameLog :
    (args : AppendEntriesArgs) (r : Raft) (c : LaterRaft)
    → c.log ≡ r.log
    → c.commit_index ≡ r.commit_index
    → SameLog (done (later_accept args c)) (accept args r)
unfolding accept later_accept learn_commit later_learn_commit persist
accept-SameLog args r c e f = ground (arith, e, f)

see_leader_lem :
    (p : Persister) (now : ℕ) (args : AppendEntriesArgs) (r : Raft)
    → ((see_leader now args (upgrade p r)).log ≡ r.log)
      × ((see_leader now args (upgrade p r)).commit_index ≡ r.commit_index)
      × (ltb args.term (see_leader now args (upgrade p r)).term ≡ ltb args.term r.term)
unfolding see_leader persist step_down
see_leader_lem p now args r = (ground arith, ground arith, ground arith)

-- What the two come to on a request that is not stale, from states with the same log.
match_prev-SameLog :
    (args : AppendEntriesArgs) (r : Raft) (c : LaterRaft) (refused : AppendEntriesReply)
    → c.log ≡ r.log
    → c.commit_index ≡ r.commit_index
    → refused.success ≡ false
    → Returns
        (if leb (length r.log) args.prev_log_index
          then done (r, refused)
          else (index r.log (pos args.prev_log_index) >>= λ e.
              done (if e.term == args.prev_log_term then accept args r else (r, refused))))
        (SameLog (match_prev args c))
match_prev-SameLog args r c refused e f no_success =
    elim (Bool-cases (leb (length r.log) args.prev_log_index)) [
      | inl short ↦ rw short (refusing (later_short args c (rw e short)))
      | inr long ↦
          rw (long, get_elem?_or r.log args.prev_log_index (ground arith))
            (elim (Bool-cases (term_at r.log args.prev_log_index == args.prev_log_term)) [
              | inl agrees ↦
                  rw (agrees, later_agrees args c (rw e long) (rw e agrees))
                    (accept-SameLog args r c e f)
              | inr differs ↦
                  rw differs (refusing (later_differs args c (rw e long) (rw e differs)))
            ])
    ]
  where
    refusing : Returns (match_prev args c) (Refused c) → SameLog (match_prev args c) (r, refused)
    refusing h =
        Returns_imp (Refused c) _ (match_prev args c)
          (λ x g. (g.0 ∙ e, g.1 ∙ f, g.2 ∙ sym no_success)) h

unchecked-SameLog :
    (p : Persister) (now : ℕ) (args : AppendEntriesArgs) (r : Raft)
    → Returns (append_entries now args r) (SameLog (later_append_entries now args (upgrade p r)))
unfolding append_entries later_append_entries
unchecked-SameLog p now args r =
    let (logs, commits, terms) = see_leader_lem p now args r in
    let c = see_leader now args (upgrade p r) in
    elim (Bool-cases (ltb args.term r.term)) [
      | inl stale ↦ rw (stale, terms ∙ stale) (logs, commits, refl)
      | inr current ↦
          rw (current, terms ∙ current)
            (match_prev-SameLog args (record r { time = now }) c
              (record { term = r.term; success = false }) logs commits refl)
    ]

-- On a request whose `PrevLogIndex` is not negative, `AppendEntries` of lab3-B, with every read of the
-- log checked for its range, returns, and so does that of lab3-C from the same state, whatever is
-- on disk; the two answer with the same success and leave the same log and the same
-- `commitIndex`.
pub append_entries-SameLog :
    (p : Persister) (now : ℕ) (args : AppendEntriesArgs) (r : Raft)
    → Returns
        (append_entries_checked now (pos args.prev_log_index) args r)
        (SameLog (later_append_entries now args (upgrade p r)))
append_entries-SameLog p now args r =
    subst (λ m. Returns m (SameLog (later_append_entries now args (upgrade p r))))
      (sym (append_entries-checked now args r)) (unchecked-SameLog p now args r)
