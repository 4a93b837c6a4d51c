-- ===== src/Lab3B/Votes.antt =====
-- lab3-B/raft.go: what the handlers and the election do to a peer's term and vote.
use cslearning.Prelude.{
  Bool, ◌⊎◌, subst, sym, ℕ, ◌+◌, ◌-◌, ◌≤◌, ◌<◌, ◌≡◌, refl, false, inl, inr, true, some, none,
  Option, Run, done, panic, index, length, arith, Bool-cases, OnReturn, OnReturn_imp, ◌>>=◌,
  if◌then◌else◌, ltb, leb, ◌==◌, ◌||◌, pos,
}
use cslearning.Raft.State.{Log, is_candidate}
use cslearning.Raft.Vote.{RequestVoteArgs, RequestVoteReply, voted_other, behind}
use cslearning.Raft.Replication.{AppendEntriesArgs, is_empty}
use cslearning.Ballot.{Ballot, Kept, Kept-refl, Grants}
use cslearning.Lab3A.Peer.{AppendEntriesReply}
use cslearning.Lab3B.Peer.{
  Raft, request_vote, request_vote_tail, start_election, append_entries, accept, learn_commit,
  step_down, last_entry,
}

abbrev pub ballot : Raft → Ballot
ballot r = record { term = r.term; voted_for = r.voted_for }

pub same_ballot :
    (r s : Raft) → s.term ≡ r.term → s.voted_for ≡ r.voted_for → Kept (ballot r) (ballot s)
same_ballot r s e v = inr (e, λ c h. cc)

-- What a vote request comes to: the vote is kept, and if it is granted it was free.
abbrev pub Voted : RequestVoteArgs → Raft → Raft × RequestVoteReply → Type 0
Voted args r out =
    Kept (ballot r) (ballot out.0)
    × (out.1.vote_granted ≡ true → Grants args.term args.candidate_id (ballot r) (ballot out.0))

tail-Voted :
    (args : RequestVoteArgs) (r : Raft)
    → args.term ≤ r.term
    → OnReturn (request_vote_tail args r) (Voted args r)
unfolding request_vote_tail
tail-Voted args r old = elim (Bool-cases (ltb args.term r.term)) [
  | inl stale ↦ rw stale (Kept-refl (ballot r), λ h. cc)
  | inr current ↦ rw current (elim (Bool-cases (voted_other r.voted_for args.candidate_id)) [
    | inl other ↦ rw other (Kept-refl (ballot r), λ h. cc)
    | inr free ↦ rw free (compared (ground arith) free (last_entry r))
  ])
]
  where
    compared :
        r.term ≡ args.term
        → voted_other r.voted_for args.candidate_id ≡ false
        → (m : Run Log)
        → OnReturn
            (◌>>=◌ {B = Raft × RequestVoteReply} m (λ e.
              if behind args (length r.log - 1, e.term)
              then done (r, record { term = r.term; vote_granted = false })
              else done (
                record r { voted_for = some args.candidate_id },
                record { term = r.term; vote_granted = true },
              )))
            (Voted args r)
    compared same free panic = tt
    compared same free (done e) = elim (Bool-cases (behind args (length r.log - 1, e.term))) [
      | inl late ↦ rw late (Kept-refl (ballot r), λ h. cc)
      | inr good ↦ rw good (
        inr (refl, λ v f. ground arith),
        λ h. record { in_term = same; voted = refl; sole = λ v e f. ground arith },
      )
    ]

-- What happens in a newer term keeps the vote of the older.
raised :
    (args : RequestVoteArgs) (r : Raft)
    → r.term < args.term
    → (out : Raft × RequestVoteReply) → Voted args (step_down args.term r) out
    → Voted args r out
unfolding step_down
raised args r newer out v = (
  inl (rises v.0),
  λ h.
      let g = v.1 h in
      record { in_term = g.in_term; voted = g.voted; sole = λ u e f. absurd (omega arith) },
)
  where
    rises : Kept (ballot (step_down args.term r)) (ballot out.0) → r.term < out.0.term
    rises (inl p) = omega arith
    rises (inr (e, k)) = omega arith

pub request_vote-Voted :
    (args : RequestVoteArgs) (r : Raft) → OnReturn (request_vote args r) (Voted args r)
unfolding request_vote step_down
request_vote-Voted args r = elim (Bool-cases (ltb r.term args.term)) [
  | inr older ↦ rw older (tail-Voted args r (ground arith))
  | inl newer ↦ rw newer (
      OnReturn_imp _ _ (request_vote_tail args (step_down args.term r))
        (raised args r (ground arith)) (tail-Voted args (step_down args.term r) (omega arith)))
]

ballot-learn_commit :
    (args : AppendEntriesArgs) (r : Raft) → ballot (learn_commit args r) ≡ ballot r
unfolding learn_commit
ballot-learn_commit args r = elim (Bool-cases (ltb r.commit_index args.leader_commit)) [
  | inl learns ↦ rw learns refl
  | inr keeps ↦ rw keeps refl
]

accept-Kept :
    (args : AppendEntriesArgs) (r : Raft)
    → r.term ≤ args.term
    → Kept (ballot r) (ballot (accept args r).0)
unfolding accept
accept-Kept args r current = elim (Bool-cases (is_empty args.entries)) [
  | inl beat ↦ rw beat (learned _ (seen (Bool-cases (ltb r.term args.term))))
  | inr new ↦ rw new (learned _ (Kept-refl (ballot r)))
]
  where
    learned :
        (s : Raft) → Kept (ballot r) (ballot s) → Kept (ballot r) (ballot (learn_commit args s))
    learned s h = subst (Kept (ballot r)) (sym (ballot-learn_commit args s)) h

    seen :
        (ltb r.term args.term ≡ true) ⊎ (ltb r.term args.term ≡ false)
        → Kept (ballot r) (record {
          term = args.term;
          voted_for = if ltb r.term args.term then none else r.voted_for;
        })
    seen (inl newer) = inl (ground arith)
    seen (inr older) = rw older (inr (ground arith, λ v e. e))

pub append_entries-Kept :
    (now : ℕ) (args : AppendEntriesArgs) (r : Raft)
    → OnReturn (append_entries now args r) (λ out. Kept (ballot r) (ballot out.0))
unfolding append_entries
append_entries-Kept now args r =
    elim (Bool-cases (ltb args.term r.term || leb (length r.log) args.prev_log_index)) [
      | inl refused ↦ rw refused (Kept-refl (ballot r))
      | inr taken ↦ rw taken (matched (ground arith) (index r.log (pos args.prev_log_index)))
    ]
  where
    chosen :
        r.term ≤ args.term
        → (b : Bool)
        → Kept (ballot r) (
            ballot
              (if b
                then accept args (record r { time = now })
                else (record r { time = now }, record { term = r.term; success = false })).0)
    chosen current true = accept-Kept args (record r { time = now }) current
    chosen current false = Kept-refl (ballot r)

    matched :
        r.term ≤ args.term
        → (m : Run Log)
        → OnReturn
            (◌>>=◌ {B = Raft × AppendEntriesReply} m (λ e. done (
              if e.term == args.prev_log_term
              then accept args (record r { time = now })
              else (record r { time = now }, record { term = r.term; success = false }))))
            (λ out. Kept (ballot r) (ballot out.0))
    matched current panic = tt
    matched current (done e) = chosen current (e.term == args.prev_log_term)

pub start_election-Kept :
    (now : ℕ) (r : Raft) → OnReturn (start_election now r) (λ out. Kept (ballot r) (ballot out.0))
unfolding start_election
start_election-Kept now r = elim (Bool-cases (is_candidate r.state)) [
  | inl at_work ↦
      rw at_work
        (read (last_entry (record r { time = now; term = r.term + 1; voted_for = some r.me })))
  | inr idle ↦ rw idle (Kept-refl (ballot r))
]
  where
    read :
        (m : Run Log)
        → OnReturn
            (◌>>=◌ {B = Raft × Option RequestVoteArgs} m (λ e. done (
              record r { time = now; term = r.term + 1; voted_for = some r.me },
              some (record {
                term = r.term + 1;
                candidate_id = r.me;
                last_log_index = length r.log - 1;
                last_log_term = e.term;
              }),
            )))
            (λ out. Kept (ballot r) (ballot out.0))
    read panic = tt
    read (done e) = inl (omega arith)
