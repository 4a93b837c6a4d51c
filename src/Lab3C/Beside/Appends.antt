-- ===== src/Lab3C/Beside/Appends.antt =====
-- lab3-C/raft.go: `AppendEntries`, beside that of lab3-D.
use cslearning.Prelude.{
  ℕ, ◌+◌, ◌≡◌, refl, sym, ◌∙◌, true, false, length, leb, ltb, ◌==◌, if◌then◌else◌, pos, sub_ℕ, Run,
  done, panic, Returns, Bool-cases, inl, inr, arith, ◌>>=◌, ap,
}
use native.Mathlib.Nat.{add-zero}
use cslearning.Raft.State.{
  Raft as FullRaft, term_at, persist as full_persist, step_down as full_step_down, index_add,
  index_sub,
}
use cslearning.Raft.Replication.{
  AppendEntriesArgs, AppendEntriesReply, is_empty, append_loop, no_hint,
  append_entries as full_append_entries, see_leader as full_see_leader,
  match_prev as full_match_prev, accept as full_accept, learn_commit as full_learn_commit,
  reject as full_reject,
}
use cslearning.Lab3C.State.{Raft, persist, step_down}
use cslearning.Lab3C.Append.{see_leader, reject, learn_commit, accept, match_prev, append_entries}
use cslearning.Lab3C.Beside.{Extra, lift, get_elem?_or}

-- What lab3-D comes to: the same reply and the same state, where of what is kept apart (`x`) only
-- `commitIndex` changes, and comes to agree if the two agreed on it before.
abbrev pub SameOutcome :
    Extra → Raft → Run (FullRaft × AppendEntriesReply) → Raft × AppendEntriesReply → Type 0
SameOutcome x c full out =
    (k : ℕ) × (full ≡ done (lift (record x { commit_index = k }) out.0, out.1))
    × (x.commit_index ≡ c.commit_index → k ≡ out.0.commit_index)

-- What is kept apart once the request has come in: lab3-D sets `time_` unless it is stale.
abbrev pub heard : Extra → ℕ → AppendEntriesArgs → Raft → Extra
heard x now args c = record x { time = if ltb args.term c.term then x.time else now }

-- `commitIndex` after a request.
abbrev learned : AppendEntriesArgs → ℕ → ℕ
learned args c =
    if ltb c args.leader_commit
    then (let last = args.prev_log_index + length args.entries in
        if ltb args.leader_commit last then args.leader_commit else last)
    else c

learn-Beside :
    (x : Extra) (args : AppendEntriesArgs) (c : Raft)
    → full_learn_commit args (lift x c)
      ≡ lift (record x { commit_index = learned args x.commit_index }) (learn_commit args c)
unfolding learn_commit full_learn_commit
learn-Beside x args c = elim (Bool-cases (ltb x.commit_index args.leader_commit)) [
  | inl learns ↦ rw learns (elim (Bool-cases (ltb c.commit_index args.leader_commit)) [
    | inl also ↦ rw also refl
    | inr keeps ↦ rw keeps refl
  ])
  | inr keeps ↦ rw keeps (elim (Bool-cases (ltb c.commit_index args.leader_commit)) [
    | inl learns ↦ rw learns refl
    | inr also ↦ rw also refl
  ])
]

learn_commit-learned :
    (args : AppendEntriesArgs) (c : Raft)
    → (learn_commit args c).commit_index ≡ learned args c.commit_index
unfolding learn_commit
learn_commit-learned args c = elim (Bool-cases (ltb c.commit_index args.leader_commit)) [
  | inl learns ↦ rw learns refl
  | inr keeps ↦ rw keeps refl
]

taken :
    (x : Extra) (args : AppendEntriesArgs) (c : Raft) (reply : AppendEntriesReply)
    → SameOutcome x c (done (full_learn_commit args (lift x c), reply)) (learn_commit args c, reply)
taken x args c reply = (
  learned args x.commit_index,
  ap (λ (s : FullRaft). done (s, reply)) (learn-Beside x args c),
  λ e. ap (learned args) e ∙ sym (learn_commit-learned args c),
)

accept-Beside :
    (x : Extra) (args : AppendEntriesArgs) (c : Raft)
    → SameOutcome x c (done (full_accept args.prev_log_index args (lift x c))) (accept args c)
unfolding accept full_accept persist full_persist
accept-Beside x args c = elim (Bool-cases (is_empty args.entries)) [
  | inl beat ↦ rw beat (taken x args c (record { term = c.term; success = true; hint = no_hint }))
  | inr new ↦
      let l = append_loop (args.prev_log_index + 1) args.entries c.log in
      rw new (
        taken x args (persist (record c { log = l }))
          (record { term = 0; success = true; hint = no_hint }))
]

reject-Beside :
    (y : Extra) (p : ℕ) (c : Raft)
    → (full_reject (pos p) (lift y c) ≡ reject p c) × Returns (reject p c) (λ reply. Unit {0})
unfolding reject full_reject index_add
reject-Beside y p c = elim (Bool-cases (leb (length c.log) p)) [
  | inl short ↦ rw (short, add-zero) (refl, tt)
  | inr long ↦ rw (long, get_elem?_or c.log p (ground arith)) (rw add-zero (refl, tt))
]

-- Both refuse in the same way.
refused :
    (x : Extra) (c : Raft) (full m : Run AppendEntriesReply)
    → full ≡ m
    → Returns m (λ reply. Unit {0})
    → Returns
        (◌>>=◌ {B = Raft × AppendEntriesReply} m (λ reply. done (c, reply)))
        (SameOutcome x c (full >>= λ reply. done (lift x c, reply)))
refused x c full panic e h = absurd h
refused x c full (done reply) e h = (x.commit_index, rw e refl, λ same. same)

refusal :
    (x : Extra) (p : ℕ) (c : Raft)
    → Returns
        (◌>>=◌ {B = Raft × AppendEntriesReply} (reject p c) (λ reply. done (c, reply)))
        (SameOutcome x c (full_reject (pos p) (lift x c) >>= λ reply. done (lift x c, reply)))
refusal x p c =
    let (same, returns) = reject-Beside x p c in
    refused x c (full_reject (pos p) (lift x c)) (reject p c) same returns

match_prev-Beside :
    (x : Extra) (args : AppendEntriesArgs) (c : Raft)
    → Returns
        (match_prev args c)
        (SameOutcome x c (full_match_prev (pos args.prev_log_index) args (lift x c)))
unfolding match_prev full_match_prev
match_prev-Beside x args c = elim (Bool-cases (leb (length c.log) args.prev_log_index)) [
  | inl short ↦ rw short (refusal x args.prev_log_index c)
  | inr long ↦
      rw (long, get_elem?_or c.log args.prev_log_index (ground arith))
        (elim (Bool-cases (term_at c.log args.prev_log_index == args.prev_log_term)) [
          | inl agrees ↦ rw agrees (accept-Beside x args c)
          | inr differs ↦ rw differs (refusal x args.prev_log_index c)
        ])
]

sub_zero : (n : ℕ) → sub_ℕ n 0 ≡ pos n
sub_zero n = ground arith

-- On a request whose `PrevLogIndex` is not negative, `AppendEntries` of lab3-C returns, and lab3-D on
-- the same peer without a snapshot returns the same reply, with the same log, term, vote, role and
-- disk afterwards, and the same `commitIndex` if the two agreed on it before. In lab3-D
-- `nextIndex`, `matchIndex` and `lastApplied` stay as they were, and so does `time_` if the request is
-- stale; else `time_` is the present.
pub append_entries-Beside :
    (x : Extra) (now : ℕ) (args : AppendEntriesArgs) (c : Raft)
    → Returns
        (append_entries now args c)
        (SameOutcome (heard x now args c) c (full_append_entries now args (lift x c)))
unfolding append_entries full_append_entries see_leader full_see_leader persist full_persist
    step_down full_step_down index_sub
append_entries-Beside x now args c = elim (Bool-cases (ltb c.term args.term)) [
  | inl newer ↦
      let current : ltb args.term c.term ≡ false = ground arith in
      let level : ltb args.term args.term ≡ false = ground arith in
      rw (newer, current, level, sub_zero args.prev_log_index)
        (match_prev-Beside x₁ args (persist (step_down args.term (record c { time = now }))))
  | inr older ↦ elim (Bool-cases (ltb args.term c.term)) [
    | inl stale ↦ rw (older, stale) (x.commit_index, refl, λ same. same)
    | inr current ↦
        rw (older, current, sub_zero args.prev_log_index)
          (match_prev-Beside x₁ args (record c { time = now }))
  ]
]
  where
    x₁ : Extra
    x₁ = record x { time = now }
