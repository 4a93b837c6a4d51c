-- ===== src/Lab3C/Replicate.antt =====
-- lab3-C/raft.go: a leader's `AppendEntries` request at a follower whose log matches.
use cslearning.Prelude.{
  ℕ, zero, suc, ◌+◌, ◌-◌, ◌≤◌, ◌≡◌, refl, sym, ◌∙◌, subst, ◌⊎◌, inl, inr, true, false, some, List,
  [], ◌∷◌, length, drop, get_elem?, get_or, leb, ltb, ◌==◌, ==→eq, Bool-cases, Option-cases, arith,
  Run, done, panic, Returns, Returns_imp, OnReturn, index, slice_from, pos, sub_ℕ, ◌>>=◌,
  if◌then◌else◌,
}
use cslearning.Raft.State.{Log, zero_log, term_at, leader, follower}
use cslearning.Raft.Replication.{AppendEntriesArgs, AppendEntriesReply, append_loop}
use cslearning.Lab3C.State.{Raft, persist, step_down}
use cslearning.Lab3C.Append.{see_leader, reject, learn_commit, accept, match_prev, append_entries}
use cslearning.Lab3C.Leader.{build_entries}
use cslearning.Lab3C.Beside.{get_elem?_or}
use cslearning.Lab3C.Matching.{Matching, Built, append_outcome}

past_end : (l : List Log) (n : ℕ) → length l ≤ n → drop n l ≡ []
past_end [] zero h = refl
past_end [] (suc n) h = refl
past_end (e ∷ l) zero h = absurd (omega arith)
past_end (e ∷ l) (suc n) h = past_end l n (omega arith)

abbrev args_at : ℕ → Log → List Log → Raft → AppendEntriesArgs
args_at next prev entries r = record {
  term = r.term;
  leader_id = r.me;
  prev_log_index = next - 1;
  prev_log_term = prev.term;
  entries = entries;
  leader_commit = r.commit_index;
}

-- What `startLearder` sends is made from the leader's log, in its term.
abbrev pub Sent : Raft → AppendEntriesArgs × ℕ → Type 0
Sent r out = Built r.log out.0 × (out.0.term ≡ r.term)

request_made :
    (k : ℕ) (prev : Log) (r : Raft)
    → get_elem? r.log k ≡ some prev
    → OnReturn
        (◌>>=◌ {B = AppendEntriesArgs × ℕ}
          (if leb (length r.log) (suc k) then done [] else slice_from r.log (pos (suc k)))
          (λ entries. done (args_at (suc k) prev entries r, length r.log)))
        (Sent r)
request_made k prev r there = elim (Bool-cases (leb (length r.log) (suc k))) [
  | inl over ↦ rw over (built [] (sym (past_end r.log (suc k) (ground arith))))
  | inr more ↦
      let inside : leb (suc k) (length r.log) ≡ true = ground arith in
      rw (more, inside) (built (drop (suc k) r.log) refl)
]
  where
    back : suc k - 1 ≡ k
    back = omega arith

    built :
        (entries : List Log)
        → entries ≡ drop (suc k) r.log
        → Sent r (args_at (suc k) prev entries r, length r.log)
    built entries e = (
      record { prev = prev; prev_there = rw back there; prev_term = refl; rest_sent = rw back e },
      refl,
    )

entries_for : (next : ℕ) (r : Raft) → Run (AppendEntriesArgs × ℕ)
entries_for next r = index r.log (sub_ℕ next 1) >>= λ prev.
    ((if leb (length r.log) next then done [] else slice_from r.log (pos next)) >>= λ entries.
    done (args_at next prev entries r, length r.log))

entries_for-Sent : (next : ℕ) (r : Raft) → OnReturn (entries_for next r) (Sent r)
unfolding entries_for
entries_for-Sent zero r = tt
entries_for-Sent (suc k) r =
    let from_one : sub_ℕ (suc k) 1 ≡ pos k = ground arith in
    rw from_one (elim (Option-cases (get_elem? r.log k)) [
      | inl missing ↦ rw missing tt
      | inr (prev, there) ↦ rw there (request_made k prev r there)
    ])

pub build_entries-Sent : (i : ℕ) (r : Raft) → OnReturn (build_entries i r) (Sent r)
unfolding build_entries entries_for
build_entries-Sent i r = elim (Option-cases (get_elem? r.next_index i)) [
  | inl missing ↦ rw missing tt
  | inr (next, found) ↦ rw found (entries_for-Sent next r)
]

accept_log :
    (args : AppendEntriesArgs) (c : Raft)
    → (accept args c).0.log ≡ append_loop (args.prev_log_index + 1) args.entries c.log
unfolding accept learn_commit persist append_loop
accept_log args c = ground arith

accept_role :
    (args : AppendEntriesArgs) (c : Raft)
    → ((accept args c).0.state ≡ c.state) × ((accept args c).0.term ≡ c.term)
unfolding accept learn_commit persist
accept_role args c = ground arith

-- The log stays or becomes `m`; the role and the term stay.
abbrev Taken : List Log → Raft → Raft × AppendEntriesReply → Type 0
Taken m c out =
    ((out.0.log ≡ c.log) ⊎ (out.0.log ≡ m)) × (out.0.state ≡ c.state) × (out.0.term ≡ c.term)

kept :
    (m : List Log) (p : ℕ) (c : Raft)
    → Returns (reject p c) (λ reply. Unit {0})
    → Returns
        (◌>>=◌ {B = Raft × AppendEntriesReply} (reject p c) (λ reply. done (c, reply)))
        (Taken m c)
kept m p c h = go (reject p c) h
  where
    go :
        (r : Run AppendEntriesReply)
        → Returns r (λ reply. Unit {0})
        → Returns (◌>>=◌ {B = Raft × AppendEntriesReply} r (λ reply. done (c, reply))) (Taken m c)
    go panic k = absurd k
    go (done reply) k = (inl refl, refl, refl)

reject_returns : (p : ℕ) (c : Raft) → Returns (reject p c) (λ reply. Unit {0})
unfolding reject
reject_returns p c = elim (Bool-cases (leb (length c.log) p)) [
  | inl short ↦ rw short tt
  | inr long ↦ rw (long, get_elem?_or c.log p (ground arith)) tt
]

match_prev-Taken :
    (m : List Log) (args : AppendEntriesArgs) (c : Raft)
    → Matching c.log m
    → Built m args
    → Returns (match_prev args c) (Taken m c)
unfolding match_prev
match_prev-Taken m args c matches built =
    elim (Bool-cases (leb (length c.log) args.prev_log_index)) [
      | inl short ↦ rw short (kept m args.prev_log_index c (reject_returns args.prev_log_index c))
      | inr long ↦
          let there = get_elem?_or c.log args.prev_log_index (ground arith) in
          rw (long, there)
            (elim (Bool-cases (term_at c.log args.prev_log_index == args.prev_log_term)) [
              | inr differs ↦
                  rw differs (kept m args.prev_log_index c (reject_returns args.prev_log_index c))
              | inl agrees ↦ rw agrees (
                subst (λ l. (l ≡ c.log) ⊎ (l ≡ m)) (sym (accept_log args c))
                    (append_outcome c.log m args (get_or c.log args.prev_log_index zero_log) matches
                      built there (==→eq _ _ agrees)),
                (accept_role args c).0,
                (accept_role args c).1,
              )
            ])
    ]

-- What a follower comes to: its log stays or becomes `m`, and it goes on to lead only if it led in
-- its term already, where the request changes its log only if it is of that term.
abbrev pub Followed : List Log → AppendEntriesArgs → Raft → Raft → Type 0
Followed m args c s =
    ((s.log ≡ c.log) ⊎ (s.log ≡ m))
    × (s.state ≡ leader
        → (c.state ≡ leader) × (s.term ≡ c.term) × ((args.term ≡ c.term) ⊎ (s.log ≡ c.log)))

pub append_entries-Followed :
    (now : ℕ) (m : List Log) (args : AppendEntriesArgs) (c : Raft)
    → Matching c.log m
    → Built m args
    → Returns (append_entries now args c) (λ out. Followed m args c out.0)
unfolding append_entries see_leader persist step_down
append_entries-Followed now m args c matches built = elim (Bool-cases (ltb c.term args.term)) [
  | inl newer ↦
      let level : ltb args.term args.term ≡ false = ground arith in
      rw (newer, level)
        (Returns_imp (Taken m (persist (step_down args.term (record c { time = now })))) _
          (match_prev args _) (λ out t. (t.0, λ h. absurd (not_leader (sym t.1 ∙ h))))
          (match_prev-Taken m args (persist (step_down args.term (record c { time = now }))) matches
            built))
  | inr older ↦ elim (Bool-cases (ltb args.term c.term)) [
    | inl stale ↦ rw (older, stale) (inl refl, λ h. (h, refl, inr refl))
    | inr current ↦
        rw (older, current)
          (Returns_imp (Taken m (record c { time = now })) _ (match_prev args _)
            (λ out t. (t.0, λ h. (sym t.1 ∙ h, t.2, inl (ground arith))))
            (match_prev-Taken m args (record c { time = now }) matches built))
  ]
]
  where
    not_leader : follower ≡ leader → ⊥
    not_leader e = cc
