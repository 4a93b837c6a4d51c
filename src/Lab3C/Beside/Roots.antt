-- ===== src/Lab3C/Beside/Roots.antt =====
-- lab3-C/raft.go: the first entry of the log is the one that `Make` put there, in memory and on
-- disk, whatever the peer does.
use cslearning.Prelude.{
  ℕ, zero, suc, ◌+◌, ◌-◌, ◌<◌, ◌≡◌, sym, subst, Bool, true, false, some, List, [], ◌∷◌, ◌++◌,
  length, leb, ltb, ◌==◌, Bool-cases, inl, inr, arith, take, OnReturn, OnReturn_keep, if◌then◌else◌,
}
use cslearning.Raft.State.{is_candidate, Log, Cmd, is_leader, term_at}
use cslearning.Raft.Replication.{AppendEntriesArgs, append_loop, append_one, is_empty}
use cslearning.Raft.Vote.{RequestVoteArgs, RequestVoteReply, voted_other, behind}
use cslearning.Lab3C.State.{Raft, persist, step_down, last_entry}
use cslearning.Lab3C.Vote.{request_vote, request_vote_tail, start_election, receive_vote}
use cslearning.Lab3C.Append.{see_leader, learn_commit, accept, match_prev, append_entries, reject}
use cslearning.Lab3C.Leader.{start}
use cslearning.Lab3C.Beside.{IsRooted, SavedIsRooted, Sound, last_entry_done, get_elem?_or}

append-IsRooted : (l m : List Log) → IsRooted l → IsRooted (l ++ m)
append-IsRooted [] m h = absurd h
append-IsRooted (e ∷ l) m h = h

take-IsRooted : (n : ℕ) (l : List Log) → IsRooted l → IsRooted (take (suc n) l)
take-IsRooted n [] h = absurd h
take-IsRooted n (e ∷ l) h = h

append_one-IsRooted :
    (at : ℕ) (e : Log) (l : List Log) → IsRooted l → IsRooted (append_one (suc at) e l)
unfolding append_one
append_one-IsRooted at e l h = ground (
  arith,
  append-IsRooted l (e ∷ []) h,
  append-IsRooted (take (suc at) l) (e ∷ []) (take-IsRooted at l h),
)

append_loop-IsRooted :
    (at : ℕ) (es l : List Log) → 0 < at → IsRooted l → IsRooted (append_loop at es l)
unfolding append_loop
append_loop-IsRooted at [] l p h = h
append_loop-IsRooted zero (e ∷ es) l p h = absurd (omega arith)
append_loop-IsRooted (suc at) (e ∷ es) l p h =
    append_loop-IsRooted (suc at + 1) es (append_one (suc at) e l) (omega arith)
      (append_one-IsRooted at e l h)

pub persist-Sound : (c : Raft) → IsRooted c.log → Sound (persist c)
unfolding persist
persist-Sound c h = record { rooted = h; saved = h }

-- A change that leaves the log alone.
pub kept-Sound :
    (c s : Raft)
    → s.log ≡ c.log
    → s.persister.raft_state ≡ c.persister.raft_state
    → Sound c
    → Sound s
kept-Sound c s e f h = record {
  rooted = subst IsRooted (sym e) h.rooted;
  saved = subst SavedIsRooted (sym f) h.saved;
}

tail-Sound :
    (flag : Bool) (args : RequestVoteArgs) (c : Raft)
    → Sound c
    → OnReturn (request_vote_tail flag args c) (λ out. Sound out.0)
unfolding request_vote_tail last_entry
tail-Sound flag args c h = elim (Bool-cases (ltb args.term c.term)) [
  | inl stale ↦ rw stale h
  | inr current ↦ rw current (elim (Bool-cases (voted_other c.voted_for args.candidate_id)) [
    | inl other ↦ rw other h
    | inr free ↦
        rw (free, last_entry_done c.log h.rooted)
          (elim (Bool-cases (behind args (length c.log - 1, term_at c.log (length c.log - 1)))) [
            | inl late ↦ rw late (refused flag)
            | inr good ↦
                rw good (persist-Sound (record c { voted_for = some args.candidate_id }) h.rooted)
          ])
  ])
]
  where
    refused : (b : Bool) → Sound (if b then persist c else c)
    refused true = persist-Sound c h.rooted
    refused false = h

pub request_vote-Sound :
    (args : RequestVoteArgs) (c : Raft)
    → Sound c
    → OnReturn (request_vote args c) (λ out. Sound out.0)
unfolding request_vote step_down
request_vote-Sound args c h = elim (Bool-cases (ltb c.term args.term)) [
  | inl newer ↦
      rw newer (
        tail-Sound true args (step_down args.term c)
          (record { rooted = h.rooted; saved = h.saved }))
  | inr older ↦ rw older (tail-Sound false args c h)
]

learn-Sound : (args : AppendEntriesArgs) (s : Raft) → Sound s → Sound (learn_commit args s)
unfolding learn_commit
learn-Sound args s h = kept-Sound s (learn_commit args s) (ground arith) (ground arith) h

accept-Sound : (args : AppendEntriesArgs) (c : Raft) → Sound c → Sound (accept args c).0
unfolding accept
accept-Sound args c h = elim (Bool-cases (is_empty args.entries)) [
  | inl beat ↦ rw beat (learn-Sound args c h)
  | inr new ↦ rw new (
      learn-Sound args _ (
        persist-Sound (record c { log = append_loop (args.prev_log_index + 1) args.entries c.log })
          (append_loop-IsRooted (args.prev_log_index + 1) args.entries c.log (omega arith)
            h.rooted)))
]

see_leader-Sound :
    (now : ℕ) (args : AppendEntriesArgs) (c : Raft) → Sound c → Sound (see_leader now args c)
unfolding see_leader
see_leader-Sound now args c h = elim (Bool-cases (ltb c.term args.term)) [
  | inl newer ↦
      rw newer (
        persist-Sound (step_down args.term (record c { time = now }))
          (unfold step_down in h.rooted))
  | inr older ↦ rw older (record { rooted = h.rooted; saved = h.saved })
]

match_prev-Sound :
    (args : AppendEntriesArgs) (c : Raft)
    → Sound c
    → OnReturn (match_prev args c) (λ out. Sound out.0)
unfolding match_prev
match_prev-Sound args c h = elim (Bool-cases (leb (length c.log) args.prev_log_index)) [
  | inl short ↦ rw short (OnReturn_keep Sound c (reject args.prev_log_index c) h)
  | inr long ↦
      rw (long, get_elem?_or c.log args.prev_log_index (ground arith))
        (elim (Bool-cases (term_at c.log args.prev_log_index == args.prev_log_term)) [
          | inl agrees ↦ rw agrees (accept-Sound args c h)
          | inr differs ↦ rw differs (OnReturn_keep Sound c (reject args.prev_log_index c) h)
        ])
]

pub append_entries-Sound :
    (now : ℕ) (args : AppendEntriesArgs) (c : Raft)
    → Sound c
    → OnReturn (append_entries now args c) (λ out. Sound out.0)
unfolding append_entries
append_entries-Sound now args c h =
    let seen = see_leader-Sound now args c h in
    elim (Bool-cases (ltb args.term (see_leader now args c).term)) [
      | inl stale ↦ rw stale seen
      | inr current ↦ rw current (match_prev-Sound args (see_leader now args c) seen)
    ]

pub start-Sound : (cmd : Cmd) (c : Raft) → Sound c → Sound (start cmd c).0
unfolding start
start-Sound cmd c h = elim (Bool-cases (is_leader c.state)) [
  | inl first ↦ rw first (persist-Sound _ (append-IsRooted c.log _ h.rooted))
  | inr follows ↦ rw follows h
]

pub start_election-Sound :
    (now : ℕ) (c : Raft) → Sound c → OnReturn (start_election now c) (λ out. Sound out.0)
unfolding start_election last_entry persist
start_election-Sound now c h = elim (Bool-cases (is_candidate c.state)) [
  | inl at_work ↦
      rw (at_work, last_entry_done c.log h.rooted) (record { rooted = h.rooted; saved = h.rooted })
  | inr idle ↦ rw idle (record { rooted = h.rooted; saved = h.saved })
]

pub receive_vote-Sound :
    (n : ℕ) (reply : RequestVoteReply) (c : Raft) → Sound c → Sound (receive_vote n reply c).0
unfolding receive_vote persist
receive_vote-Sound n reply c h = record {
  rooted = ground (arith, h.rooted);
  saved = ground (arith, h.rooted, h.saved);
}
