-- ===== src/Lab3C/Beside/Votes.antt =====
-- lab3-C/raft.go: `RequestVote` and the election, beside those of lab3-D.
use cslearning.Prelude.{
  ℕ, ◌+◌, ◌-◌, ◌≡◌, refl, Bool, true, false, some, List, [], ◌∷◌, length, ltb, if◌then◌else◌,
  Returns, Bool-cases, inl, inr, arith, ap,
}
use cslearning.Raft.State.{
  is_candidate, Log, persist as full_persist, last_log as full_last_log, term_at, index_add,
  step_down as full_step_down,
}
use cslearning.Raft.Vote.{
  RequestVoteArgs, RequestVoteReply, voted_other, behind, receive_vote as full_receive_vote,
  finish_election as full_finish_election, request_vote as full_request_vote,
  request_vote_tail as full_tail, start_election as full_start_election,
}
use cslearning.Lab3C.State.{Raft, persist, last_entry, step_down}
use cslearning.Lab3C.Vote.{
  request_vote, request_vote_tail, start_election, receive_vote, finish_election,
}
use cslearning.Lab3C.Beside.{Extra, lift, IsRooted, last_entry_done}

full_last_log_lem :
    (x : Extra) (c : Raft)
    → IsRooted c.log
    → full_last_log (lift x c) ≡ (length c.log - 1, term_at c.log (length c.log - 1))
unfolding full_last_log index_add
full_last_log_lem x c h = shape c.log h
  where
    shape :
        (l : List Log)
        → IsRooted l
        → ◌≡◌ {A = ℕ × ℕ}
            (if ltb 1 (length l) then (length l - 1 + 0, term_at l (length l - 1)) else (0, 0))
            (length l - 1, term_at l (length l - 1))
    shape [] h = absurd h
    shape (e ∷ []) h = ground arith
    shape (e ∷ f ∷ l) h = ground arith

tail-Beside :
    (x : Extra) (flag : Bool) (args : RequestVoteArgs) (c : Raft)
    → IsRooted c.log
    → Returns
        (request_vote_tail flag args c)
        (λ out. full_tail flag args (lift x c) ≡ (lift x out.0, out.1))
unfolding request_vote_tail full_tail last_entry persist full_persist
tail-Beside x flag args c h = elim (Bool-cases (ltb args.term c.term)) [
  | inl stale ↦ rw stale refl
  | inr current ↦ rw current (elim (Bool-cases (voted_other c.voted_for args.candidate_id)) [
    | inl other ↦ rw other refl
    | inr free ↦
        rw (free, last_entry_done c.log h)
          (rw (full_last_log_lem x c h)
            (elim (Bool-cases (behind args (length c.log - 1, term_at c.log (length c.log - 1)))) [
              | inl late ↦
                  rw late (elim (Bool-cases flag) [ inl new ↦ rw new refl | inr old ↦ rw old refl ])
              | inr good ↦ rw good refl
            ]))
  ])
]

pub request_vote-Beside :
    (x : Extra) (now : ℕ) (args : RequestVoteArgs) (c : Raft)
    → IsRooted c.log
    → Returns (request_vote args c) (λ out.
      full_request_vote now args (lift x c) ≡ (lift (record x { time = now }) out.0, out.1))
unfolding request_vote full_request_vote step_down full_step_down
request_vote-Beside x now args c h = elim (Bool-cases (ltb c.term args.term)) [
  | inl newer ↦ rw newer (tail-Beside (record x { time = now }) true args (step_down args.term c) h)
  | inr older ↦ rw older (tail-Beside (record x { time = now }) false args c h)
]

pub start_election-Beside :
    (x : Extra) (now : ℕ) (c : Raft)
    → IsRooted c.log
    → Returns
        (start_election now c)
        (λ out. full_start_election now (lift x c) ≡ (lift (record x { time = now }) out.0, out.1))
unfolding start_election full_start_election persist full_persist last_entry
start_election-Beside x now c h =
    let x₁ = record x { time = now } in
    let c₁ = persist (record c { term = c.term + 1; voted_for = some c.me; time = now }) in
    elim (Bool-cases (is_candidate c.state)) [
      | inl runs ↦
          rw (runs, last_entry_done c.log h)
            (ap
              (λ (last : ℕ × ℕ). (
                lift x₁ c₁,
                some (record {
                  term = c.term + 1;
                  candidate_id = c.me;
                  last_log_index = last.0;
                  last_log_term = last.1;
                }),
              ))
              (full_last_log_lem x₁ c₁ h))
      | inr idle ↦ rw idle refl
    ]

-- A reply is heard, and the election ends, as in lab3-D.
pub receive_vote-Beside :
    (x : Extra) (n : ℕ) (reply : RequestVoteReply) (c : Raft)
    → full_receive_vote n reply (lift x c)
      ≡ (lift x (receive_vote n reply c).0, (receive_vote n reply c).1)
unfolding receive_vote full_receive_vote persist full_persist full_step_down
receive_vote-Beside x n reply c = ground arith

pub finish_election-Beside :
    (x : Extra) (n : ℕ) (c : Raft)
    → full_finish_election n (lift x c) ≡ (lift x (finish_election n c).0, (finish_election n c).1)
unfolding finish_election full_finish_election
finish_election-Beside x n c = ground arith
