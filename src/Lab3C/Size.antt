-- ===== src/Lab3C/Size.antt =====
-- lab3-C/raft.go: no step changes the number of peers.
use cslearning.Prelude.{
  ℕ, ◌≡◌, refl, sym, ap, ◌∙◌, some, List, [], ◌∷◌, Bool-cases, inl, inr, arith, index, pos, leb,
  length, ltb, OnReturn, OnReturn-elim, OnReturn_imp, OnReturn-bind, OnReturn_keep, Returns-elim,
  ◌==◌,
}
use cslearning.Raft.State.{Field, int, logs, Persister, persist as full_persist}
use cslearning.Raft.Vote.{
  RequestVoteArgs, request_vote as full_request_vote, start_election as full_start_election,
}
use cslearning.Raft.State.{Raft as FullRaft}
use cslearning.Raft.Replication.{AppendEntriesArgs}
use cslearning.Lab3C.State.{Raft, persist, step_down, kill, make, read_persist, blank}
use cslearning.Lab3C.Vote.{ticker, receive_vote, finish_election}
use cslearning.Lab3C.Append.{append_entries, see_leader, match_prev, accept, learn_commit, reject}
use cslearning.Lab3C.Leader.{start, start_leader, entries_reply}
use cslearning.Lab3C.Node.{
  Step, votes, appends, starts, ticks, runs, hears, wins, leads, sends, answered, commits, applies,
  dies, restarts, Reach, here, next,
}
use cslearning.Lab3C.Beside.{lift, Sound}
use cslearning.Lab3C.Beside.Votes.{request_vote-Beside, start_election-Beside}
use cslearning.Lab3C.Beside.Always.{Applied, round_frame, push_frame, reach_frame, Reach-Sound}
use cslearning.Lab3C.Beside.OneVote.{fresh, unmarked, fresh-Sound}

full_request_vote-peers :
    (now : ℕ) (args : RequestVoteArgs) (r : FullRaft)
    → (full_request_vote now args r).0.peers ≡ r.peers
unfolding full_request_vote full_persist
full_request_vote-peers now args r = ground arith

full_start_election-peers : (now : ℕ) (r : FullRaft) → (full_start_election now r).0.peers ≡ r.peers
unfolding full_start_election full_persist
full_start_election-peers now r = ground arith

see_leader-peers :
    (now : ℕ) (args : AppendEntriesArgs) (r : Raft) → (see_leader now args r).peers ≡ r.peers
unfolding see_leader persist step_down
see_leader-peers now args r = ground arith

accept-peers : (args : AppendEntriesArgs) (r : Raft) → (accept args r).0.peers ≡ r.peers
unfolding accept learn_commit persist
accept-peers args r = ground arith

match_prev-peers :
    (args : AppendEntriesArgs) (r : Raft)
    → OnReturn (match_prev args r) (λ out. out.0.peers ≡ r.peers)
unfolding match_prev
match_prev-peers args r = elim (Bool-cases (leb (length r.log) args.prev_log_index)) [
  | inl short ↦
      rw short (OnReturn_keep (λ s. s.peers ≡ r.peers) r (reject args.prev_log_index r) refl)
  | inr long ↦ rw long (
      OnReturn-bind _ (index r.log (pos args.prev_log_index)) _ (λ e.
        elim (Bool-cases (e.term == args.prev_log_term)) [
          | inl same ↦ rw same (accept-peers args r)
          | inr other ↦
              rw other
                (OnReturn_keep (λ s. s.peers ≡ r.peers) r (reject args.prev_log_index r) refl)
        ]))
]

append_entries-peers :
    (now : ℕ) (args : AppendEntriesArgs) (r : Raft)
    → OnReturn (append_entries now args r) (λ out. out.0.peers ≡ r.peers)
unfolding append_entries
append_entries-peers now args r =
    let r₁ = see_leader now args r in
    elim (Bool-cases (ltb args.term r₁.term)) [
      | inl stale ↦ rw stale (see_leader-peers now args r)
      | inr current ↦ rw current (
          OnReturn_imp (λ out. out.0.peers ≡ r₁.peers) (λ out. out.0.peers ≡ r.peers)
            (match_prev args r₁) (λ out e. e ∙ see_leader-peers now args r)
            (match_prev-peers args r₁))
    ]

make-peers :
    (fs : List Field) (n me now : ℕ) (p : Persister)
    → OnReturn (make fs n me p now) (λ s. s.peers ≡ n)
unfolding make read_persist
make-peers [] n me now p = refl
make-peers (int (some t) ∷ int v ∷ logs l ∷ rest) n me now p = refl
make-peers _ n me now p = tt

Step-peers : {r s : Raft} → Sound r → Step r s → s.peers ≡ r.peers
unfolding start start_leader kill ticker finish_election receive_vote entries_reply persist
    step_down
Step-peers {r} h (votes args reply e) =
    let full =
      Returns-elim
        (λ out.
          full_request_vote 0 args (lift unmarked r)
          ≡ (lift (record unmarked { time = 0 }) out.0, out.1))
        _ _ (request_vote-Beside unmarked 0 args r h.rooted) e in
    sym (ap (λ out. out.0.peers) full) ∙ full_request_vote-peers 0 args (lift unmarked r)
Step-peers {r} h (appends later args reply e) =
    OnReturn-elim (λ out. out.0.peers ≡ r.peers) _ _ (append_entries-peers later args r) e
Step-peers {r} h (starts cmd) = ground arith
Step-peers {r} h (ticks later ms) = ground arith
Step-peers {r} h (runs later args e) =
    let full =
      Returns-elim
        (λ out.
          full_start_election later (lift unmarked r)
          ≡ (lift (record unmarked { time = later }) out.0, out.1))
        _ _ (start_election-Beside unmarked later r h.rooted) e in
    sym (ap (λ out. out.0.peers) full) ∙ full_start_election-peers later (lift unmarked r)
Step-peers {r} h (hears k reply) = ground arith
Step-peers {r} h (wins k) = ground arith
Step-peers h leads = refl
Step-peers {r} h (sends later out e) =
    let (t, same) =
      OnReturn-elim (λ o. (t : ℕ) × (o.0 ≡ record r { time = t })) _ _ (round_frame later r) e in
    ap (λ (c : Raft). c.peers) same
Step-peers {r} h (answered i sent reply) = ground arith
Step-peers {r} h commits = ap (λ (c : Raft). c.peers) (push_frame r).1
Step-peers {r} h (applies msg e) =
    let (k, same) = OnReturn-elim (Applied r) _ _ (reach_frame r) e in
    ap (λ (c : Raft). c.peers) same
Step-peers h dies = refl
Step-peers {r} h (restarts later e) =
    OnReturn-elim (λ s. s.peers ≡ r.peers) _ _
      (make-peers r.persister.raft_state r.peers r.me later r.persister) e

pub Reach-peers : (n me now : ℕ) {r : Raft} → Reach (fresh n me now) r → r.peers ≡ n
unfolding blank
Reach-peers n me now here = refl
Reach-peers n me now (next w st) =
    Step-peers (Reach-Sound w (fresh-Sound n me now)) st ∙ Reach-peers n me now w
