-- ===== src/Raft/Commit/Checked.antt =====
-- lab3-D/raft.go: the loop of `pushToFollowers` as far as Go goes on with it, which is below the
-- snapshot where `commitIndex` is, with the read of `rf.log[N]` checked for its range.
use cslearning.Prelude.{
  ℕ, zero, suc, ◌+◌, ◌-◌, ◌≤◌, ◌<◌, ◌≡◌, refl, sym, ap, ◌∙◌, inl, inr, Bool, true, false, ltb, leb,
  ◌==◌, ◌||◌, not, if◌then◌else◌, length, pos, sub_ℕ, Run, done, panic, negsuc, index, ◌>>=◌,
  Bool-cases, arith,
}
use cslearning.Raft.State.{Raft, term_at, is_leader, killed, index_sub}
use cslearning.Raft.Vote.{majority}
use cslearning.Raft.Replication.Checked.{read_at}
use cslearning.Raft.Commit.{holders, commit_visit, commit_scan, push_to_followers}

-- One round at the `N` with `rf.indexAdd(N)` equal to `i`, where `rest` is what the later ones come to.
unfoldable pub commit_turn : ℕ → Raft → Run Raft → Run Raft
unfolding index_sub
commit_turn i r rest =
    if ltb r.commit_index i
    then (if leb (majority r) (holders i r.match_index)
        then (index r.log (index_sub r i) >>= λ e.
            if e.term == r.term then done (record r { commit_index = i }) else rest)
        else rest)
    else done r

-- The loop from that `N` on, which is negative below the snapshot.
unfoldable pub commit_loop : ℕ → Raft → Run Raft
commit_loop zero r = done r
commit_loop (suc i) r = let rest = commit_loop i r in commit_turn (suc i) r rest

unfoldable pub push_checked : Raft → Run (Raft × Bool)
unfolding commit_loop killed
push_checked r =
    if leb (length r.log + r.last_snapshot_commit) (r.commit_index + 1)
    then done (r, true)
    else if killed r || not (is_leader r.state)
    then done (r, false)
    else (commit_loop (length r.log + r.last_snapshot_commit - 1) r >>= λ s. done (s, true))

not_over : (i c : ℕ) → i ≤ c → ltb c i ≡ false
not_over i c h = ground arith

-- The loop ends at `commitIndex`.
loop_ends : (i : ℕ) (r : Raft) → i ≤ r.commit_index → commit_loop i r ≡ done r
unfolding commit_loop commit_turn
loop_ends zero r h = refl
loop_ends (suc i) r h = rw (not_over (suc i) r.commit_index h) refl

position : (n s : ℕ) → sub_ℕ (n + s) s ≡ pos n
position n s = rw (reached, back) refl
  where
    reached : leb s (n + s) ≡ true
    reached = ground arith

    back : n + s - s ≡ n
    back = omega arith

-- A round whose read is in range.
turn-visit :
    (n : ℕ) (r rest : Raft)
    → n < length r.log
    → commit_turn (n + r.last_snapshot_commit) r (done rest) ≡ done (commit_visit n r rest)
unfolding commit_turn
turn-visit n r rest inside =
    rw (position n r.last_snapshot_commit, read_at r.log n inside)
      (elim (Bool-cases (ltb r.commit_index (n + r.last_snapshot_commit))) [
        | inr over ↦ rw over refl
        | inl more ↦
            elim (Bool-cases
              (leb (majority r) (holders (n + r.last_snapshot_commit) r.match_index))) [
                | inr few ↦ rw (more, few) refl
                | inl enough ↦ elim (Bool-cases (term_at r.log n == r.term)) [
                  | inl own ↦ rw (more, enough, own) refl
                  | inr other ↦ rw (more, enough, other) refl
                ]
              ]
      ])

visit_ends :
    (r : Raft) → ltb r.commit_index (0 + r.last_snapshot_commit) ≡ false → commit_visit zero r r ≡ r
visit_ends r h = rw h refl

loop_down :
    (n s : ℕ) (r : Raft)
    → commit_loop (suc n + s) r ≡ commit_turn (suc n + s) r (commit_loop (n + s) r)
unfolding commit_loop
loop_down n s r =
    ap (λ i. commit_loop i r) next ∙ ap (λ i. commit_turn i r (commit_loop (n + s) r)) (sym next)
  where
    next : suc n + s ≡ suc (n + s)
    next = omega arith

-- Above a snapshot that `commitIndex` has reached, every read is in range.
loop-scan :
    (n : ℕ) (r : Raft)
    → r.last_snapshot_commit ≤ r.commit_index
    → n < length r.log
    → commit_loop (n + r.last_snapshot_commit) r ≡ done (commit_scan n r)
unfolding commit_loop commit_scan
loop-scan zero r above inside =
    loop_ends (0 + r.last_snapshot_commit) r (omega arith)
    ∙ ap done
        (sym (visit_ends r (not_over (0 + r.last_snapshot_commit) r.commit_index (omega arith))))
loop-scan (suc n) r above inside =
    loop_down n r.last_snapshot_commit r
    ∙ ap (commit_turn (suc n + r.last_snapshot_commit) r) (loop-scan n r above (omega arith))
    ∙ turn-visit (suc n) r (commit_scan n r) inside

-- Where `commitIndex` has reached the snapshot, Go's round returns and is the one of the model.
pub push-checked :
    (r : Raft)
    → r.last_snapshot_commit ≤ r.commit_index
    → push_checked r ≡ done (push_to_followers r)
unfolding push_checked push_to_followers
push-checked r above =
    elim (Bool-cases (leb (length r.log + r.last_snapshot_commit) (r.commit_index + 1))) [
      | inl full ↦ rw full refl
      | inr short ↦ elim (Bool-cases (killed r || not (is_leader r.state))) [
        | inl stops ↦ rw (short, stops) refl
        | inr goes_on ↦ rw (short, goes_on) (round_returns short)
      ]
    ]
  where
    top :
        leb (length r.log + r.last_snapshot_commit) (r.commit_index + 1) ≡ false
        → length r.log + r.last_snapshot_commit - 1 ≡ length r.log - 1 + r.last_snapshot_commit
    top h = ground arith

    inside :
        leb (length r.log + r.last_snapshot_commit) (r.commit_index + 1) ≡ false
        → length r.log - 1 < length r.log
    inside h = ground arith

    round_returns :
        leb (length r.log + r.last_snapshot_commit) (r.commit_index + 1) ≡ false
        → ◌>>=◌ {B = Raft × Bool}
            (commit_loop (length r.log + r.last_snapshot_commit - 1) r)
            (λ s. done (s, true))
          ≡ done (commit_scan (length r.log - 1) r, true)
    round_returns h = rw (top h, loop-scan (length r.log - 1) r above (inside h)) refl

-- Below the snapshot, a majority that reaches an index of no entry panics the loop.
pub commit_loop_panics :
    (i : ℕ) (r : Raft)
    → r.commit_index ≤ i
    → i + 1 < r.last_snapshot_commit
    → majority r ≤ holders (i + 1) r.match_index
    → commit_loop (suc i) r ≡ panic
unfolding commit_loop commit_turn
commit_loop_panics i r above below enough = rw (more, reached, negative) refl
  where
    more : ltb r.commit_index (suc i) ≡ true
    more = ground arith

    reached : leb (majority r) (holders (suc i) r.match_index) ≡ true
    reached = ground arith

    not_over_snapshot : leb r.last_snapshot_commit (suc i) ≡ false
    not_over_snapshot = ground arith

    negative : sub_ℕ (suc i) r.last_snapshot_commit ≡ negsuc (r.last_snapshot_commit - suc i - 1)
    negative = rw not_over_snapshot refl
