-- ===== src/Lab3C/Unasked.antt =====
-- lab3-C/raft.go: `startLearder` keeps `matchIndex`, the acknowledgements of an earlier leadership.
use cslearning.Prelude.{
  ℕ, zero, suc, ◌+◌, ◌<◌, ◌≤◌, ◌≡◌, refl, sym, subst, true, false, List, [], ◌∷◌, ◌++◌, length,
  length-append, arith, leb, ◌==◌, ◌||◌, not,
}
use cslearning.Raft.State.{Log, Cmd, leader, is_leader, term_at}
use cslearning.Lab3C.State.{Raft, persist, killed}
use cslearning.Lab3C.Vote.{finish_election, majority}
use cslearning.Lab3C.Leader.{start, start_leader}
use cslearning.Lab3C.Cluster.Elected.{finish_won}
use cslearning.Lab3C.Commit.{others_holding, commit_scan, push_to_followers}

term_at_end : (l : List Log) (e : Log) → term_at (l ++ e ∷ []) (length l) ≡ e.term
term_at_end [] e = refl
term_at_end (x ∷ l) e = term_at_end l e

-- The loop stops at once at an entry of the current term that a majority is said to hold.
scan_first :
    (n : ℕ) (c : Raft)
    → c.commit_index < n
    → majority c ≤ 1 + others_holding c.me n 0 c.match_index
    → term_at c.log n ≡ c.term
    → (commit_scan n c).commit_index ≡ n
unfolding commit_scan
scan_first zero c lt enough current = absurd (omega arith)
scan_first (suc n) c lt enough current = ground (arith, lt, enough, current)

push_first :
    (n : ℕ) (c : Raft)
    → length c.log ≡ n + 1
    → c.commit_index < n
    → c.state ≡ leader
    → c.dead ≡ 0
    → majority c ≤ 1 + others_holding c.me n 0 c.match_index
    → term_at c.log n ≡ c.term
    → (push_to_followers c).0.commit_index ≡ n
unfolding push_to_followers killed
push_first n c size lt leads alive enough current =
    rw (short, at_work)
      (subst (λ m. (commit_scan m c).commit_index ≡ n) (omega (arith, size))
        (scan_first n c lt enough current))
  where
    short : leb (length c.log) (c.commit_index + 1) ≡ false
    short = ground (arith, size, lt)

    at_work : (c.dead == 1 || not (is_leader c.state)) ≡ false
    at_work = rw (leads, alive) refl

-- A leader may commit what nobody else has. Let a peer that is not killed win an election, with a
-- commit index below the length of its log, and let its `matchIndex`, left from an earlier
-- leadership, have values of at least that length for a majority, the peer itself counted. Then the
-- command that `Start` appends next is committed by the next round of `pushToFollowers`, with no
-- request sent and no reply received in between.
pub commits_unasked :
    (k : ℕ) (cmd : Cmd) (r : Raft)
    → (finish_election k r).1 ≡ true
    → r.dead ≡ 0
    → r.commit_index < length r.log
    → majority r ≤ 1 + others_holding r.me (length r.log) 0 r.match_index
    → (push_to_followers (start cmd (start_leader (finish_election k r).0)).0).0.commit_index
      ≡ length r.log
unfolding start start_leader persist
commits_unasked k cmd r won alive behind enough =
    subst (λ x. (push_to_followers (start cmd (start_leader x)).0).0.commit_index ≡ length r.log)
      (sym (finish_won k r won))
      (push_first (length r.log) _ (length-append r.log _) behind refl alive enough
        (term_at_end r.log _))
