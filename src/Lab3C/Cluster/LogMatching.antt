-- ===== src/Lab3C/Cluster/LogMatching.antt =====
-- lab3-C/raft.go: elections and logs, over any run of several peers.
use cslearning.Prelude.{ℕ, suc, ◌≡◌, refl, some, take, get_elem?}
use cslearning.Raft.State.{Log, leader}
use cslearning.Lab3C.Cluster.{World, first, Course}
use cslearning.Lab3C.Cluster.Invariant.{at_peer}
use cslearning.Lab3C.Cluster.Moves.{Course-Inv}
use cslearning.Lab3C.Cluster.Poll.{AllBacked}
use cslearning.Lab3C.Cluster.Winners.{AllBacked-NewTerms}

-- One leader in each term, in lab3-C: let the peers of a cluster of `n` start with nothing on disk
-- and run in any order, with crashes and restarts, while the network delivers requests to append
-- late, again or never, but none to its sender, and answers and vote messages of any contents. Let
-- each election that is won be that of a round of `RequestVoteHelper` that its peer started in its
-- term and has not ended, with as many of the `n` peers behind the votes counted, each of which
-- voted for it in that term. Then two peers that lead in the same term are one.
pub one_leader_at_once :
    (n now : ℕ) {w : World} (p q : ℕ) (course : Course (first n now) w)
    → AllBacked n course
    → (w.peers p).state ≡ leader
    → (w.peers q).state ≡ leader
    → (w.peers p).term ≡ (w.peers q).term
    → p ≡ q
one_leader_at_once n now p q course backed =
    let inv = Course-Inv n now course (AllBacked-NewTerms n now course backed) in inv.single p q

-- Log matching, in lab3-C: let the peers of a cluster of `n` start with nothing on disk and run in
-- any order, with crashes and restarts, while the network delivers requests to append late, again
-- or never, but none to its sender, and answers and vote messages of any contents. Let each election
-- that is won be that of a round of `RequestVoteHelper` that its peer started in its term and has
-- not ended, with as many of the `n` peers behind the votes counted, each of which voted for it in
-- that term. Then whenever two logs have entries of the same term at the same index, the logs are
-- the same up to that index.
pub log_matching :
    (n now : ℕ) {w : World} (p q i : ℕ) (e f : Log) (course : Course (first n now) w)
    → AllBacked n course
    → get_elem? (w.peers p).log i ≡ some e
    → get_elem? (w.peers q).log i ≡ some f
    → e.term ≡ f.term
    → take (suc i) (w.peers p).log ≡ take (suc i) (w.peers q).log
log_matching n now {w} p q i e f course backed =
    let inv = Course-Inv n now course (AllBacked-NewTerms n now course backed) in
    inv.matching (w.peers p).log (w.peers q).log (at_peer p refl) (at_peer q refl) i e f
