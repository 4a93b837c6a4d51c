-- ===== src/Lab3A.antt =====
-- Mit6824/lab3/lab3-A/raft.go: the Raft peer that only elects leaders.
pub mod Peer
pub mod Node
pub mod OneVote
