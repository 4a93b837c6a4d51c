-- ===== src/Lab3B.antt =====
-- Mit6824/lab3/lab3-B/raft.go: the Raft peer that replicates its log and keeps nothing on disk.
pub mod Peer
pub mod Leader
pub mod Commit
pub mod Node
pub mod Votes
pub mod OneVote
pub mod Appends
pub mod Panic
pub mod Checked
