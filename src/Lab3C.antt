-- ===== src/Lab3C.antt =====
-- Mit6824/lab3/lab3-C/raft.go: the Raft peer before it has snapshots. One module for each part of
-- the file, and one that sets its handlers beside those of lab3-D.
pub mod State
pub mod Vote
pub mod Append
pub mod Checked
pub mod Leader
pub mod Commit
pub mod Node
pub mod Beside
pub mod Matching
pub mod Replicate
pub mod Extend
pub mod Quiet
pub mod Size
pub mod Unasked
pub mod Cluster
