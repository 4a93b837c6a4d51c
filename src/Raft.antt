-- ===== src/Raft.antt =====
-- The Raft peer of Mit6824/lab3/lab3-D/raft.go: elections, log replication, persistence and
-- snapshots. One module for each part of the file; each function below is what a method or a
-- goroutine does while it holds `rf.lock_`.
pub mod State
pub mod Vote
pub mod Replication
pub mod Leader
pub mod Commit
pub mod Snapshot
pub mod Node
pub mod Election
pub mod Service
pub mod Cluster
