-- ===== src/Examples.antt =====
-- Runs at concrete inputs.
mod Raft
mod Kv
mod MapReduce
mod Replication
mod Sorting
mod Worker
mod WholeJob
mod Service
mod Cluster
mod Lab3A
mod Lab3B
mod Lab3C
mod LogMatching
