-- ===== src/MapReduce.antt =====
-- The MapReduce of Mit6824/lab1: its messages and task records (rpc.go), the coordinator
-- (coordinator.go) and the worker's computation (worker.go).
pub mod Messages
pub mod Coordinator
pub mod Worker
pub mod System
