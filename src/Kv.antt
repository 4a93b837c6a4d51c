-- ===== src/Kv.antt =====
-- The versioned key/value service of Mit6824/lab2: its messages (rpc/rpc.go), the server
-- (server.go), the client stub (client.go) and the lock built on them (lock/lock.go).
pub mod Rpc
pub mod Server
pub mod Clerk
pub mod Lock
