-- ===== src/Lib.antt =====
-- A verification library of the Go programs under Mit6824: the MapReduce of lab1, the versioned
-- key-value store with its clerk and its lock of lab2, and the Raft peer of lab3 in its four stages,
-- lab3/lab3-A to lab3/lab3-D, with the service that the lab puts on it.
--
-- The parts, and where they are modelled:
-- - Mit6824/lab2/rpc/rpc.go: Kv/Rpc.antt (`Err`, the messages, `Tversion` as a number below 2^64).
-- - Mit6824/lab2/server.go: Kv/Server.antt (`KVServer` as `KvServer`, `Get` and `Put` as `get` and
--   `put`); Kv/Server/Spec.antt has the register that it promises.
-- - Mit6824/lab2/client.go: Kv/Clerk.antt (`Clerk.Get` and `Clerk.Put` as `clerk_get` and
--   `clerk_put`, over a list of calls that may be lost); its laws are in Kv/Clerk/Laws.antt,
--   and the loops up to the call that ends them in Kv/Clerk/Retries.antt.
-- - Mit6824/lab2/lock/lock.go: Kv/Lock.antt (`Acquire` and `Release` of any number of clients as a
--   step relation, one RPC a step); Kv/Lock has the invariant, what an owner knows, and exclusion.
-- - Mit6824/lab1/rpc.go and coordinator.go: MapReduce/Messages.antt and MapReduce/Coordinator.antt
--   (`Handout_map`, `Handoutap_reduce`, `HandleSuccess`, `HandleError`, `Faultsearch`, `RpcHandler`,
--   `Done`, `MakeCoordinator`); MapReduce/Coordinator/Reach.antt runs them in any order.
-- - Mit6824/lab1/worker.go: MapReduce/Worker.antt (`ihash`, the map task, the reduce task), with the
--   partition and the grouping in the modules below it.
-- - MapReduce/System.antt runs a whole job: the coordinator, any number of workers, what they hold
--   and what they report, and their disk.
-- - Mit6824/lab3/lab3-D/raft.go: Raft/State.antt (the struct, `persist`, `readPersist`, `Make`, the
--   index arithmetic), Raft/Vote.antt (`RequestVote`, `ticker`, the parts of `RequestVoteHelper`),
--   Raft/Election.antt (a whole round of `RequestVoteHelper`), Raft/Replication.antt
--   (`AppendEntries`), Raft/Leader.antt (`Start`, `startLearder`, `BinarySearch`), Raft/Commit.antt
--   (`pushToFollowers`, `ReachToCommit`), Raft/Snapshot.antt (`Snapshot`, `InstallSnapshot`), and
--   Raft/Node.antt, which lets all of these, crashes and restarts run in any order; Raft/Cluster.antt
--   has the runs of several peers.
-- - Mit6824/lab3/lab3-D/server.go, with `checkLogs` and `nCommitted` of test.go: Raft/Service.antt
--   (`applier`, `applierSnap`, `ingestSnap`, `newRfsrv`); `checkOneLeader` of test.go is
--   Raft/Service/Leaders.antt.
-- - Mit6824/lab3/lab3-C/raft.go, the peer before snapshots: Lab3C/State.antt (the struct, `persist`,
--   `readPersist`, `Make`), Lab3C/Vote.antt, Lab3C/Append.antt, Lab3C/Leader.antt, Lab3C/Commit.antt,
--   with the handlers under the names of lab3-D, and Lab3C/Node.antt, which lets them run in any
--   order. The modules below Lab3C/Beside.antt set them beside those of lab3-D: `lift` turns a peer
--   of lab3-C into one of lab3-D that has no snapshot. Lab3C/Cluster.antt runs several peers with
--   their network: what the peers of the model do besides their steps is to put a request to append,
--   made by `build_entries`, into the network and to take one out again, as often as it likes.
--   Lab3C/Cluster/Poll.antt says what stands behind the votes that a winner counted.
-- - Mit6824/lab3/lab3-B/raft.go, before persistence: Lab3B/Peer.antt (votes, elections,
--   `AppendEntries`), Lab3B/Leader.antt (`Start`, heartbeats, the sender of entries),
--   Lab3B/Commit.antt and Lab3B/Node.antt.
-- - Mit6824/lab3/lab3-A/raft.go, elections only: Lab3A/Peer.antt and Lab3A/Node.antt. What lab3-A and
--   lab3-B share about terms and votes is in Ballot.antt.
-- - Types that the four stages declare alike (`Log`, the roles, the requests) are those of lab3-D.
-- - Examples has runs at concrete inputs.
--
-- How code becomes definitions: a method that holds its mutex is one function from the state, the
-- time and its arguments to the new state and its reply. Where a goroutine lets the lock go, the
-- others may take steps in between. A Go slice is a list, a map a function to `Option`, and an index
-- that may be out of range gives `panic` of `Run`. Where a loop is written without checks of
-- its reads, a module beside it has the loop with them:
-- Raft/Replication/Checked.antt (the loops of `AppendEntries`), Raft/Commit/Checked.antt (the loop of
-- `pushToFollowers`, which in Go goes on below the snapshot when `commitIndex` is there),
-- Lab3B/Checked.antt and Lab3C/Checked.antt (`AppendEntries` for a negative `PrevLogIndex` too, which
-- the handlers beside them leave out). The memory between the length and the capacity of the log,
-- which `rf.log[i:j]` can reach in `ReachToCommit`, is an argument. An `int` that only counts is a
-- number without bound, and -1 for "nobody" is `none`; `indexSub` may be negative and is an integer.
-- The one number whose wrap-around can matter, `Tversion`, has it. Commands of the log are a data type
-- of the zero value, texts and numbers.
--
-- Fuel: `BinarySearch` runs on one more than the log's length and the reduce loop on the number of
-- pairs: a round of the search halves an interval of at most that length, and a round of the reduce
-- loop takes at least one pair. The other loops are structural recursion.
--
-- Not modelled: labrpc, labgob, the tester and the MapReduce applications, which are not in the
-- repository (what they do is an argument: calls that are lost, a decoder, the map and reduce
-- functions); what `encoding/json` reads back of what it wrote, which is an argument too, as it is not
-- the pair itself where that is no UTF-8; sockets, file names and printing; random sleeps, which are
-- the order of steps; the configuration of the tests; server.go and test.go of lab3-A to lab3-C, which
-- are those of lab3-D.
-- A slice that shares memory with a log after it was sent is not modelled: entries are values.
pub mod Ballot
pub mod Examples
pub mod Kv
pub mod Lab3A
pub mod Lab3B
pub mod Lab3C
pub mod MapReduce
pub mod Prelude
pub mod Raft
