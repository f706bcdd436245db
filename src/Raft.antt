-- ===== src/Raft.antt =====
-- include/RaftServer.h and src/RaftServer.cpp: one Raft node.
pub mod State
pub mod Log
pub mod Wire
pub mod Persist
pub mod Vote
pub mod Append
pub mod Snapshot
pub mod Apply
pub mod Step
pub mod Election
pub mod Heartbeat
pub mod Replicate
pub mod Cluster
