-- ===== src/Raft/State.antt =====
-- The data of include/RaftServer.h and proto/raft.proto. A handler is a function of the node that
-- returns the node; what it asks of the clock is an argument, and the node's two files are a part
-- of the state. The fields of src/RaftServer.cpp that only serve threads (mutexes, condition
-- variables, channels, stubs, thread handles) have no counterpart.
use shard_kv_raft.Base.{
  Bool, List, Option, none, some, ℤ, pos, negsuc, length, set, get_elem?, ltb, if◌then◌else◌,
}
use shard_kv_raft.Text.{Bytes}

pub record PeersInfo : Type 0 where
  pub peer_id : ℤ
  pub ip : Bytes
  pub port : ℤ

pub record LogEntry : Type 0 where
  pub cmd : Bytes
  pub term : ℤ

pub record SnapShot : Type 0 where
  pub content : Bytes
  pub last_include_index : ℤ
  pub last_include_term : ℤ
  pub offset : ℤ

-- the message `rf::SnapShot` that the snapshot file holds
pub record SnapShotMessage : Type 0 where
  pub last_include_index : ℤ
  pub last_include_term : ℤ
  pub content : Bytes

pub record Persister : Type 0 where
  pub logs : List LogEntry
  pub cur_term : ℤ
  pub voted_for : ℤ
  pub snapshot : SnapShot

pub record StartRet : Type 0 where
  pub cmd_index : ℤ
  pub cur_term : ℤ
  pub is_leader : Bool

pub record Operation : Type 0 where
  pub op : Bytes
  pub key : Bytes
  pub value : Bytes
  pub client_id : ℤ
  pub request_id : ℤ
  pub op_term : ℤ
  pub op_index : ℤ

-- `isSnap` says which of its other fields a message has set: the command with its index and term,
-- or the snapshot with its last index and term.
pub data ApplyMsg : Type 0 where
  command : Bytes → ℤ → ℤ → ApplyMsg
  snap : Bytes → ℤ → ℤ → ApplyMsg

pub data RaftState : Type 0 where
  leader candidate follower : RaftState

pub record Timeval : Type 0 where
  pub tv_sec : ℤ
  pub tv_usec : ℤ

-- The files "persister-<id>" and "snapshot-<id>".
pub record Disk : Type 0 where
  pub persister_file : Option Bytes
  pub snapshot_file : Option Bytes

pub record Raft : Type 0 where
  pub peers : List PeersInfo
  pub persister : Persister
  pub disk : Disk
  pub peer_id : ℤ
  pub stop : Bool
  pub logs : List LogEntry
  pub cur_term : ℤ
  pub vote_for : ℤ
  pub next_index : List ℤ
  pub match_index : List ℤ
  pub last_applied : ℤ
  pub commit_index : ℤ
  pub last_included_index : ℤ
  pub last_include_term : ℤ
  pub recv_votes : ℤ
  pub finished_vote : ℤ
  pub state : RaftState
  pub leader_id : ℤ
  pub last_wake_time : Timeval
  pub last_broadcast_time : Timeval
  pub msgs : List ApplyMsg
  pub wait_apply : Bool

pub record RequestVote : Type 0 where
  pub term : ℤ
  pub candidate_id : ℤ
  pub last_log_index : ℤ
  pub last_log_term : ℤ

pub record ResponseVote : Type 0 where
  pub term : ℤ
  pub is_accepted : Bool

pub record AppendEntriesRequest : Type 0 where
  pub term : ℤ
  pub leader_id : ℤ
  pub prev_log_index : ℤ
  pub prev_log_term : ℤ
  pub leader_commit : ℤ
  pub send_logs : Bytes

pub record AppendEntriesResponse : Type 0 where
  pub term : ℤ
  pub success : Bool
  pub conflict_term : ℤ
  pub conflict_index : ℤ

pub record InstallSnapShotRequest : Type 0 where
  pub term : ℤ
  pub leader_id : ℤ
  pub last_include_index : ℤ
  pub last_include_term : ℤ
  pub chunks : List Bytes

pub record InstallSnapShotResponse : Type 0 where
  pub term : ℤ

-- `v[i]` of a `std::vector` for an `int` i: undefined out of range.
unfoldable pub at {ℓ} : {A : Type ℓ} → List A → ℤ → Option A
at xs (pos n) = get_elem? xs n
at xs (negsuc n) = none

-- `v[i] = a;`
unfoldable pub put {ℓ} : {A : Type ℓ} → List A → ℤ → A → Option (List A)
put xs (pos n) a = if ltb n (length xs) then some (set xs n a) else none
put xs (negsuc n) a = none
