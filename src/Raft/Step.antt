-- ===== src/Raft/Step.antt =====
-- The node as a state machine: each step is one handler, or one half of a handler that waits for
-- an answer, run by itself under the node's mutex. A restart is no step.
pub mod Terms
pub mod Appends
pub mod Snapshots
pub mod Ballot
pub mod Majority
pub mod Leaders
pub mod Sizes
pub mod Starting
use shard_kv_raft.Base.{ℕ, Bool, ◌≡◌, Option, some, ℤ}
use shard_kv_raft.Text.{Bytes}
use shard_kv_raft.Raft.State.{
  Operation, Raft, Timeval, RequestVote, ResponseVote, AppendEntriesRequest, AppendEntriesResponse,
  InstallSnapShotRequest, InstallSnapShotResponse,
}
use shard_kv_raft.Raft.Vote.{reply_vote, on_vote_response}
use shard_kv_raft.Raft.Append.{reply_append}
use shard_kv_raft.Raft.Election.{election_round, after_vote}
use shard_kv_raft.Raft.Replicate.{start, on_append_response}
use shard_kv_raft.Raft.Snapshot.{
  Codec, recv_snapshot, reply_install_snap, install_request, on_install_response,
}
use shard_kv_raft.Raft.Apply.{apply_round}

pub data Step (codec : Codec) (r r' : Raft) : Type 0 where
  votes : (now : Timeval) (q : RequestVote) → r' ≡ (reply_vote now r q).0 → Step codec r r'
  counts : (now : Timeval) (a : ResponseVote) → r' ≡ on_vote_response now r a → Step codec r r'
  times_out :
      (now : Timeval) (timeout : ℤ) → r' ≡ (election_round now timeout r).0 → Step codec r r'
  elects : (now : Timeval) → after_vote now r ≡ some r' → Step codec r r'
  submits : (op : Operation) → r' ≡ (start r op).0 → Step codec r r'
  follows :
      (now : Timeval) (q : AppendEntriesRequest) (a : AppendEntriesResponse)
      → reply_append now r q ≡ some (r', a)
      → Step codec r r'
  leads :
      (peer : ℤ) (q : AppendEntriesRequest) (sent : ℕ) (a : AppendEntriesResponse)
      → on_append_response r peer q sent a ≡ some r'
      → Step codec r r'
  applies : apply_round r ≡ some r' → Step codec r r'
  compacts :
      (snapshot : Bytes) (index : ℤ)
      → recv_snapshot codec r snapshot index ≡ some r'
      → Step codec r r'
  installs :
      (now : Timeval) (q : InstallSnapShotRequest) (a : InstallSnapShotResponse)
      → reply_install_snap codec now r q ≡ some (r', a)
      → Step codec r r'
  sends_snapshot : r' ≡ (install_request codec r).0 → Step codec r r'
  sent_snapshot :
      (peer : ℤ) (q : InstallSnapShotRequest) (a : InstallSnapShotResponse)
      → on_install_response codec r peer q a ≡ some r'
      → Step codec r r'

pub data Steps (codec : Codec) (r : Raft) : Raft → Type 0 where
  here : Steps codec r r
  next : {s t : Raft} → Steps codec r s → Step codec s t → Steps codec r t
