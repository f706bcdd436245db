-- ===== src/Rpc.antt =====
-- src/RaftRPC.cpp (include/RaftRPC.h), the service that gRPC calls, and how Raft::Init of
-- src/RaftServer.cpp sets its call-backs. The node is the state that a call-back reads and writes;
-- a call of a `std::function` that holds nothing throws, and is none here.
use shard_kv_raft.Base.{Option, none, some, ◌>>=◌}
use shard_kv_raft.Raft.State.{
  Raft, Timeval, RequestVote, ResponseVote, AppendEntriesRequest, AppendEntriesResponse,
  InstallSnapShotRequest, InstallSnapShotResponse,
}
use shard_kv_raft.Raft.Vote.{reply_vote}
use shard_kv_raft.Raft.Append.{reply_append}

pub record RaftGrpc : Type 0 where
  pub append_cb : Option (Raft → AppendEntriesRequest → Option (Raft × AppendEntriesResponse))
  pub vote_cb : Option (Raft → RequestVote → Option (Raft × ResponseVote))
  pub snap_cb : Option (Raft → InstallSnapShotRequest → Option (Raft × InstallSnapShotResponse))

unfoldable pub new_grpc : RaftGrpc
new_grpc = record { append_cb = none; vote_cb = none; snap_cb = none }

-- The response is filled field by field.
unfoldable pub append_entries :
    RaftGrpc
    → Raft
    → AppendEntriesRequest
    → AppendEntriesResponse
    → Option (Raft × AppendEntriesResponse)
append_entries g r request response = do
  cb ← g.append_cb
  (r', res) ← cb r request
  some (
    r',
    record response {
      conflict_index = res.conflict_index;
      conflict_term = res.conflict_term;
      success = res.success;
      term = res.term;
    },
  )

unfoldable pub vote : RaftGrpc → Raft → RequestVote → ResponseVote → Option (Raft × ResponseVote)
vote g r request response = do
  cb ← g.vote_cb
  (r', res) ← cb r request
  some (r', record response { is_accepted = res.is_accepted; term = res.term })

unfoldable pub install_snap_shot :
    RaftGrpc
    → Raft
    → InstallSnapShotRequest
    → InstallSnapShotResponse
    → Option (Raft × InstallSnapShotResponse)
install_snap_shot g r request response = do
  cb ← g.snap_cb
  (r', res) ← cb r request
  some (r', record response { term = res.term })

unfoldable pub set_append_call_back :
    (Raft → AppendEntriesRequest → Option (Raft × AppendEntriesResponse)) → RaftGrpc → RaftGrpc
set_append_call_back fn g = record g { append_cb = some fn }

unfoldable pub set_vote_call_back :
    (Raft → RequestVote → Option (Raft × ResponseVote)) → RaftGrpc → RaftGrpc
set_vote_call_back fn g = record g { vote_cb = some fn }

unfoldable pub set_install_snap_shot_call_back :
    (Raft → InstallSnapShotRequest → Option (Raft × InstallSnapShotResponse)) → RaftGrpc → RaftGrpc
set_install_snap_shot_call_back fn g = record g { snap_cb = some fn }

-- The two lines of Raft::Init; `now` is what the handlers read from the clock.
unfoldable pub set_call_backs : Timeval → RaftGrpc → RaftGrpc
unfolding set_append_call_back set_vote_call_back
set_call_backs now g =
    set_append_call_back (λ r q. reply_append now r q)
      (set_vote_call_back (λ r q. some (reply_vote now r q)) g)
