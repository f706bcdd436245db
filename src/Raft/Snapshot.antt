-- ===== src/Raft/Snapshot.antt =====
-- Snapshots in src/RaftServer.cpp: ExceedLogSize, RecvSnapShot, SaveSnapShot, ReadSnapShot,
-- installSnapShotTOkvServer, ReplyInstallSnap and both halves of SendInstallSnapshot, with Init,
-- which reads the files back. The bytes of the snapshot file are protobuf's, a parameter here.
pub mod Compaction
pub mod Installing
pub mod Restart
use shard_kv_raft.Base.{
  ℕ, ◌+◌, Bool, true, false, ◌≡◌, List, [], ◌∷◌, ◌++◌, Option, none, some, ◌>>=◌, ℤ, pos, minus_one,
  ◌+ℤ◌, ◌-ℤ◌, ◌==ℤ◌, ltb_ℤ, leb_ℤ, if◌then◌else◌, length, replicate, get_elem?,
}
use shard_kv_raft.Text.{Bytes}
use shard_kv_raft.Raft.State.{
  PeersInfo, LogEntry, SnapShotMessage, snap, Raft, follower, Timeval, InstallSnapShotRequest,
  InstallSnapShotResponse, put,
}
use shard_kv_raft.Raft.Log.{compress_log_idx, last_index, log_at}
use shard_kv_raft.Raft.Persist.{save_raft_state, read_raft_state}
use shard_kv_raft.Raft.Replicate.{tail_from, advance}

-- SerializeAsString and ParseFromArray of `rf::SnapShot`. Protobuf documents that a message is
-- parsed back from its serialization.
pub record Codec : Type 0 where
  pub serialize : SnapShotMessage → Bytes
  pub parse : Bytes → SnapShotMessage
  pub parse-serialize : (m : SnapShotMessage) → parse (serialize m) ≡ m

unfoldable pub sum_sizes : List LogEntry → ℕ
sum_sizes [] = 0
sum_sizes (e ∷ es) = length e.cmd + sum_sizes es

-- ExceedLogSize: it counts the log that was saved last.
unfoldable pub exceed_log_size : Raft → ℤ → Bool
unfolding sum_sizes
exceed_log_size r size = leb_ℤ size (pos (sum_sizes r.persister.logs))

-- The first half of RecvSnapShot, under `mtx`: `none` inside is the early return.
unfoldable pub compact : Raft → ℤ → Option (Option Raft)
unfolding tail_from
compact r index =
    let cut_log = (do
      e ← log_at r index
      some (
          some (record r {
            last_include_term = e.term;
            last_included_index = index;
            logs = tail_from r.logs (index -ℤ r.last_included_index);
          }))) in
    if ltb_ℤ index r.last_included_index then some none else cut_log

module _ (codec : Codec) where
  -- SaveSnapShot; the file is truncated first
  unfoldable pub save_snapshot : Raft → Raft
  save_snapshot r = record r {
    disk = record r.disk {
      snapshot_file = some (
          codec.serialize (record {
            last_include_index = r.persister.snapshot.last_include_index;
            last_include_term = r.persister.snapshot.last_include_term;
            content = r.persister.snapshot.content;
          }));
    };
  }

  -- ReadSnapShot; the flag says whether there is a file.
  unfoldable pub read_snapshot : Raft → Raft × Bool
  read_snapshot r = elim r.disk.snapshot_file [
    | none ↦ (r, false)
    | some bytes ↦
        let m = codec.parse bytes in
        (
          record r {
            persister = record r.persister {
              snapshot = record {
                content = m.content;
                last_include_index = m.last_include_index;
                last_include_term = m.last_include_term;
                offset = pos 0;
              };
            };
          },
          true,
        )
  ]

  -- The second half of RecvSnapShot, under `persist_mtx`.
  unfoldable pub store_snapshot : Bytes → ℤ → Raft → Raft
  unfolding save_snapshot
  store_snapshot snapshot index r = save_snapshot (
      save_raft_state (record r {
        persister = record r.persister {
          snapshot = record {
            content = snapshot;
            last_include_index = index;
            last_include_term = r.last_include_term;
            offset = pos 0;
          };
        };
      }))

  unfoldable pub recv_snapshot : Raft → Bytes → ℤ → Option Raft
  unfolding compact store_snapshot
  recv_snapshot r snapshot index = do
    kept ← compact r index
    some (elim kept [ none ↦ r | some r' ↦ store_snapshot snapshot index r' ])

  -- installSnapShotTOkvServer behind the read: the message to the key-value layer.
  unfoldable pub push_snapshot : Raft → Raft
  push_snapshot r = record r {
    last_applied = r.last_included_index;
    msgs =
        r.msgs ++ snap r.persister.snapshot.content r.last_included_index r.last_include_term ∷ [];
    wait_apply = true;
  }

  unfoldable pub install_snapshot : Bool → Raft → Raft
  unfolding push_snapshot read_snapshot
  install_snapshot false r = push_snapshot r
  install_snapshot true r =
      let (r', found) = read_snapshot r in if found then push_snapshot r' else r'

  -- The log behind the snapshot: kept only if the last entry has the snapshot's term.
  unfoldable pub trim_log : Raft → InstallSnapShotRequest → Option (List LogEntry)
  unfolding tail_from
  trim_log r request =
      let behind = (do
        e ← log_at r (last_index r)
        some (
            if e.term ==ℤ request.last_include_term
            then tail_from r.logs (compress_log_idx r request.last_include_index +ℤ pos 1)
            else [])) in
      if ltb_ℤ request.last_include_index (last_index r) then behind else some []

  unfoldable pub follow_install : Timeval → Raft → ℤ → Raft
  follow_install now r term =
      let r' =
        if ltb_ℤ r.cur_term term then save_raft_state (record r { vote_for = minus_one }) else r in
      record r' { cur_term = term; state = follower; last_wake_time = now }

  -- `request.data(0)`, undefined without a chunk
  unfoldable pub replace_snapshot : Raft → InstallSnapShotRequest → Option Raft
  unfolding trim_log save_snapshot install_snapshot
  replace_snapshot r request = do
    logs ← trim_log r request
    let r' = record r {
      logs = logs;
      last_included_index = request.last_include_index;
      last_include_term = request.last_include_term;
    }
    content ← get_elem? request.chunks 0
    some (
        install_snapshot false (
          save_snapshot (
            save_raft_state (record r' {
              persister = record r'.persister {
                snapshot = record r'.persister.snapshot { content = content };
              };
            }))))

  unfoldable pub reply_install_snap :
      Timeval → Raft → InstallSnapShotRequest → Option (Raft × InstallSnapShotResponse)
  unfolding follow_install replace_snapshot
  reply_install_snap now r request =
      let response : InstallSnapShotResponse = record { term = r.cur_term } in
      let r' = follow_install now r request.term in
      let replaced = (do r'' ← replace_snapshot r' request; some (r'', response)) in
      if ltb_ℤ request.term r.cur_term
      then some (r, response)
      else if leb_ℤ request.last_include_index r.last_included_index
      then some (r', response)
      else replaced

  -- SendInstallSnapshot up to the RPC.
  unfoldable pub install_request : Raft → Raft × InstallSnapShotRequest
  unfolding read_snapshot
  install_request r =
      let (r', found) = read_snapshot r in
      (
        r',
        record {
          term = r.cur_term;
          leader_id = r.peer_id;
          last_include_index = r.last_included_index;
          last_include_term = r.last_include_term;
          chunks = r'.persister.snapshot.content ∷ [];
        },
      )

  -- SendInstallSnapshot from the response on.
  unfoldable pub on_install_response :
      Raft → ℤ → InstallSnapShotRequest → InstallSnapShotResponse → Option Raft
  unfolding put advance
  on_install_response r peer request response =
      let done = (do
        next_index ← put r.next_index peer (last_index r +ℤ pos 1)
        match_peer ← put r.match_index peer request.last_include_index
        match_index ← put match_peer r.peer_id (last_index r)
        advance (record r { next_index = next_index; match_index = match_index })) in
      if r.cur_term ==ℤ response.term
      then (if ltb_ℤ r.cur_term response.term
          then some (
              save_raft_state
                (record r { state = follower; cur_term = response.term; vote_for = minus_one }))
          else done)
      else some r

  -- Init up to the threads: `old` is the node as it was made, with its files.
  unfoldable pub init : Timeval → List PeersInfo → ℤ → Raft → Option Raft
  unfolding install_snapshot
  init now peers id old = do
    r ← read_raft_state (record old {
      peers = peers;
      peer_id = id;
      stop = false;
      state = follower;
      cur_term = pos 0;
      leader_id = minus_one;
      vote_for = minus_one;
      last_wake_time = now;
      recv_votes = pos 0;
      finished_vote = pos 0;
      last_applied = pos 0;
      commit_index = pos 0;
      last_included_index = pos 0;
      last_include_term = pos 0;
      next_index = replicate (length peers) (pos 1);
      match_index = replicate (length peers) (pos 0);
    })
    some (install_snapshot true r)
