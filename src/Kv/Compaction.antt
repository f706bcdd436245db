-- ===== src/Kv/Compaction.antt =====
-- getSnapShot and CheckSnapShotLoop of src/kvRaft.cpp. The round of the loop is three steps, since
-- the size, the maps and the index are read under different locks and ApplyLoop runs between them.
pub mod Recovery
pub mod Restarting
use shard_kv_raft.Base.{
  ℕ, Bool, true, false, ◌&&◌, not, List, [], ◌∷◌, Option, none, some, ◌>>=◌, ℤ, minus_one, ◌==ℤ◌,
  if◌then◌else◌,
}
use shard_kv_raft.Text.{Bytes}
use shard_kv_raft.Raft.State.{Raft}
use shard_kv_raft.Raft.Snapshot.{Codec, exceed_log_size, recv_snapshot}
use shard_kv_raft.Kv.{KvServer, SnapShotInfo}

-- A protobuf map keeps one entry for a key, so copying a map gives the map.
unfoldable pub snapshot_info : KvServer → SnapShotInfo
snapshot_info kv = record { content = kv.database; client_seq = kv.client_seq }

unfoldable pub get_snapshot : (SnapShotInfo → Bytes) → KvServer → Bytes
unfolding snapshot_info
get_snapshot serialize_info kv = serialize_info (snapshot_info kv)

module _ (codec : Codec) (serialize_info : SnapShotInfo → Bytes) where
  unfoldable pub is_due : KvServer → Bool
  unfolding exceed_log_size
  is_due kv = not (kv.snapshot_thresh ==ℤ minus_one) && exceed_log_size kv.raft kv.snapshot_thresh

  -- The end of the round, with the string and the index that were read.
  unfoldable pub deliver_snapshot : KvServer → Bytes → ℤ → Option KvServer
  unfolding recv_snapshot
  deliver_snapshot kv [] index = some kv
  deliver_snapshot kv (b ∷ bytes) index = do
    raft ← recv_snapshot codec kv.raft (b ∷ bytes) index
    some (record kv { raft = raft })

  -- A round in which no other thread runs.
  unfoldable pub check_snapshot : KvServer → Option KvServer
  unfolding get_snapshot is_due deliver_snapshot
  check_snapshot kv =
      let due = deliver_snapshot kv (get_snapshot serialize_info kv) kv.last_applied_index in
      if is_due kv then due else some kv
