-- ===== src/Tests/Restarts.antt =====
-- A server that is started again on its files.
use shard_kv_raft.Base.{◌≡◌, refl, [], ◌∷◌, some, ℤ, pos, ◌+ℤ◌}
use shard_kv_raft.Text.{Bytes, codes}
use shard_kv_raft.Dict.{lookup, IsUnique, bytes_eq, int_eq}
use shard_kv_raft.Raft.Log.{log_at}
use shard_kv_raft.Kv.{KvServer, SnapShotInfo, apply_msgs}
use shard_kv_raft.Kv.Startup.{Made, init_server}
use shard_kv_raft.Kv.Compaction.{snapshot_info, get_snapshot}
use shard_kv_raft.Kv.Compaction.Restarting.{IsRecovered, restart_recovers}
use shard_kv_raft.Tests.Nodes.{midnight, peer, text_codec}
use shard_kv_raft.Tests.Storage.{compacted, first_snapshot, restarted, storable}

-- The server when its snapshot was taken.
abbrev before : KvServer
before = record {
  raft = compacted;
  snapshot_thresh = pos 0;
  last_applied_index = pos 1;
  database = (codes "a", codes "1") ∷ [];
  client_seq = (pos 7, pos 0) ∷ [];
  request_map = [];
  contexts = [];
}

abbrev parse_known : Bytes → SnapShotInfo
parse_known bytes = record {
  content = (codes "a", codes "1") ∷ [];
  client_seq = (pos 7, pos 0) ∷ [];
}

abbrev write_known : SnapShotInfo → Bytes
write_known info = codes "a 1"

abbrev again : Made
again = record {
  ip = codes "192.168.203.128";
  port = pos 1027;
  id = pos 1;
  peers = peer 0 ∷ peer 1 ∷ peer 2 ∷ [];
  server = record before {
    raft = restarted;
    last_applied_index = pos 0;
    database = [];
    client_seq = [];
  };
}

one_value : IsUnique before.database
unfolding lookup
one_value = (refl, tt)

one_client : IsUnique before.client_seq
unfolding lookup
one_client = (refl, tt)

restart_recovers_example :
    (s : KvServer) × (s' : KvServer) × (init_server text_codec midnight again ≡ some s)
    × (apply_msgs parse_known s.raft.msgs s ≡ some s')
    × IsRecovered before s'
    × ((j : ℤ) → log_at s'.raft j ≡ log_at compacted (pos 1 +ℤ j))
unfolding get_snapshot snapshot_info
restart_recovers_example =
    restart_recovers write_known parse_known text_codec midnight again compacted before
      first_snapshot 97 (32 ∷ 49 ∷ []) storable tt refl refl refl refl refl refl refl one_value
      one_client
