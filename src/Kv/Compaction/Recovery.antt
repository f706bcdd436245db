-- ===== src/Kv/Compaction/Recovery.antt =====
-- getSnapShot and RecoveryFromSnapShot of src/kvRaft.cpp, and the maps of ApplyLoop: no key twice.
use shard_kv_raft.Base.{ℕ, ◌≡◌, sym, ap, ◌∙◌, ◌∷◌, ℤ}
use shard_kv_raft.Text.{Bytes}
use shard_kv_raft.Dict.{lookup, insert_all, either, IsUnique, lookup-insert_all, bytes_eq, int_eq}
use shard_kv_raft.Kv.{KvServer, SnapShotInfo, recover, apply_snapshot}
use shard_kv_raft.Kv.Compaction.{snapshot_info, get_snapshot}

module _ (serialize_info : SnapShotInfo → Bytes) (parse_info : Bytes → SnapShotInfo) where
  -- Let protobuf parse one server's snapshot back to its maps, and let the maps have no key twice and
  -- the snapshot not be empty. A server that is sent that snapshot then finds under every key and for
  -- every client what the first server had there, and its own old entry where the first had none.
  pub apply_snapshot-get_snapshot :
      (kv old : KvServer) (index : ℤ) (b : ℕ) (bytes : Bytes)
      → get_snapshot serialize_info kv ≡ b ∷ bytes
      → parse_info (get_snapshot serialize_info kv) ≡ snapshot_info kv
      → IsUnique kv.database
      → IsUnique kv.client_seq
      → ((key : Bytes)
          → lookup key (apply_snapshot parse_info old (b ∷ bytes) index).database
            ≡ either (lookup key kv.database) (lookup key old.database))
        × ((client : ℤ)
            → lookup client (apply_snapshot parse_info old (b ∷ bytes) index).client_seq
              ≡ either (lookup client kv.client_seq) (lookup client old.client_seq))
  unfolding apply_snapshot recover get_snapshot snapshot_info
  apply_snapshot-get_snapshot kv old index b bytes e back unique unique_seq =
      let read = ap parse_info (sym e) ∙ back in
      (
        λ key.
            ap (λ (i : SnapShotInfo). lookup key (insert_all i.content old.database)) read
            ∙ lookup-insert_all key kv.database old.database unique,
        λ client.
            ap (λ (i : SnapShotInfo). lookup client (insert_all i.client_seq old.client_seq)) read
            ∙ lookup-insert_all client kv.client_seq old.client_seq unique_seq,
      )
