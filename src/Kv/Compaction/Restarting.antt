-- ===== src/Kv/Compaction/Restarting.antt =====
-- The constructor's server of src/kvRaft.cpp, Init on the node's files, and ApplyLoop on what Init has
-- queued: what a server that is started again has.
use shard_kv_raft.Base.{ℕ, ◌≡◌, refl, ap, ◌∙◌, [], ◌∷◌, ◌++◌, Option, none, some, ℤ, pos, ◌+ℤ◌, All}
use shard_kv_raft.Text.{Bytes}
use shard_kv_raft.Dict.{lookup, either, IsUnique, bytes_eq, int_eq}
use shard_kv_raft.Raft.State.{Raft, SnapShotMessage, Timeval, snap}
use shard_kv_raft.Raft.Log.{log_at}
use shard_kv_raft.Raft.Persist.{serialized, save_raft_state}
use shard_kv_raft.Raft.Persist.Fields.{IsStorable}
use shard_kv_raft.Raft.Persist.Reading.{Covers, stored}
use shard_kv_raft.Raft.Snapshot.{Codec}
use shard_kv_raft.Raft.Snapshot.Restart.{init_shifts_log}
use shard_kv_raft.Kv.{KvServer, SnapShotInfo, apply_snapshot, apply_msg, apply_msgs}
use shard_kv_raft.Kv.Startup.{Made, init_server}
use shard_kv_raft.Kv.Compaction.{snapshot_info, get_snapshot}
use shard_kv_raft.Kv.Compaction.Recovery.{apply_snapshot-get_snapshot}

either-none : {V : Type 0} (v : Option V) → either v none ≡ v
unfolding either
either-none none = refl
either-none (some v) = refl

-- A server with the maps of another, up to their order, and with the position of an empty log.
pub record IsRecovered (kv s : KvServer) : Type 0 where
  pub values : (key : Bytes) → lookup key s.database ≡ lookup key kv.database
  pub seqs : (client : ℤ) → lookup client s.client_seq ≡ lookup client kv.client_seq
  pub position : s.last_applied_index ≡ pos 0

module _ (serialize_info : SnapShotInfo → Bytes) (parse_info : Bytes → SnapShotInfo) where
  recovered :
      (kv empty : KvServer) (b : ℕ) (bytes : Bytes)
      → get_snapshot serialize_info kv ≡ b ∷ bytes
      → parse_info (get_snapshot serialize_info kv) ≡ snapshot_info kv
      → IsUnique kv.database
      → IsUnique kv.client_seq
      → empty.database ≡ []
      → empty.client_seq ≡ []
      → IsRecovered kv (apply_snapshot parse_info empty (b ∷ bytes) (pos 0))
  unfolding apply_snapshot lookup
  recovered kv empty b bytes e back unique unique_seq no_values no_seqs =
      let (values, seqs) =
        apply_snapshot-get_snapshot serialize_info parse_info kv empty (pos 0) b bytes e back unique
          unique_seq in
      record {
        values = λ key.
            values key
            ∙ ap (λ m. either (lookup key kv.database) (lookup key m)) no_values
            ∙ either-none (lookup key kv.database);
        seqs = λ client.
            seqs client
            ∙ ap (λ m. either (lookup client kv.client_seq) (lookup client m)) no_seqs
            ∙ either-none (lookup client kv.client_seq);
        position = refl;
      }

  -- Let a node have saved its state, with no comma, period, semicolon or NUL in a command and no longer
  -- file before, and let its snapshot file hold the snapshot of a server, which is not empty, whose
  -- maps have no key twice and which protobuf parses back. A server that is made with an empty log and
  -- queue, and that Init starts on these files, a NUL behind the state in the buffer, has one message
  -- to apply. ApplyLoop applies it: the server finds under every key and for every client what the
  -- first server had there. But its position is 0, and its log holds each entry lower by the index of
  -- the saved node's snapshot.
  pub restart_recovers :
      (codec : Codec) (now : Timeval) (made : Made) (r : Raft) (kv : KvServer) (m : SnapShotMessage)
      (b : ℕ) (bytes : Bytes)
      → All IsStorable r.logs
      → Covers (serialized (stored r)) r.disk.persister_file
      → made.server.raft.logs ≡ []
      → made.server.raft.msgs ≡ []
      → made.server.raft.disk.persister_file ≡ (save_raft_state r).disk.persister_file
      → made.server.raft.disk.snapshot_file ≡ some (codec.serialize m)
      → m.content ≡ b ∷ bytes
      → get_snapshot serialize_info kv ≡ b ∷ bytes
      → parse_info (get_snapshot serialize_info kv) ≡ snapshot_info kv
      → IsUnique kv.database
      → IsUnique kv.client_seq
      → (s : KvServer) × (s' : KvServer) × (init_server codec now made ≡ some s)
        × (apply_msgs parse_info s.raft.msgs s ≡ some s')
        × IsRecovered kv s'
        × ((j : ℤ) → log_at s'.raft j ≡ log_at r (r.last_included_index +ℤ j))
  unfolding init_server apply_msgs apply_msg apply_snapshot
  restart_recovers codec now made r kv m b bytes clean covers empty idle state file whole e back u
        v =
      let (raft, run, again) =
        init_shifts_log codec now made.peers made.id r made.server.raft m clean covers empty state
          file in
      let s : KvServer = record made.server {
        raft = raft;
        last_applied_index = pos 0;
        database = [];
        client_seq = [];
      } in
      let one : raft.msgs ≡ snap (b ∷ bytes) (pos 0) (pos 0) ∷ [] =
        again.delivered
        ∙ ap (λ ms. ms ++ snap (m.content) (pos 0) (pos 0) ∷ []) idle
        ∙ ap (λ c. snap c (pos 0) (pos 0) ∷ []) whole in
      (
        s,
        apply_snapshot parse_info s (b ∷ bytes) (pos 0),
        rw run refl,
        ap (λ ms. apply_msgs parse_info ms s) one,
        recovered kv s b bytes e back u v refl refl,
        again.shifted,
      )
