-- ===== src/Kv/Machine.antt =====
-- The store that ApplyLoop of src/kvRaft.cpp keeps, without the requests that wait: a state machine
-- over the messages of the Raft layer.
use shard_kv_raft.Base.{
  List, [], ◌∷◌, Option, none, some, ◌>>=◌, ℤ, pos, ◌-ℤ◌, ltb_ℤ, if◌then◌else◌,
}
use shard_kv_raft.Text.{Bytes, codes, same}
use shard_kv_raft.Dict.{lookup, insert, insert_all, bytes_eq, int_eq}
use shard_kv_raft.Raft.State.{Operation, ApplyMsg, command, snap}
use shard_kv_raft.Raft.Wire.{get_operation}
use shard_kv_raft.Kv.{Database, SeqMap, SnapShotInfo, KvServer}

pub record Store : Type 0 where
  pub applied : ℤ
  pub values : Database
  pub seqs : SeqMap

abbrev pub store_of : KvServer → Store
store_of kv = record { applied = kv.last_applied_index; values = kv.database; seqs = kv.client_seq }

-- A `set` that is newer than the last operation of its client, and nothing else, writes its value.
unfoldable pub execute : Store → Operation → ℤ → Store
execute s op index =
    let written = insert op.key op.value s.values in
    record {
      applied = index;
      seqs = insert op.client_id op.request_id s.seqs;
      values =
          if same op.op (codes "set")
          then (elim (lookup op.client_id s.seqs) [
            | none ↦ written
            | some last ↦ if ltb_ℤ last op.request_id then written else s.values
          ])
          else s.values;
    }

module _ (parse_info : Bytes → SnapShotInfo) where
  unfoldable pub receive : Store → ApplyMsg → Option Store
  unfolding execute
  receive s (snap [] index term) = some (record s { values = []; seqs = [] })
  receive s (snap (b ∷ bytes) index term) =
      let info = parse_info (b ∷ bytes) in
      some (record {
        applied = index;
        values = insert_all info.content s.values;
        seqs = insert_all info.client_seq s.seqs;
      })
  receive s (command cmd index term) = do
    op ← get_operation cmd term index
    some (execute s op (index -ℤ pos 1))

  unfoldable pub replay : List ApplyMsg → Store → Option Store
  unfolding receive
  replay [] s = some s
  replay (m ∷ ms) s = do s' ← receive s m; replay ms s'
