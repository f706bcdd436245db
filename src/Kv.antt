-- ===== src/Kv.antt =====
-- include/kvRaft.h and src/kvRaft.cpp: the key-value server over its Raft node. A request's context
-- lives on the stack of the thread that serves it, and `request_map` points to it: here `contexts`
-- is the store of all contexts ever made, by address, and a destroyed one is `none`. What a client
-- is answered is the message before protobuf serializes it.
pub mod Machine
pub mod Refines
pub mod Sequence
pub mod Requests
pub mod Compaction
pub mod Startup
use shard_kv_raft.Base.{
  ℕ, Bool, true, false, ◌&&◌, ◌||◌, not, List, [], ◌∷◌, ◌++◌, Option, none, some, ◌>>=◌, ℤ, pos,
  minus_one, ◌-ℤ◌, ◌==ℤ◌, ltb_ℤ, length, get_elem?, set, if◌then◌else◌,
}
use shard_kv_raft.Text.{Bytes, codes, same}
use shard_kv_raft.Dict.{lookup, insert, erase, insert_all, bytes_eq, int_eq}
use shard_kv_raft.Raft.State.{Operation, ApplyMsg, command, snap, Raft}
use shard_kv_raft.Raft.Wire.{get_operation}
use shard_kv_raft.Raft.Replicate.{start}
use shard_kv_raft.Raft.Snapshot.{Codec, exceed_log_size, recv_snapshot}

abbrev pub Database : Type 0
Database = List (Bytes × Bytes)

abbrev pub SeqMap : Type 0
SeqMap = List (ℤ × ℤ)

-- The bits of `state::state`.
pub record Flags : Type 0 where
  pub key_wrong : Bool
  pub syn_wrong : Bool
  pub leader_wrong : Bool

pub record OpContext : Type 0 where
  pub op : Operation
  pub is_ignored : Bool
  pub is_ready : Bool
  pub flags : Flags

-- The message `rf::SnapShotInfo`, and its serialization.
pub record SnapShotInfo : Type 0 where
  pub content : Database
  pub client_seq : SeqMap

pub record KvServer : Type 0 where
  pub raft : Raft
  pub snapshot_thresh : ℤ
  pub last_applied_index : ℤ
  pub database : Database
  pub client_seq : SeqMap
  pub request_map : List (ℤ × ℕ)
  pub contexts : List (Option OpContext)

-- Reading through a pointer; a destroyed context is undefined behaviour.
unfoldable pub deref : KvServer → ℕ → Option OpContext
deref kv address = do slot ← get_elem? kv.contexts address; slot

unfoldable pub write : KvServer → ℕ → OpContext → KvServer
write kv address c = record kv { contexts = set kv.contexts address (some c) }

-- `new` of OpContext: the constructor leaves `state` as the memory was, which is `garbage`.
unfoldable pub new_context : Operation → Flags → OpContext
new_context op garbage = record { op = op; is_ignored = false; is_ready = false; flags = garbage }

-- The context of an operation that comes back committed, if a request waits for it.
unfoldable pub context_at : KvServer → Option ℕ → Option (Option (ℕ × OpContext))
unfolding deref
context_at kv none = some none
context_at kv (some address) = do c ← deref kv address; some (some (address, c))

unfoldable pub waiting : KvServer → ℤ → Option (Option (ℕ × OpContext))
unfolding context_at
waiting kv index = context_at kv (lookup index kv.request_map)

-- An entry of another term has taken the place of the request's.
unfoldable pub check_term : Operation → OpContext → OpContext
check_term op c =
    if c.op.op_term ==ℤ op.op_term
    then c
    else record c { flags = record c.flags { leader_wrong = true } }

-- A `set` is applied if the client is new or its last request is older.
unfoldable pub is_fresh : SeqMap → Operation → Bool
is_fresh seq op = elim (lookup op.client_id seq) [
  | none ↦ true
  | some prev ↦ ltb_ℤ prev op.request_id
]

-- What the operation leaves in the context of a waiting request.
unfoldable pub answer_context : Database → Bool → Operation → OpContext → OpContext
answer_context db fresh op c =
    if same op.op (codes "set")
    then (if fresh then c else record c { is_ignored = true })
    else if same op.op (codes "get")
    then (elim (lookup op.key db) [
      | none ↦ record c { flags = record c.flags { key_wrong = true } }
      | some v ↦ record c { op = record c.op { value = v } }
    ])
    else c

unfoldable pub write_database : Database → Bool → Operation → Database
write_database db fresh op =
    if same op.op (codes "set") && fresh then insert op.key op.value db else db

-- The context is answered and its thread woken.
unfoldable pub notify : KvServer → Bool → Operation → Option (ℕ × OpContext) → KvServer
unfolding write check_term answer_context
notify kv fresh op none = kv
notify kv fresh op (some (address, c)) =
    write kv address
      (record (answer_context kv.database fresh op (check_term op c)) { is_ready = true })

-- The branch of ApplyLoop for a log entry.
unfoldable pub apply_command : KvServer → Operation → ℤ → Option KvServer
unfolding waiting is_fresh write_database notify
apply_command kv op index = do
  found ← waiting kv index
  let fresh = is_fresh kv.client_seq op
  let kv' = record kv {
    last_applied_index = index;
    client_seq = insert op.client_id op.request_id kv.client_seq;
    database = write_database kv.database fresh op;
  }
  some (notify kv' fresh op found)

module _ (parse_info : Bytes → SnapShotInfo) where
  -- RecoveryFromSnapShot: the maps are written over, not replaced.
  unfoldable pub recover : KvServer → Bytes → KvServer
  recover kv snapshot =
      let info = parse_info snapshot in
      record kv {
        database = insert_all info.content kv.database;
        client_seq = insert_all info.client_seq kv.client_seq;
      }

  -- The branch of ApplyLoop for a snapshot.
  unfoldable pub apply_snapshot : KvServer → Bytes → ℤ → KvServer
  unfolding recover
  apply_snapshot kv [] index = record kv { database = []; client_seq = [] }
  apply_snapshot kv (b ∷ bytes) index = record (recover kv (b ∷ bytes)) {
    last_applied_index = index;
  }

  -- One round of the loop over the messages of ApplyLoop.
  unfoldable pub apply_msg : KvServer → ApplyMsg → Option KvServer
  unfolding apply_command apply_snapshot
  apply_msg kv (snap bytes index term) = some (apply_snapshot kv bytes index)
  apply_msg kv (command cmd index term) = do
    op ← get_operation cmd term index
    apply_command kv op (index -ℤ pos 1)

  unfoldable pub apply_msgs : List ApplyMsg → KvServer → Option KvServer
  unfolding apply_msg
  apply_msgs [] kv = some kv
  apply_msgs (m ∷ ms) kv = do kv' ← apply_msg kv m; apply_msgs ms kv'
