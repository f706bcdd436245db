-- ===== src/Tests/Serving.antt =====
-- A put request and a get request at a leader, from their submission to their answer.
use shard_kv_raft.Base.{
  List, ℕ, ◌≡◌, refl, true, false, [], ◌∷◌, some, pos, minus_one, ◌+ℤ◌, ◌-ℤ◌, All, arith,
}
use shard_kv_raft.Text.{to_string, atoi, cut, Bytes, codes, same}
use shard_kv_raft.Dict.{lookup, insert, bytes_eq, int_eq}
use shard_kv_raft.Raft.State.{Operation, ApplyMsg, command}
use shard_kv_raft.Raft.Log.{last_index, log_at}
use shard_kv_raft.Raft.Wire.{get_cmd, parts, get_operation}
use shard_kv_raft.Raft.Wire.Operations.{IsLoggable, writes, reads}
use shard_kv_raft.Kv.{KvServer, Flags, SnapShotInfo, is_fresh, apply_msg, apply_msgs}
use shard_kv_raft.Kv.Requests.{
  Response, put_answer, get_answer, started, still_waits, returned, enter, begin_put, finish_put,
  look_up, begin_get, finish_get,
}
use shard_kv_raft.Kv.Requests.Served.{put_response}
use shard_kv_raft.Kv.Requests.Holding.{IsElsewhere}
use shard_kv_raft.Kv.Requests.Waiting.{put_waits_and_serves, early_entry_strands}
use shard_kv_raft.Kv.Requests.Reading.{get_response, get_waits_and_answers}
use shard_kv_raft.Kv.Machine.{Store, store_of, replay}
use shard_kv_raft.Kv.Refines.{IsLive}
use shard_kv_raft.Tests.Nodes.{leader_node}

abbrev set_b : Operation
set_b = record {
  op = codes "set";
  key = codes "b";
  value = codes "5";
  client_id = pos 7;
  request_id = pos 3;
  op_term = pos 0;
  op_index = pos 0;
}

abbrev server : KvServer
server = record {
  raft = leader_node;
  snapshot_thresh = minus_one;
  last_applied_index = pos 0;
  database = (codes "a", codes "1") ∷ [];
  client_seq = (pos 7, pos 2) ∷ [];
  request_map = [];
  contexts = [];
}

abbrev memory : Flags
memory = record { key_wrong = false; syn_wrong = true; leader_wrong = false }

abbrev parse_none : Bytes → SnapShotInfo
parse_none bytes = record { content = []; client_seq = [] }

set_b-IsLoggable : IsLoggable set_b
unfolding same
set_b-IsLoggable =
    writes refl ((λ e. cc), omega arith) ((λ e. cc), omega arith) ((λ e. cc), omega arith)

-- Another client's entry comes first.
abbrev other_entry : ApplyMsg
other_entry = command (codes "set z 9 8 0") (pos 2) (pos 1)

abbrev store_then : Store
store_then = record {
  applied = pos 1;
  values = (codes "a", codes "1") ∷ (codes "z", codes "9") ∷ [];
  seqs = (pos 7, pos 2) ∷ (pos 8, pos 0) ∷ [];
}

other_first : replay parse_none (other_entry ∷ []) (store_of server) ≡ some store_then
unfolding replay get_operation parts cut atoi lookup insert same ◌-ℤ◌
other_first = refl

none_waits : IsLive server
unfolding lookup
none_waits i a h = cc

-- The other client's entry, before the context is entered and behind it.
abbrev entries : List ApplyMsg
entries = other_entry ∷ []

-- The other client's next entry.
abbrev next_entry : ApplyMsg
next_entry = command (codes "set z 9 8 1") (pos 2) (pos 1)

abbrev store_next : Store
store_next = record store_then { seqs = (pos 7, pos 2) ∷ (pos 8, pos 1) ∷ [] }

then_next : replay parse_none (next_entry ∷ []) store_then ≡ some store_next
unfolding replay get_operation parts cut atoi lookup insert same ◌-ℤ◌
then_next = refl

next_entry-IsElsewhere : All (IsElsewhere (last_index server.raft)) (next_entry ∷ [])
unfolding last_index ◌-ℤ◌ ◌+ℤ◌
next_entry-IsElsewhere = ((λ e. cc), tt)

still_newer : is_fresh store_next.seqs set_b ≡ true
unfolding is_fresh lookup
still_newer = refl

put_waits_and_serves_example :
    (kv1 : KvServer) × (op1 : Operation) × (so_far : Response) × (kv2 : KvServer) × (kv3 : KvServer)
    × (address : ℕ) × (kv4 : KvServer) × (kv5 : KvServer) × (kv6 : KvServer) × (begin_put server
          set_b
        ≡ started kv1 op1 so_far)
    × (last_index kv1.raft ≡ last_index leader_node +ℤ pos 1)
    × (log_at kv1.raft (last_index leader_node +ℤ pos 1)
        ≡ some (record { cmd = get_cmd set_b; term = pos 2 }))
    × (apply_msgs parse_none entries kv1 ≡ some kv2)
    × (enter memory kv2 op1 ≡ (kv3, address))
    × (apply_msgs parse_none (next_entry ∷ []) kv3 ≡ some kv4)
    × (store_of kv4 ≡ store_next)
    × (finish_put kv4 op1 address ≡ some still_waits)
    × (apply_msg parse_none kv4 (command (get_cmd set_b) (last_index leader_node +ℤ pos 1) (pos 2))
        ≡ some kv5)
    × (lookup set_b.key kv5.database ≡ some set_b.value)
    × (finish_put kv5 op1 address
        ≡ some (returned kv6 (record put_response { answer = put_answer true })))
put_waits_and_serves_example =
    put_waits_and_serves parse_none memory server set_b entries (next_entry ∷ []) store_then
      store_next refl none_waits refl set_b-IsLoggable refl next_entry-IsElsewhere other_first
      then_next still_newer

-- The store behind the call's own entry, and then the other client's.
abbrev store_own : Store
store_own = record {
  applied = pos 2;
  values = (codes "a", codes "1") ∷ (codes "b", codes "5") ∷ [];
  seqs = (pos 7, pos 3) ∷ [];
}

abbrev store_last : Store
store_last = record {
  applied = pos 1;
  values = (codes "a", codes "1") ∷ (codes "b", codes "5") ∷ (codes "z", codes "9") ∷ [];
  seqs = (pos 7, pos 3) ∷ (pos 8, pos 1) ∷ [];
}

own_first :
    replay parse_none
      (command (get_cmd set_b) (last_index server.raft +ℤ pos 1) server.raft.cur_term ∷ [])
      (store_of server)
    ≡ some store_own
unfolding replay get_operation get_cmd parts cut atoi to_string lookup insert same last_index ◌+ℤ◌
    ◌-ℤ◌
own_first = refl

then_last : replay parse_none (next_entry ∷ []) store_own ≡ some store_last
unfolding replay get_operation parts cut atoi lookup insert same ◌-ℤ◌
then_last = refl

early_entry_strands_example :
    (kv1 : KvServer) × (op1 : Operation) × (so_far : Response) × (kv2 : KvServer) × (kv3 : KvServer)
    × (address : ℕ) × (kv4 : KvServer) × (begin_put server set_b ≡ started kv1 op1 so_far)
    × (log_at kv1.raft (last_index leader_node +ℤ pos 1)
        ≡ some (record { cmd = get_cmd set_b; term = pos 2 }))
    × (apply_msgs parse_none
          (command (get_cmd set_b) (last_index leader_node +ℤ pos 1) (pos 2) ∷ [])
          kv1
        ≡ some kv2)
    × (enter memory kv2 op1 ≡ (kv3, address))
    × (apply_msgs parse_none (next_entry ∷ []) kv3 ≡ some kv4)
    × (store_of kv4 ≡ store_last)
    × (finish_put kv4 op1 address ≡ some still_waits)
early_entry_strands_example =
    early_entry_strands parse_none memory server set_b (next_entry ∷ []) store_own store_last refl
      none_waits next_entry-IsElsewhere own_first then_last

abbrev get_z : Operation
get_z = record {
  op = codes "get";
  key = codes "z";
  value = [];
  client_id = pos 7;
  request_id = pos 3;
  op_term = pos 0;
  op_index = pos 0;
}

get_z-IsLoggable : IsLoggable get_z
get_z-IsLoggable = reads refl ((λ e. cc), omega arith) refl

clear_memory : (memory.leader_wrong ≡ false) × (memory.key_wrong ≡ false)
clear_memory = (refl, refl)

-- The key gets its value while the request waits: the value is in the answer, which says that the key
-- does not exist.
get_waits_and_answers_example :
    (kv1 : KvServer) × (op1 : Operation) × (so_far : Response) × (kv2 : KvServer) × (kv3 : KvServer)
    × (address : ℕ) × (kv4 : KvServer) × (kv5 : KvServer) × (kv6 : KvServer) × (begin_get
          (look_up server get_z)
          server
          get_z
        ≡ started kv1 op1 so_far)
    × (last_index kv1.raft ≡ last_index leader_node +ℤ pos 1)
    × (log_at kv1.raft (last_index leader_node +ℤ pos 1)
        ≡ some (record { cmd = get_cmd get_z; term = pos 2 }))
    × (apply_msgs parse_none entries kv1 ≡ some kv2)
    × (enter memory kv2 op1 ≡ (kv3, address))
    × (apply_msgs parse_none (next_entry ∷ []) kv3 ≡ some kv4)
    × (store_of kv4 ≡ store_next)
    × (finish_get kv4 op1 address so_far ≡ some still_waits)
    × (apply_msg parse_none kv4 (command (get_cmd get_z) (last_index leader_node +ℤ pos 1) (pos 2))
        ≡ some kv5)
    × (kv5.database ≡ store_next.values)
    × (finish_get kv5 op1 address so_far
        ≡ some (returned kv6 (get_response (get_answer false (codes "9")))))
unfolding lookup same
get_waits_and_answers_example =
    get_waits_and_answers parse_none memory server server get_z entries (next_entry ∷ []) store_then
      store_next refl none_waits refl get_z-IsLoggable (clear_memory.0) (clear_memory.1)
      next_entry-IsElsewhere other_first then_next
