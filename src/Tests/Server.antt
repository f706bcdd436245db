-- ===== src/Tests/Server.antt =====
-- The key-value server at concrete requests.
use shard_kv_raft.Base.{
  ℕ, ◌≡◌, refl, sym, ◌∙◌, ◌-ℤ◌, ==ℤ_iff, inl, inr, Bool, true, false, List, [], ◌∷◌, none, some, ℤ,
  pos, minus_one, arith,
}
use shard_kv_raft.Text.{Bytes, codes, same, atoi, cut}
use shard_kv_raft.Dict.{lookup, insert, insert_all, either, bytes_eq, int_eq}
use shard_kv_raft.Raft.State.{Operation, ApplyMsg, command, snap}
use shard_kv_raft.Raft.Wire.{get_operation, parts}
use shard_kv_raft.Kv.{KvServer, OpContext, SnapShotInfo, waiting, apply_snapshot, apply_msgs}
use shard_kv_raft.Kv.Machine.{Store, store_of, execute, replay}
use shard_kv_raft.Kv.Refines.{IsLive, apply_msgs-replay}
use shard_kv_raft.Kv.Sequence.{executes, HasSeen, execute_again, execute_reopens}
use shard_kv_raft.Kv.Requests.{put_answer, Response, returned, finish_put}
use shard_kv_raft.Kv.Requests.Contexts.{IsSole, finish_put_dangles, finish_put-IsLive}
use shard_kv_raft.Kv.Compaction.{snapshot_info, get_snapshot}
use shard_kv_raft.Kv.Compaction.Recovery.{apply_snapshot-get_snapshot}
use shard_kv_raft.Tests.Nodes.{follower_node, two_entries}

-- the client's request number `n`: `set a 5`
abbrev set_a : ℕ → Operation
set_a n = record {
  op = codes "set";
  key = codes "a";
  value = codes "5";
  client_id = pos 7;
  request_id = pos n;
  op_term = pos 2;
  op_index = pos 4;
}

-- A request that is answered, with or without the mark of the wrong leader.
abbrev context : Bool → OpContext
context wrong = record {
  op = set_a 3;
  is_ignored = false;
  is_ready = true;
  flags = record { key_wrong = false; syn_wrong = false; leader_wrong = wrong };
}

-- A server with one request, of index 4, whose call has not gone on yet.
abbrev server : Bool → KvServer
server wrong = record {
  raft = follower_node 0 2 two_entries;
  snapshot_thresh = minus_one;
  last_applied_index = pos 3;
  database = (codes "b", codes "1") ∷ [];
  client_seq = (pos 7, pos 2) ∷ [];
  request_map = (pos 4, 0) ∷ [];
  contexts = some (context wrong) ∷ [];
}

abbrev store : Store
store = store_of (server false)

-- A reader of snapshots that knows one map.
abbrev parse_known : Bytes → SnapShotInfo
parse_known bytes = record {
  content = (codes "b", codes "1") ∷ [];
  client_seq = (pos 7, pos 2) ∷ [];
}

abbrev write_known : SnapShotInfo → Bytes
write_known info = 1 ∷ []

only_request :
    (wrong : Bool) (i : ℤ) (address : ℕ)
    → lookup i (server wrong).request_map ≡ some address
    → (address ≡ 0) × (i ≡ pos 4)
unfolding lookup
only_request wrong i address h = ground (arith, ==ℤ_iff (pos 4) i)

server-IsLive : (wrong : Bool) → IsLive (server wrong)
server-IsLive wrong index address h =
    let (first, _) = only_request wrong index address h in (context wrong, rw first refl)

server-IsSole : (wrong : Bool) → IsSole (server wrong)
server-IsSole wrong i j address hi hj =
    (only_request wrong i address hi).1 ∙ sym (only_request wrong j address hj).1

abbrev messages : List ApplyMsg
messages =
    command (codes "set a 5 7 3") (pos 5) (pos 2)
    ∷ snap (1 ∷ []) (pos 9) (pos 2)
    ∷ command (codes "get b 8 0") (pos 11) (pos 2)
    ∷ []

abbrev last_store : Store
last_store = record {
  applied = pos 10;
  values = (codes "b", codes "1") ∷ (codes "a", codes "5") ∷ [];
  seqs = (pos 7, pos 2) ∷ (pos 8, pos 0) ∷ [];
}

replayed : replay parse_known messages store ≡ some last_store
unfolding replay get_operation parts cut same ◌-ℤ◌ insert_all insert lookup atoi
replayed = refl

apply_msgs-replay_example :
    (kv' : KvServer) × (apply_msgs parse_known messages (server false) ≡ some kv')
    × (store_of kv' ≡ last_store)
    × IsLive kv'
apply_msgs-replay_example =
    apply_msgs-replay parse_known messages (server false) last_store (server-IsLive false) replayed

-- Another client's request, and a later one of the same client.
abbrev others : List (Operation × ℤ)
others = (record (set_a 0) { client_id = pos 9; value = codes "6" }, pos 5) ∷ (set_a 4, pos 6) ∷ []

execute_again_example :
    (execute (executes (execute store (set_a 3) (pos 4)) others) (set_a 3) (pos 7)).values
    ≡ (executes (execute store (set_a 3) (pos 4)) others).values
execute_again_example =
    execute_again store (set_a 3) (pos 4) (pos 7) others (inl (λ e. cc), (inr (omega arith), tt))

-- The store behind the request number 3.
abbrev seen_store : Store
seen_store = record {
  applied = pos 4;
  values = (codes "a", codes "6") ∷ [];
  seqs = (pos 7, pos 3) ∷ [];
}

seen_three : HasSeen seen_store (pos 7) (pos 3)
unfolding lookup
seen_three = record { last = pos 3; seen = refl; reached = omega arith }

execute_reopens_example :
    ((execute seen_store (set_a 3) (pos 6)).values ≡ seen_store.values)
    × (lookup (codes "a") (execute (execute seen_store (set_a 2) (pos 5)) (set_a 3) (pos 6)).values
        ≡ some (codes "5"))
execute_reopens_example =
    execute_reopens seen_store (set_a 3) (set_a 2) (pos 5) (pos 6) (unfold same in refl) seen_three
      refl (omega arith)

finish_put_dangles_example :
    (kv' : KvServer) × (res : Response) × (finish_put (server true) (set_a 3) 0
      ≡ some (returned kv' res))
    × (res.is_wrong_leader ≡ true)
    × (waiting kv' (pos 4) ≡ none)
finish_put_dangles_example =
    finish_put_dangles (server true) (set_a 3) 0 (context true) (unfold lookup in refl) refl refl
      refl

finish_put-IsLive_example :
    (kv' : KvServer) × (res : Response) × (finish_put (server false) (set_a 3) 0
      ≡ some (returned kv' res))
    × (res.answer ≡ put_answer true)
    × (lookup (pos 4) kv'.request_map ≡ none)
    × IsLive kv'
finish_put-IsLive_example =
    finish_put-IsLive (server false) (set_a 3) 0 (context false) (server-IsLive false)
      (server-IsSole false) (unfold lookup in refl, tt) (unfold lookup in refl) refl refl refl

-- A server with an entry of its own.
abbrev older : KvServer
older = record (server false) { database = (codes "c", codes "2") ∷ []; client_seq = [] }

apply_snapshot-get_snapshot_example :
    ((key : Bytes)
      → lookup key (apply_snapshot parse_known older (1 ∷ []) (pos 3)).database
        ≡ either (lookup key (server false).database) (lookup key older.database))
    × ((client : ℤ)
        → lookup client (apply_snapshot parse_known older (1 ∷ []) (pos 3)).client_seq
          ≡ either (lookup client (server false).client_seq) (lookup client older.client_seq))
apply_snapshot-get_snapshot_example =
    apply_snapshot-get_snapshot write_known parse_known (server false) older (pos 3) 1 []
      (unfold get_snapshot in refl) (unfold snapshot_info in refl) (unfold lookup in refl, tt)
      (unfold lookup in refl, tt)
