-- ===== src/Kv/Requests.antt =====
-- PutImpl, GetImpl, ParseRequest and HandleMessage of src/kvRaft.cpp. A call is in pieces,
-- between which ApplyLoop runs: up to Start, the entry of its context, and from the wait on; the context is destroyed when the call returns.
-- An answer is the message before protobuf serializes it, and protobuf's parsers are parameters.
pub mod Contexts
pub mod Served
pub mod Reading
pub mod Holding
pub mod Waiting
use shard_kv_raft.Base.{
  ℕ, Bool, true, false, ◌++◌, List, [], ◌∷◌, Option, none, some, ◌>>=◌, ℤ, pos, length, set,
  if◌then◌else◌,
}
use shard_kv_raft.Text.{Bytes, codes, same}
use shard_kv_raft.Dict.{lookup, insert, erase, bytes_eq, int_eq}
use shard_kv_raft.Raft.State.{Operation, StartRet, Raft}
use shard_kv_raft.Raft.Replicate.{start}
use shard_kv_raft.Kv.{KvServer, OpContext, Flags, deref, new_context}

pub data Answer : Type 0 where
  empty : Answer
  wrong_request : Answer
  put_answer : (ok : Bool) → Answer
  get_answer : (is_exist : Bool) (value : Bytes) → Answer

pub record Response : Type 0 where
  pub kind : Bytes
  pub is_wrong_leader : Bool
  pub answer : Answer

-- What Start comes to: an answer at once, or the operation in the log, with the answer so far.
pub data Begun : Type 0 where
  answered : KvServer → Response → Begun
  started : KvServer → Operation → Response → Begun

-- What a look at the context comes to.
pub data Finished : Type 0 where
  still_waits : Finished
  returned : KvServer → Response → Finished

-- `OpContext context(op); m_requestMap[op.op_index] = &context;`, under a lock of its own: the server,
-- and the address of the context.
unfoldable pub enter : Flags → KvServer → Operation → KvServer × ℕ
unfolding new_context
enter garbage kv op = (
  record kv {
    contexts = kv.contexts ++ some (new_context op garbage) ∷ [];
    request_map = insert op.op_index (length kv.contexts) kv.request_map;
  },
  length kv.contexts,
)

-- Start, and what both calls do with its answer before they make the context.
unfoldable pub submit : KvServer → Operation → Response → Response → Begun
unfolding start
submit kv op refused so_far =
    let (raft, ret) = start kv.raft op in
    let op' = record op { op_term = ret.cur_term; op_index = ret.cmd_index } in
    let kv' = record kv { raft = raft } in
    if ret.is_leader then started kv' op' so_far else answered kv' refused

unfoldable pub begin_put : KvServer → Operation → Begun
unfolding submit
begin_put kv op =
    submit kv op (record { kind = codes "set"; is_wrong_leader = true; answer = put_answer false })
      (record { kind = codes "set"; is_wrong_leader = false; answer = put_answer false })

unfoldable pub found_answer : Option Bytes → Answer
found_answer none = get_answer false []
found_answer (some v) = get_answer true v

-- GetImpl under `db_mtx`.
unfoldable pub look_up : KvServer → Operation → Answer
unfolding found_answer
look_up kv op = found_answer (lookup op.key kv.database)

-- GetImpl behind the look-up, with what it found.
unfoldable pub begin_get : Answer → KvServer → Operation → Begun
unfolding submit
begin_get found kv op =
    submit kv op (record { kind = codes "get"; is_wrong_leader = true; answer = found })
      (record { kind = codes "get"; is_wrong_leader = false; answer = found })

-- The return of the call ends the life of its context.
unfoldable pub destroy : KvServer → ℕ → KvServer
destroy kv address = record kv { contexts = set kv.contexts address none }

-- PutImpl at the wait and behind it: the return for a wrong leader stands before the erase.
unfoldable pub finish_put : KvServer → Operation → ℕ → Option Finished
unfolding deref destroy
finish_put kv op address = do
  c ← deref kv address
  some (
      if c.is_ready
      then (if c.flags.leader_wrong
          then returned (destroy kv address)
              (record { kind = codes "set"; is_wrong_leader = true; answer = put_answer false })
          else returned
              (destroy (record kv { request_map = erase op.op_index kv.request_map }) address)
              (record { kind = codes "set"; is_wrong_leader = false; answer = put_answer true }))
      else still_waits)

unfoldable pub set_exist : Bool → Answer → Answer
set_exist b (get_answer old v) = get_answer b v
set_exist b empty = empty
set_exist b wrong_request = wrong_request
set_exist b (put_answer ok) = put_answer ok

unfoldable pub set_value : Bytes → Answer → Answer
set_value v (get_answer b old) = get_answer b v
set_value v empty = empty
set_value v wrong_request = wrong_request
set_value v (put_answer ok) = put_answer ok

-- GetImpl at the wait and behind it.
unfoldable pub finish_get : KvServer → Operation → ℕ → Response → Option Finished
unfolding deref destroy set_exist set_value
finish_get kv op address so_far = do
  c ← deref kv address
  some (
      if c.is_ready
      then returned (destroy (record kv { request_map = erase op.op_index kv.request_map }) address)
          (if c.flags.leader_wrong
            then record so_far { is_wrong_leader = true }
            else if c.flags.key_wrong
            then record so_far { answer = set_exist false so_far.answer }
            else record so_far { answer = set_value c.op.value so_far.answer })
      else still_waits)

pub record Request : Type 0 where
  pub kind : Bytes
  pub request_msg : Bytes

pub record PutRequest : Type 0 where
  pub key : Bytes
  pub value : Bytes
  pub op : Bytes
  pub client_id : ℤ
  pub request_id : ℤ

pub record GetRequest : Type 0 where
  pub key : Bytes
  pub client_id : ℤ
  pub request_id : ℤ

module _ (parse_outer : Bytes → Request) (parse_get : Bytes → GetRequest)
    (parse_put : Bytes → PutRequest) where
  -- `op` comes in as its constructor leaves it; the flag is the call's result.
  unfoldable pub parse_request : Bytes → Operation → Operation × Bool
  parse_request message op =
      let request = parse_outer message in
      let get = parse_get request.request_msg in
      let put = parse_put request.request_msg in
      if same request.kind (codes "get")
      then (
        record op {
          op = codes "get";
          key = get.key;
          client_id = get.client_id;
          request_id = get.request_id;
        },
        true,
      )
      else if same request.kind (codes "set")
      then (
        record op {
          op = put.op;
          key = put.key;
          value = put.value;
          client_id = put.client_id;
          request_id = put.request_id;
        },
        true,
      )
      else if same request.kind (codes "del")
      then (op, true)
      else (op, false)

  -- HandleMessage up to the context of the call; `seen` is the server when a `get` looks its key up.
  unfoldable pub handle_message : (seen kv : KvServer) → Bytes → Operation → Begun
  unfolding parse_request look_up begin_get begin_put
  handle_message seen kv message fresh =
      let (op, ok) = parse_request message fresh in
      if ok
      then (if same op.op (codes "get")
          then begin_get (look_up seen op) kv op
          else if same op.op (codes "set")
          then begin_put kv op
          else answered kv (record { kind = []; is_wrong_leader = false; answer = empty }))
      else answered kv
          (record { kind = codes "bug"; is_wrong_leader = false; answer = wrong_request })
