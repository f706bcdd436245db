-- ===== src/Client/Asking.antt =====
-- What a client of src/client.cpp sends for a call, and what KVServer::ParseRequest of src/kvRaft.cpp
-- makes of it. Protobuf's serializers and parsers are an interface; a `string` field that is not
-- UTF-8 is not read back, so what is read back is a hypothesis on the calls made.
use shard_kv_raft.Base.{◌≡◌, refl, true, ℤ, pos, ◌+ℤ◌}
use shard_kv_raft.Text.{Bytes, codes, same}
use shard_kv_raft.Raft.State.{Operation}
use shard_kv_raft.Kv.Requests.{Request, PutRequest, GetRequest, parse_request}
use shard_kv_raft.Client.{Client, get_request_id, put_request, get_request}

pub record Protobuf : Type 0 where
  pub serialize_outer : Request → Bytes
  pub parse_outer : Bytes → Request
  pub serialize_put : PutRequest → Bytes
  pub parse_put : Bytes → PutRequest
  pub serialize_get : GetRequest → Bytes
  pub parse_get : Bytes → GetRequest

pub data Call : Type 0 where
  put : (key value : Bytes) → Call
  get : (key : Bytes) → Call

-- PutRequest or GetRequest up to SendRequest.
unfoldable pub ask : Protobuf → Client → Call → Client × Request
unfolding put_request get_request
ask pb c (put key value) = put_request pb.serialize_put c key value
ask pb c (get key) = get_request pb.serialize_get c key

-- The operation that the server makes of a call.
unfoldable pub asked : Operation → Call → ℤ → ℤ → Operation
asked fresh (put key value) client_id request_id = record fresh {
  op = codes "set";
  key = key;
  value = value;
  client_id = client_id;
  request_id = request_id;
}
asked fresh (get key) client_id request_id = record fresh {
  op = codes "get";
  key = key;
  client_id = client_id;
  request_id = request_id;
}

-- The message inside a request of a client with the two numbers, and the one around it.
abbrev put_of : Bytes → Bytes → ℤ → ℤ → PutRequest
put_of key value client_id request_id = record {
  key = key;
  value = value;
  op = codes "set";
  client_id = client_id;
  request_id = request_id;
}

abbrev get_of : Bytes → ℤ → ℤ → GetRequest
get_of key client_id request_id = record {
  key = key;
  client_id = client_id;
  request_id = request_id;
}

unfoldable pub outer_of : Protobuf → ℤ → ℤ → Call → Request
outer_of pb client_id request_id (put key value) = record {
  kind = codes "set";
  request_msg = pb.serialize_put (put_of key value client_id request_id);
}
outer_of pb client_id request_id (get key) = record {
  kind = codes "get";
  request_msg = pb.serialize_get (get_of key client_id request_id);
}

-- Protobuf parses the two messages of a call back.
abbrev pub IsCallBack : Protobuf → ℤ → ℤ → Call → Type 0
IsCallBack pb client_id request_id (put key value) =
    (pb.parse_outer (pb.serialize_outer (outer_of pb client_id request_id (put key value)))
      ≡ outer_of pb client_id request_id (put key value))
    × (pb.parse_put (pb.serialize_put (put_of key value client_id request_id))
        ≡ put_of key value client_id request_id)
IsCallBack pb client_id request_id (get key) =
    (pb.parse_outer (pb.serialize_outer (outer_of pb client_id request_id (get key)))
      ≡ outer_of pb client_id request_id (get key))
    × (pb.parse_get (pb.serialize_get (get_of key client_id request_id))
        ≡ get_of key client_id request_id)

-- What ParseRequest makes of the bytes that a client sends is the call, with the client's number and
-- its request number, which goes up by one; the rest of the operation is as it was.
pub parse_request-ask :
    (pb : Protobuf) (c : Client) (call : Call) (fresh : Operation)
    → IsCallBack pb c.client_id c.request_id call
    → let (c', request) = ask pb c call in
      (parse_request pb.parse_outer pb.parse_get pb.parse_put (pb.serialize_outer request) fresh
        ≡ (asked fresh call c.client_id c.request_id, true))
      × (c'.request_id ≡ c.request_id +ℤ pos 1)
unfolding ask put_request get_request get_request_id parse_request asked same outer_of
parse_request-ask pb c (put key value) fresh (outer, inner) = (rw outer (rw inner refl), refl)
parse_request-ask pb c (get key) fresh (outer, inner) = (rw outer (rw inner refl), refl)
