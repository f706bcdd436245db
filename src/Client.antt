-- ===== src/Client.antt =====
-- src/client.cpp (include/client.h): a client that sends a request to the node it takes for the
-- leader and turns to the next one when that fails. What the sockets and the clock answer in a round
-- of the loop is an argument, and so are protobuf's serializers and parsers.
pub mod Rounds
pub mod Attempts
pub mod Sending
pub mod Connect
pub mod Asking
pub mod Session
use shard_kv_raft.Base.{
  ℕ, zero, suc, ◌+◌, ◌%◌, Bool, true, false, List, [], ◌∷◌, Option, none, some, ◌>>=◌, ℤ, pos, ◌+ℤ◌,
  ltb_ℤ, length, get_elem?, set, if◌then◌else◌,
}
use shard_kv_raft.Text.{Bytes, codes}
use shard_kv_raft.Raft.State.{Timeval}
use shard_kv_raft.Raft.Election.{get_duration}
use shard_kv_raft.Kv.Requests.{Request, PutRequest, GetRequest}

-- `leaderId` starts at 0 and is only set by GetChangeLeader.
pub record Client : Type 0 where
  pub servers : List (Bytes × ℤ)
  pub connected : List Bool
  pub client_id : ℤ
  pub request_id : ℤ
  pub leader_id : ℕ

-- The message `kvrf::Response` as the client reads it.
pub record Reply : Type 0 where
  pub is_wrong_leader : Bool
  pub response_msg : Bytes

-- What one round of the loop is answered: the time, whether a reconnection and a `send` succeed, and
-- the bytes of `recv`, or none when it fails.
pub record Round : Type 0 where
  pub now : Timeval
  pub reconnects : Bool
  pub sends : Bool
  pub received : Option Bytes

-- After a round: the client, `cur_leaderId` and `recv_str` for the next one, or the result.
pub data Progress : Type 0 where
  again : Client → ℕ → Bytes → Progress
  returned : Client → (ok : Bool) → (recv_str : Bytes) → Progress

-- GetRequestId
unfoldable pub get_request_id : Client → Client × ℤ
get_request_id c = (record c { request_id = c.request_id +ℤ pos 1 }, c.request_id)

-- GetChangeLeader; the remainder by 0 is undefined.
unfoldable pub next_leader : ℕ → ℕ → Option ℕ
next_leader zero id = none
next_leader (suc n) id = some ((id + 1) % suc n)

unfoldable pub get_change_leader : Client → Option (Client × ℕ)
unfolding next_leader
get_change_leader c = do
  next ← next_leader (length c.servers) c.leader_id
  some (record c { leader_id = next }, next)

unfoldable pub set_connected : Client → ℕ → Bool → Client
set_connected c i b = record c { connected = set c.connected i b }

unfoldable pub change : Client → Bytes → Option Progress
unfolding get_change_leader
change c recv_str = do (c', next) ← get_change_leader c; some (again c' next recv_str)

-- The connection is closed and the next server is tried.
unfoldable pub lose : Client → ℕ → Bytes → Option Progress
unfolding set_connected change
lose c cur recv_str = change (set_connected c cur false) recv_str

module _ (parse_reply : Bytes → Reply) where
  unfoldable pub hear : Client → ℕ → Option Bytes → Bytes → Option Progress
  unfolding lose change
  hear c cur none recv_str = lose c cur recv_str
  hear c cur (some bytes) recv_str =
      let reply = parse_reply bytes in
      if reply.is_wrong_leader
      then change c reply.response_msg
      else some (returned c true reply.response_msg)

  -- One round of the loop of SendRequest.
  unfoldable pub send_round : Timeval → Client → ℕ → Bytes → Round → Option Progress
  unfolding hear lose change set_connected
  send_round start c cur recv_str round =
      let working = (do
        up ← get_elem? c.connected cur
        if up
            then (if round.sends then hear c cur round.received recv_str else lose c cur recv_str)
            else if round.reconnects
            then some (again (set_connected c cur true) cur recv_str)
            else change c recv_str) in
      if ltb_ℤ (pos 10000000) (get_duration round.now start)
      then some (returned c false recv_str)
      else working

  -- The loop, for as long as rounds are given.
  unfoldable pub send_rounds : Timeval → Client → ℕ → Bytes → List Round → Option Progress
  unfolding send_round
  send_rounds start c cur recv_str [] = some (again c cur recv_str)
  send_rounds start c cur recv_str (round ∷ rounds) = do
    step ← send_round start c cur recv_str round
    elim step [
      | again c' cur' recv_str' ↦ send_rounds start c' cur' recv_str' rounds
      | returned c' ok recv_str' ↦ some (returned c' ok recv_str')
    ]

  unfoldable pub send_request : Timeval → Client → List Round → Option Progress
  unfolding send_rounds
  send_request start c rounds = send_rounds start c c.leader_id [] rounds

-- PutRequest up to SendRequest: the message inside, which is serialized into the one around it.
unfoldable pub put_request : (PutRequest → Bytes) → Client → Bytes → Bytes → Client × Request
unfolding get_request_id
put_request serialize c key value =
    let (c', id) = get_request_id c in
    (
      c',
      record {
        kind = codes "set";
        request_msg = serialize (record {
          key = key;
          value = value;
          op = codes "set";
          client_id = c.client_id;
          request_id = id;
        });
      },
    )

-- GetRequest up to SendRequest.
unfoldable pub get_request : (GetRequest → Bytes) → Client → Bytes → Client × Request
unfolding get_request_id
get_request serialize c key =
    let (c', id) = get_request_id c in
    (
      c',
      record {
        kind = codes "get";
        request_msg = serialize (record { key = key; client_id = c.client_id; request_id = id });
      },
    )
