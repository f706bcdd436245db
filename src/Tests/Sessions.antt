-- ===== src/Tests/Sessions.antt =====
-- A client's calls at concrete inputs.
use shard_kv_raft.Base.{
  ◌==◌, ◌<◌, if◌then◌else◌, ◌≡◌, true, false, List, [], ◌∷◌, some, length, arith,
}
use shard_kv_raft.Text.{Bytes, codes}
use shard_kv_raft.Kv.Requests.{Request}
use shard_kv_raft.Client.{Client, Reply, Round}
use shard_kv_raft.Client.Rounds.{IsFit}
use shard_kv_raft.Client.Connect.{init_client, get_peers, init_client-IsFit, peers_from}
use shard_kv_raft.Client.Asking.{put, get, outer_of}
use shard_kv_raft.Client.Session.{Turn, session, IsReadBack, Numbered, session_numbers}
use shard_kv_raft.Tests.Nodes.{midnight}
use shard_kv_raft.Tests.Wires.{plain, read_outer-wire_outer, read_put-wire_put, read_get-wire_get}

-- The second of two servers does not answer the connection.
client : Client
client = (init_client 41 (λ i. if i == 0 then true else false) (get_peers 2)).0

two_peers : 0 < length (get_peers 2)
unfolding get_peers peers_from
two_peers = omega arith

ready : IsFit client
unfolding client
ready = init_client-IsFit 41 (λ i. if i == 0 then true else false) (get_peers 2) two_peers

-- Any reply is the leader's.
abbrev parse : Bytes → Reply
parse b = record { is_wrong_leader = false; response_msg = b }

abbrev answer : Round
answer = record { now = midnight; reconnects = true; sends = true; received = some [] }

abbrev turns : List Turn
turns =
    record { call = put (codes "a") (codes "7"); start = midnight; rounds = answer ∷ [] }
    ∷ record { call = get (codes "a"); start = midnight; rounds = answer ∷ [] }
    ∷ []

read_back : IsReadBack plain client.client_id client.request_id turns
unfolding client outer_of
read_back = (
  (read_outer-wire_outer _, read_put-wire_put _),
  ((read_outer-wire_outer _, read_get-wire_get _), tt),
)

session_numbers_example :
    (last : Client) × (requests : List Request) × (session plain parse client turns
      ≡ some (last, requests))
    × Numbered plain client.client_id client.request_id turns requests
session_numbers_example = session_numbers plain parse turns client ready read_back
