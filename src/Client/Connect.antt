-- ===== src/Client/Connect.antt =====
-- Client::Init, Client::reconnect and GetPeers of src/client.cpp. What `rand()` and `connect` return is
-- an argument.
use shard_kv_raft.Base.{
  ℕ, zero, suc, ◌+◌, ◌*◌, ◌%◌, ◌<◌, ◌≡◌, refl, ap, Bool, true, List, [], ◌∷◌, Option, some, ◌>>=◌,
  ℤ, pos, minus_one, length, get_elem?, if◌then◌else◌, map,
}
use shard_kv_raft.Text.{Bytes, codes}
use shard_kv_raft.Client.{Client, set_connected}
use shard_kv_raft.Client.Rounds.{IsFit}
use shard_kv_raft.Kv.Startup.{KvServerInfo, servers_from, get_kv_server_port}

-- The flags of the servers from number `i` on.
unfoldable pub connect_from : (ℕ → Bool) → ℕ → List (Bytes × ℤ) → List Bool
connect_from connects i [] = []
connect_from connects i (s ∷ servers) = connects i ∷ connect_from connects (suc i) servers

-- `finished`
unfoldable pub count_true : List Bool → ℕ
count_true [] = 0
count_true (b ∷ bs) = let rest = count_true bs in if b then suc rest else rest

-- Init: `random` is what `rand()` gives, `connects` what the call for each server comes to.
unfoldable pub init_client : ℕ → (ℕ → Bool) → List (Bytes × ℤ) → Client × ℕ
unfolding connect_from count_true
init_client random connects servers =
    let connected = connect_from connects 0 servers in
    (
      record {
        servers = servers;
        connected = connected;
        client_id = pos (random % 10000 + 1);
        request_id = pos 0;
        leader_id = 0;
      },
      count_true connected,
    )

-- reconnect, behind the read of `servers_[i]`
unfoldable pub reconnect : Bool → Client → ℕ → Option (Client × ℤ)
unfolding set_connected
reconnect connects c i = do
  server ← get_elem? c.servers i
  some (if connects then (set_connected c i true, pos 0) else (c, minus_one))

unfoldable pub peers_from : ℕ → ℕ → List (Bytes × ℤ)
peers_from zero from = []
peers_from (suc num) from =
    (codes "192.168.203.128", pos (1024 + from * 2 + 1)) ∷ peers_from num (from + 1)

unfoldable pub get_peers : ℕ → List (Bytes × ℤ)
unfolding peers_from
get_peers num = peers_from num 0

-- What a client connects to.
abbrev pub address : KvServerInfo → Bytes × ℤ
address info = (info.kv_ip, info.kv_port)

peers-servers : (num from : ℕ) → peers_from num from ≡ map address (servers_from num from)
unfolding peers_from servers_from
peers-servers zero from = refl
peers-servers (suc num) from =
    ap (λ ps. (codes "192.168.203.128", pos (1024 + from * 2 + 1)) ∷ ps)
      (peers-servers num (from + 1))

-- For any number of servers, the addresses that the clients' main takes are those at which the
-- servers' main has them listen to clients, in the same order.
pub get_peers-get_kv_server_port : (num : ℕ) → get_peers num ≡ map address (get_kv_server_port num)
unfolding get_peers get_kv_server_port
get_peers-get_kv_server_port num = peers-servers num 0

pub length-connect_from :
    (connects : ℕ → Bool) (i : ℕ) (servers : List (Bytes × ℤ))
    → length (connect_from connects i servers) ≡ length servers
unfolding connect_from
length-connect_from connects i [] = refl
length-connect_from connects i (s ∷ servers) = ap suc (length-connect_from connects (suc i) servers)

-- With a server to connect to, a new client is fit for a request.
pub init_client-IsFit :
    (random : ℕ) (connects : ℕ → Bool) (servers : List (Bytes × ℤ))
    → 0 < length servers
    → IsFit (init_client random connects servers).0
unfolding init_client
init_client-IsFit random connects servers some_server =
    (some_server, length-connect_from connects 0 servers)
