-- ===== src/Kv/Startup.antt =====
-- The constructor of KVServer in src/kvRaft.cpp, Init, getRaftPort and getKvServerPort, and the calls that
-- the server passes on to its node. Threads and the TCP server are left out.
use shard_kv_raft.Base.{
  ℕ, zero, suc, ◌+◌, ◌*◌, Bool, List, [], ◌∷◌, Option, some, ◌>>=◌, ℤ, pos, get_elem?,
}
use shard_kv_raft.Text.{Bytes, codes}
use shard_kv_raft.Dict.{bytes_eq}
use shard_kv_raft.Raft.State.{PeersInfo, Timeval}
use shard_kv_raft.Raft.Snapshot.{Codec, init}
use shard_kv_raft.Raft.Heartbeat.{get_state, set_stop}
use shard_kv_raft.Kv.{KvServer}

pub record KvServerInfo : Type 0 where
  pub peers_info : PeersInfo
  pub kv_ip : Bytes
  pub kv_port : ℤ

-- The server behind its constructor: what Init still needs is its peers and its number.
pub record Made : Type 0 where
  pub ip : Bytes
  pub port : ℤ
  pub id : ℤ
  pub peers : List PeersInfo
  pub server : KvServer

unfoldable pub get_raft_port : List KvServerInfo → List PeersInfo
get_raft_port [] = []
get_raft_port (info ∷ infos) = info.peers_info ∷ get_raft_port infos

-- `kvInfo[me]` is read in range; `memory` is the server as its members' own constructors leave it.
unfoldable pub make : KvServer → List KvServerInfo → ℕ → ℤ → Option Made
unfolding get_raft_port
make memory kv_info me thresh = do
  info ← get_elem? kv_info me
  some (record {
    ip = info.kv_ip;
    port = info.kv_port;
    id = pos me;
    peers = get_raft_port kv_info;
    server = record memory { snapshot_thresh = thresh };
  })

-- Init, up to the threads.
unfoldable pub init_server : Codec → Timeval → Made → Option KvServer
unfolding init
init_server codec now made = do
  raft ← init codec now made.peers made.id made.server.raft
  some (record made.server {
    raft = raft;
    last_applied_index = pos 0;
    database = [];
    client_seq = [];
  })

-- The servers numbered `from` up to `from + num - 1`.
unfoldable pub servers_from : ℕ → ℕ → List KvServerInfo
servers_from zero from = []
servers_from (suc num) from =
    let ip = codes "192.168.203.128" in
    record {
      peers_info = record { peer_id = pos from; ip = ip; port = pos (1024 + from * 2) };
      kv_ip = ip;
      kv_port = pos (1024 + from * 2 + 1);
    }
    ∷ servers_from num (from + 1)

unfoldable pub get_kv_server_port : ℕ → List KvServerInfo
unfolding servers_from
get_kv_server_port num = servers_from num 0

unfoldable pub leads : KvServer → Bool
unfolding get_state
leads kv = (get_state kv.raft).1

-- killraft and activateraft
unfoldable pub set_raft_stop : Bool → KvServer → KvServer
unfolding set_stop
set_raft_stop b kv = record kv { raft = set_stop b kv.raft }
