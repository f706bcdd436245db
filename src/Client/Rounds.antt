-- ===== src/Client/Rounds.antt =====
-- What a round of SendRequest in src/client.cpp keeps, and what rounds come to.
use shard_kv_raft.Base.{
  ℕ, zero, suc, ◌+◌, ◌%◌, ◌<◌, ◌≡◌, refl, ◌∙◌, Bool, true, false, List, some, pos, ltb_ℤ, length,
  length-set, get_elem?, All,
}
use native.Mathlib.Nat.{mod-lt, zero-lt-suc}
use shard_kv_raft.Text.{Bytes}
use shard_kv_raft.Raft.State.{Timeval}
use shard_kv_raft.Raft.Election.{get_duration}
use shard_kv_raft.Client.{
  Client, Reply, Round, Progress, again, returned, next_leader, get_change_leader, change, lose,
  set_connected,
}

-- The client that the request began with has the same servers and numbers.
abbrev pub IsKept : Client → Client → Type 0
IsKept first c =
    (c.servers ≡ first.servers)
    × (c.client_id ≡ first.client_id)
    × (c.request_id ≡ first.request_id)

-- The leader is one of the servers, and every server has a flag.
abbrev pub IsFit : Client → Type 0
IsFit c = (c.leader_id < length c.servers) × (length c.connected ≡ length c.servers)

-- The same between two rounds, where the current index is a server's too.
abbrev pub IsWell : Client → Client → ℕ → Type 0
IsWell first c cur =
    (c.leader_id < length c.servers)
    × (cur < length c.servers)
    × (length c.connected ≡ length c.servers)
    × IsKept first c

-- A round that comes more than 10000000 microseconds after the start, as GetDuration computes it.
abbrev pub is_late : Timeval → Round → Bool
is_late start round = ltb_ℤ (pos 10000000) (get_duration round.now start)

-- The round received bytes, perhaps none, that parse as this message and as no wrong leader.
abbrev pub Accepts : (Bytes → Reply) → Round → Bytes → Type 0
Accepts parse round recv_str =
    (bytes : Bytes) × (round.received ≡ some bytes)
    × ((parse bytes).is_wrong_leader ≡ false)
    × ((parse bytes).response_msg ≡ recv_str)

-- What a list of rounds comes to.
pub data Outcome (parse : Bytes → Reply) (start : Timeval) (first : Client) (rounds : List Round)
    : Progress → Type 0 where
  waits :
      (c : Client) (cur : ℕ) (s : Bytes)
      → IsWell first c cur
      → All (λ round. is_late start round ≡ false) rounds
      → Outcome parse start first rounds (again c cur s)
  answered :
      (c : Client) (s : Bytes) (i : ℕ) (round : Round)
      → get_elem? rounds i ≡ some round
      → Accepts parse round s
      → IsFit c × IsKept first c
      → Outcome parse start first rounds (returned c true s)
  timed_out :
      (c : Client) (s : Bytes) (i : ℕ) (round : Round)
      → get_elem? rounds i ≡ some round
      → is_late start round ≡ true
      → IsFit c × IsKept first c
      → Outcome parse start first rounds (returned c false s)

next_leader-lt : (n id : ℕ) → id < n → (k : ℕ) × (next_leader n id ≡ some k) × (k < n)
unfolding next_leader
next_leader-lt zero id h = elim h [ ]
next_leader-lt (suc n) id h = ((id + 1) % suc n, refl, mod-lt (id + 1) (zero-lt-suc n))

pub change-again :
    (first c : Client) (s : Bytes)
    → c.leader_id < length c.servers
    → length c.connected ≡ length c.servers
    → IsKept first c
    → (c' : Client) × (k : ℕ) × (change c s ≡ some (again c' k s)) × IsWell first c' k
unfolding change get_change_leader
change-again first c s small same kept =
    let (k, e, lt) = next_leader-lt (length c.servers) c.leader_id small in
    (record c { leader_id = k }, k, rw e refl, (lt, lt, same, kept))

pub lose-again :
    (first c : Client) (cur : ℕ) (s : Bytes)
    → IsWell first c cur
    → (c' : Client) × (k : ℕ) × (lose c cur s ≡ some (again c' k s)) × IsWell first c' k
unfolding lose set_connected
lose-again first c cur s (small, _, same, kept) =
    change-again first (set_connected c cur false) s small (length-set c.connected cur false ∙ same)
      kept
