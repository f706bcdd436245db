-- ===== src/Tests/Outside.antt =====
-- The client and the thread pool at concrete inputs.
use shard_kv_raft.Base.{ℕ, ◌≡◌, refl, true, false, List, [], ◌∷◌, ◌++◌, none, some, pos, arith}
use shard_kv_raft.Text.{Bytes, codes}
use shard_kv_raft.Client.{Client, Reply, Round, Progress, send_request}
use shard_kv_raft.Client.Rounds.{Outcome}
use shard_kv_raft.Client.Attempts.{Attempts}
use shard_kv_raft.Client.Sending.{send_request-Outcome}
use shard_kv_raft.Pool.{Pool, exits, take_turn, add_task, stop}
use shard_kv_raft.Pool.Order.{Runs, begin, adds, takes_task, stops, exits_after_all}
use shard_kv_raft.Tests.Nodes.{midnight}

abbrev client : Client
client = record {
  servers = (codes "192.168.203.128", pos 1025) ∷ (codes "192.168.203.128", pos 1027) ∷ [];
  connected = true ∷ true ∷ [];
  client_id = pos 7;
  request_id = pos 0;
  leader_id = 1;
}

-- A reply whose first byte says that the leader is wrong.
abbrev parse : Bytes → Reply
parse [] = record { is_wrong_leader = false; response_msg = [] }
parse (b ∷ bytes) = record { is_wrong_leader = true; response_msg = bytes }

-- First the wrong leader, then a server that does not answer, then a connection that is closed.
abbrev rounds : List Round
rounds =
    record { now = midnight; reconnects = true; sends = true; received = some (1 ∷ []) }
    ∷ record { now = midnight; reconnects = true; sends = true; received = none }
    ∷ record { now = midnight; reconnects = true; sends = true; received = some [] }
    ∷ []

send_request-Outcome_example :
    (p : Progress) × (send_request parse midnight client rounds ≡ some p)
    × Attempts parse midnight client client.leader_id [] rounds p
    × Outcome parse midnight client rounds p
send_request-Outcome_example = send_request-Outcome parse midnight client rounds (omega arith) refl

-- Two tasks, of which one is taken when the pool is stopped, and the other then.
abbrev pool : Pool ℕ
pool = record { task_queue = []; stopping = false }

abbrev drained : Pool ℕ
drained = record { task_queue = []; stopping = true }

abbrev added : List ℕ
added = 5 ∷ 6 ∷ []

two_tasks : Runs pool added added drained
unfolding add_task take_turn stop
two_tasks = takes_task (stops (takes_task (adds 6 (adds 5 begin)) refl)) refl

leaves : take_turn drained ≡ exits
unfolding take_turn
leaves = refl

exits_after_all_example : (drained.stopping ≡ true) × (added ≡ pool.task_queue ++ added)
exits_after_all_example = exits_after_all two_tasks leaves
