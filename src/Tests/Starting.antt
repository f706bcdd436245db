-- ===== src/Tests/Starting.antt =====
-- A node that starts without files, and its first steps.
use shard_kv_raft.Base.{◌≡◌, refl, List, [], ◌∷◌, some, pos, minus_one, length, All, arith}
use shard_kv_raft.Raft.State.{PeersInfo, Raft}
use shard_kv_raft.Raft.Persist.{read_raft_state, deserialize}
use shard_kv_raft.Raft.Election.{after_vote, election_round}
use shard_kv_raft.Raft.Heartbeat.{Task, heartbeat}
use shard_kv_raft.Raft.Heartbeat.Bell.{IsNumbered}
use shard_kv_raft.Raft.Snapshot.{init, install_snapshot, read_snapshot}
use shard_kv_raft.Raft.Step.{Steps, here, next, times_out}
use shard_kv_raft.Raft.Step.Sizes.{IsSized}
use shard_kv_raft.Raft.Step.Starting.{init-Steps_total}
use shard_kv_raft.Tests.Nodes.{midnight, peer, follower_node, text_codec}

abbrev three_peers : List PeersInfo
three_peers = peer 0 ∷ peer 1 ∷ peer 2 ∷ []

abbrev made : Raft
made = record (follower_node 0 0 []) { peers = []; next_index = []; match_index = [] }

abbrev started : Raft
started = record (follower_node 1 0 []) { peers = three_peers }

starts : init text_codec midnight three_peers (pos 1) made ≡ some started
unfolding init read_raft_state deserialize install_snapshot read_snapshot
starts = refl

numbered : All (IsNumbered (length three_peers)) three_peers
numbered = ((0, refl, omega arith), ((1, refl, omega arith), ((2, refl, omega arith), tt)))

-- A timeout that is over at once.
timed_out : Raft
timed_out = (election_round midnight minus_one started).0

one_step : Steps text_codec started timed_out
unfolding timed_out
one_step = next here (times_out midnight minus_one refl)

init-Steps_total_example :
    IsSized timed_out
    × ((out : Raft × List Task) × (heartbeat midnight timed_out ≡ some out))
    × ((t : Raft) × (after_vote midnight timed_out ≡ some t))
init-Steps_total_example =
    init-Steps_total text_codec midnight midnight three_peers (pos 1) made started timed_out
      numbered starts one_step
