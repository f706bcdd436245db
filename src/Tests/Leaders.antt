-- ===== src/Tests/Leaders.antt =====
-- A leader that takes a command, and a late append at a node that has yet to apply what it has
-- committed.
use shard_kv_raft.Base.{◌≡◌, refl, inr, none, some, [], pos, ◌+ℤ◌, ◌-ℤ◌, arith}
use shard_kv_raft.Text.{codes, atoi, break_at}
use shard_kv_raft.Raft.State.{Operation, Raft, leader, AppendEntriesRequest, at}
use shard_kv_raft.Raft.Log.{last_index, log_at, compress_log_idx}
use shard_kv_raft.Raft.Wire.{get_cmd_and_term}
use shard_kv_raft.Raft.Append.{reply_append}
use shard_kv_raft.Raft.Append.Outcome.{HasPrev}
use shard_kv_raft.Raft.Append.Taking.{taken}
use shard_kv_raft.Raft.Apply.{apply_round}
use shard_kv_raft.Raft.Apply.Beyond.{late_append_breaks}
use shard_kv_raft.Raft.Replicate.{start}
use shard_kv_raft.Raft.Step.{submits, here, next}
use shard_kv_raft.Raft.Cluster.Keeping.{Grows}
use shard_kv_raft.Raft.Cluster.OnlyAppends.{leader_only_appends}
use shard_kv_raft.Tests.Nodes.{midnight, entry, two_entries, follower_node, leader_node, text_codec}

abbrev operation : Operation
operation = record {
  op = codes "set";
  key = codes "c";
  value = codes "3";
  client_id = pos 7;
  request_id = pos 2;
  op_term = pos 0;
  op_index = pos 0;
}

still_leads : (start leader_node operation).0.state ≡ leader
unfolding start
still_leads = refl

same_term : (start leader_node operation).0.cur_term ≡ leader_node.cur_term
unfolding start
same_term = refl

leader_only_appends_example :
    (leader_node.state ≡ leader) × Grows leader_node (start leader_node operation).0
leader_only_appends_example =
    leader_only_appends text_codec (next here (submits operation refl)) still_leads same_term

-- Two entries are committed and not applied; an append that was sent before the second comes in.
abbrev committed_node : Raft
committed_node = record (follower_node 1 1 two_entries) { commit_index = pos 2 }

abbrev early_request : AppendEntriesRequest
early_request = record {
  term = pos 1;
  leader_id = pos 0;
  prev_log_index = pos 1;
  prev_log_term = pos 1;
  leader_commit = pos 1;
  send_logs = [];
}

nothing_sent : get_cmd_and_term early_request.send_logs ≡ some []
unfolding get_cmd_and_term atoi break_at
nothing_sent = refl

has_first : HasPrev committed_node early_request
unfolding log_at compress_log_idx at last_index ◌+ℤ◌ ◌-ℤ◌
has_first = inr (omega arith, omega arith, (entry "set a 1 7 0" 1, refl, refl))

late_append_breaks_example :
    (g : Raft) × (reply_append midnight committed_node early_request
      ≡ some (g, taken committed_node))
    × (last_index g ≡ pos 1 +ℤ pos 0)
    × (g.commit_index ≡ pos 2)
    × (apply_round g ≡ none)
unfolding ◌+ℤ◌
late_append_breaks_example =
    late_append_breaks midnight committed_node early_request [] nothing_sent (omega arith) has_first
      (omega arith) (omega arith) (omega arith)
