-- ===== src/Tests/Appends.antt =====
-- Appends at concrete nodes.
use shard_kv_raft.Base.{◌≡◌, refl, ◌⊎◌, true, [], ◌∷◌, some, pos, ◌≤ℤ◌, ◌<ℤ◌, ◌+ℤ◌, ◌-ℤ◌, arith}
use shard_kv_raft.Text.{codes, break_at, atoi}
use shard_kv_raft.Raft.State.{Raft, AppendEntriesRequest, at}
use shard_kv_raft.Raft.Log.{last_index, log_at}
use shard_kv_raft.Raft.Wire.{get_cmd_and_term}
use shard_kv_raft.Raft.Persist.{save_raft_state, serialize, push_back_logs}
use shard_kv_raft.Raft.Append.{
  refusal, follow, pop_backs, replace_logs, match_prev, check_prev, reply_append,
}
use shard_kv_raft.Raft.Append.{pop_back}
use shard_kv_raft.Raft.Append.Total.{replaced}
use shard_kv_raft.Raft.Append.Outcome.{Answers, HasPrev, reply_append-Answers}
use shard_kv_raft.Raft.Append.Entries.{Spliced, reply_append-Spliced}
use shard_kv_raft.Raft.Replicate.{advance}
use shard_kv_raft.Raft.Replicate.Quorum.{Commits, advance-Commits}
use shard_kv_raft.Raft.Replicate.Exchange.{Behind, exchanges}
use shard_kv_raft.Raft.Replicate.Stall.{exchanges_stall}
use shard_kv_raft.Tests.Nodes.{midnight, follower_node, leader_node, entry}

-- The follower has the first entry, and one of a leader that is gone.
abbrev node : Raft
node = follower_node 1 1 (entry "set a 1 7 0" 1 ∷ entry "set c 3 8 0" 1 ∷ [])

abbrev request : AppendEntriesRequest
request = record {
  term = pos 2;
  leader_id = pos 0;
  prev_log_index = pos 1;
  prev_log_term = pos 1;
  leader_commit = pos 1;
  send_logs = codes "set b 2 7 1,1;";
}

parsed : get_cmd_and_term request.send_logs ≡ some (entry "set b 2 7 1" 1 ∷ [])
unfolding get_cmd_and_term atoi break_at
parsed = refl

reply_append-Answers_example :
    ((request.term <ℤ node.cur_term)
      × (reply_append midnight node request ≡ some (node, refusal node)))
    ⊎ ((node.cur_term ≤ℤ request.term)
        × Answers
            (follow midnight node request.term)
            request
            (entry "set b 2 7 1" 1 ∷ [])
            (refusal node)
            (reply_append midnight node request))
reply_append-Answers_example =
    reply_append-Answers midnight node request (entry "set b 2 7 1" 1 ∷ []) parsed

abbrev follower' : Raft
follower' = replaced (follow midnight node (pos 2)) request (entry "set b 2 7 1" 1 ∷ [])

run :
    reply_append midnight node request ≡ some (follower', record (refusal node) { success = true })
unfolding reply_append get_cmd_and_term atoi break_at follow check_prev match_prev log_at last_index
    replace_logs push_back_logs pop_backs pop_back save_raft_state serialize refusal ◌+ℤ◌ ◌-ℤ◌
run = refl

reply_append-Spliced_example :
    (node.cur_term ≤ℤ pos 2)
    × HasPrev node request
    × Spliced node follower' (pos 1) (entry "set b 2 7 1" 1 ∷ [])
reply_append-Spliced_example =
    reply_append-Spliced midnight node request (entry "set b 2 7 1" 1 ∷ []) follower'
      (record (refusal node) { success = true }) parsed run refl

abbrev committing : Raft
committing = record leader_node {
  logs = entry "set a 1 7 0" 1 ∷ entry "set b 2 7 1" 2 ∷ [];
  match_index = pos 2 ∷ pos 0 ∷ pos 2 ∷ [];
}

advance-Commits_example :
    (record committing { commit_index = pos 2 } ≡ committing)
    ⊎ ((record committing { commit_index = pos 2 } ≡ record committing { commit_index = pos 2 })
        × Commits committing (record committing { commit_index = pos 2 }))
unfolding advance log_at ◌-ℤ◌
advance-Commits_example =
    advance-Commits committing (record committing { commit_index = pos 2 }) refl

-- A follower with an empty log, and a leader that was elected with two entries.
abbrev empty_node : Raft
empty_node = follower_node 1 1 []

lagging : Behind (pos 1) leader_node empty_node
unfolding at last_index ◌+ℤ◌
lagging = record {
  next = pos 3;
  has_next = refl;
  beyond = omega arith;
  in_log = omega arith;
  kept = omega arith;
  term = omega arith;
  clean = omega arith;
}

exchanges_stall_example :
    (l : Raft) × (f : Raft) × (exchanges
        (midnight ∷ midnight ∷ midnight ∷ [])
        (pos 1)
        (leader_node, empty_node)
      ≡ some (l, f))
    × Behind (pos 1) l f
    × (f.logs ≡ [])
    × (f.commit_index ≡ pos 0)
exchanges_stall_example =
    exchanges_stall (midnight ∷ midnight ∷ midnight ∷ []) (pos 1) leader_node empty_node lagging
