-- ===== src/Tests/Clusters.antt =====
-- A cluster of three from its start: an election, a command, and an append that arrives.
mod Matching
use shard_kv_raft.Base.{
  ℕ, zero, suc, ◌<◌, ◌≡◌, ◌≢◌, refl, sym, ap, ◌∙◌, ◌⊎◌, inl, inr, true, [], ◌∷◌, some, ℤ, pos, ◌+ℤ◌,
  ◌-ℤ◌, ◌≤ℤ◌, ◌<ℤ◌, arith, ltb,
}
use mathlib.Core.Path.{subst}
use shard_kv_raft.Text.{codes, to_string, atoi, break_at}
use shard_kv_raft.Raft.State.{
  LogEntry, Operation, Raft, RaftState, Timeval, RequestVote, candidate, leader, follower,
  AppendEntriesRequest, AppendEntriesResponse,
}
use shard_kv_raft.Raft.Log.{
  last_term, last_index, check_log_uptodate, log_at, compress_log_idx, push_back_log,
}
use shard_kv_raft.Raft.Wire.{get_cmd, format_entries, get_cmd_and_term}
use shard_kv_raft.Raft.Persist.{save_raft_state, serialize, push_back_logs}
use shard_kv_raft.Raft.Vote.{reply_vote, on_vote_response}
use shard_kv_raft.Raft.Append.{follow, check_prev, replace_logs, pop_backs, reply_append}
use shard_kv_raft.Raft.Election.{
  election_round, get_duration, after_vote, become_leader, set_bell_time,
}
use shard_kv_raft.Raft.Replicate.{start, append_request}
use shard_kv_raft.Raft.Step.{votes, counts, times_out, elects}
use shard_kv_raft.Raft.Step.Majority.{count}
use shard_kv_raft.Raft.Step.Leaders.{Grants, Wins, Elected}
use shard_kv_raft.Raft.Cluster.{append, Cluster, replace, Move, acts, takes, sends, receives, Trace}
use shard_kv_raft.Raft.Cluster.Invariant.{IsFresh, replace-all}
use shard_kv_raft.Raft.Cluster.Winners.{runs, ByMajority}
use shard_kv_raft.Raft.Cluster.Matching.{logs_match}
use shard_kv_raft.Tests.Nodes.{follower_node, text_codec}

abbrev one_second : Timeval
one_second = record { tv_sec = pos 1; tv_usec = pos 0 }

abbrev node_at_start : ℕ → Raft
node_at_start i = follower_node i 0 []

abbrev vote_request : RequestVote
vote_request = record {
  term = pos 1;
  candidate_id = pos 0;
  last_log_index = pos 0;
  last_log_term = pos 0;
}

abbrev operation : Operation
operation = record {
  op = codes "set";
  key = codes "a";
  value = codes "1";
  client_id = pos 7;
  request_id = pos 0;
  op_term = pos 0;
  op_index = pos 0;
}

standing : Raft
unfolding election_round get_duration save_raft_state serialize ◌+ℤ◌ ◌-ℤ◌
standing = (election_round one_second (pos 500000) (node_at_start 0)).0

voted : Raft
unfolding reply_vote check_log_uptodate last_term last_index ◌+ℤ◌ save_raft_state serialize
voted = (reply_vote one_second (node_at_start 1) vote_request).0

counted : Raft
unfolding standing on_vote_response ◌+ℤ◌
counted = on_vote_response one_second standing (record { term = pos 0; is_accepted = true })

leading : Raft
unfolding counted set_bell_time ◌-ℤ◌ ◌+ℤ◌
leading = set_bell_time one_second (record counted {
  state = leader;
  cur_term = pos 1;
  next_index = pos 1 ∷ pos 1 ∷ pos 1 ∷ [];
  match_index = pos 0 ∷ pos 0 ∷ pos 0 ∷ [];
})

with_command : Raft
unfolding leading start push_back_log
with_command = (start leading operation).0

wins_vote : after_vote one_second counted ≡ some leading
unfolding after_vote become_leader last_index leading
wins_vote = refl

taken_request : (p : AppendEntriesRequest × ℕ) × (append_request with_command (pos 1) ≡ some p)
unfolding append_request compress_log_idx ◌+ℤ◌ ◌-ℤ◌ with_command
taken_request = (_, refl)

received :
    (p : Raft × AppendEntriesResponse) × (reply_append one_second voted taken_request.0.0 ≡ some p)
unfolding taken_request reply_append get_cmd_and_term format_entries get_cmd to_string atoi break_at
    check_prev follow replace_logs pop_backs push_back_logs last_index push_back_log log_at
    save_raft_state serialize voted with_command ◌+ℤ◌ ◌-ℤ◌
received = (_, refl)

appended : Raft
unfolding received
appended = received.0.0

abbrev fresh_cluster : Cluster
fresh_cluster = record { node = node_at_start; network = [] }

abbrev after_step : Cluster → ℕ → Raft → Cluster
after_step c i r = record c { node = replace c.node i r }

abbrev asked : Cluster
asked = after_step (after_step fresh_cluster 0 standing) 1 voted

abbrev led : Cluster
led = after_step (after_step asked 0 counted) 0 leading

abbrev told : Cluster
told = record (after_step led 0 with_command) { network = append 1 taken_request.0.0 ∷ [] }

moments : ℕ → Cluster
moments zero = fresh_cluster
moments (suc zero) = after_step fresh_cluster 0 standing
moments (suc (suc zero)) = asked
moments (suc (suc (suc zero))) = after_step asked 0 counted
moments (suc (suc (suc (suc zero)))) = led
moments (suc (suc (suc (suc (suc zero))))) = after_step led 0 with_command
moments (suc (suc (suc (suc (suc (suc zero)))))) = told
moments (suc (suc (suc (suc (suc (suc (suc k))))))) = after_step told 1 appended

timed_out : standing ≡ (election_round one_second (pos 500000) (node_at_start 0)).0
unfolding standing
timed_out = refl

moves_on : (k : ℕ) → Move text_codec (moments k) (moments (suc k)) ⊎ (moments (suc k) ≡ moments k)
unfolding moments standing voted counted with_command appended
moves_on zero = inl (acts 0 standing (times_out one_second (pos 500000) refl) tt refl)
moves_on (suc zero) = inl (acts 1 voted (votes one_second vote_request refl) tt refl)
moves_on (suc (suc zero)) =
    inl (
      acts 0 counted (counts one_second (record { term = pos 0; is_accepted = true }) refl) tt refl)
moves_on (suc (suc (suc zero))) = inl (acts 0 leading (elects one_second wins_vote) tt refl)
moves_on (suc (suc (suc (suc zero)))) = inl (
    takes 0 operation (unfold get_cmd to_string in omega arith)
      (unfold get_cmd to_string in omega arith) refl)
moves_on (suc (suc (suc (suc (suc zero))))) =
    inl (sends 0 1 taken_request.0.0 taken_request.0.1 taken_request.1 refl)
moves_on (suc (suc (suc (suc (suc (suc zero)))))) =
    inl (receives 0 1 taken_request.0.0 one_second appended received.0.1 refl received.1 refl)
moves_on (suc (suc (suc (suc (suc (suc (suc k))))))) = inr refl

abbrev trace : Trace text_codec
trace = record { moment = moments; moves = moves_on }

fresh : IsFresh (moments 0)
unfolding moments
fresh = record {
  empty = λ i. refl;
  base = λ i. refl;
  follows = λ i. refl;
  number = λ i. refl;
  no_mail = refl;
}

-- The states that the nodes go through.
standing_state : standing.state ≡ candidate
unfolding standing
standing_state = refl

voted_state : voted.state ≡ follower
unfolding voted
voted_state = refl

counted_facts : (counted.state ≡ candidate) × (counted.cur_term ≡ pos 0) × (counted.peer_id ≡ pos 0)
unfolding counted
counted_facts = (refl, refl, refl)

leading_state : leading.state ≡ leader
unfolding leading
leading_state = refl

with_command_state : with_command.state ≡ leader
unfolding with_command
with_command_state = refl

appended_state : appended.state ≡ follower
unfolding appended
appended_state = refl
