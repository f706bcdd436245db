-- ===== src/Tests/Elections.antt =====
-- An election in a cluster of three.
use shard_kv_raft.Base.{
  ℕ, zero, suc, ◌<◌, ◌≡◌, ◌≢◌, refl, inl, inr, true, [], ◌∷◌, some, pos, length, map, All, ◌+ℤ◌,
  ◌-ℤ◌, arith, ltb,
}
use shard_kv_raft.Raft.State.{Raft, Timeval, RequestVote, ResponseVote, candidate, leader}
use shard_kv_raft.Raft.Log.{last_term, last_index, check_log_uptodate}
use shard_kv_raft.Raft.Persist.{save_raft_state, serialize}
use shard_kv_raft.Raft.Vote.{reply_vote, on_vote_response}
use shard_kv_raft.Raft.Election.{
  election_round, get_duration, after_vote, become_leader, set_bell_time, micros, others,
}
use shard_kv_raft.Raft.Election.Recount.{count_again, repeated_answer_elects}
use shard_kv_raft.Raft.Step.{votes, counts, times_out, elects}
use shard_kv_raft.Raft.Step.Majority.{count}
use shard_kv_raft.Raft.Step.Leaders.{IsRun, Grants, Wins, Elected, one_leader}
use shard_kv_raft.Raft.Heartbeat.{send_append_entries, heartbeat}
use shard_kv_raft.Raft.Heartbeat.Bell.{elapsed, IsNumbered, heartbeat_at_once}
use shard_kv_raft.Tests.Nodes.{peer, follower_node, two_entries, text_codec}

abbrev one_second : Timeval
one_second = record { tv_sec = pos 1; tv_usec = pos 0 }

abbrev request : RequestVote
request = record {
  term = pos 2;
  candidate_id = pos 0;
  last_log_index = pos 2;
  last_log_term = pos 1;
}

abbrev start_node : ℕ → Raft
start_node i = follower_node i 1 two_entries

standing : Raft
unfolding election_round get_duration
standing = (election_round one_second (pos 500000) (start_node 0)).0

counted : Raft
unfolding standing on_vote_response
counted = on_vote_response one_second standing (record { term = pos 1; is_accepted = true })

elected : Raft
unfolding counted set_bell_time
elected = set_bell_time one_second (record counted {
  state = leader;
  cur_term = pos 2;
  next_index = pos 3 ∷ pos 3 ∷ pos 3 ∷ [];
  match_index = pos 0 ∷ pos 0 ∷ pos 0 ∷ [];
})

wins : after_vote one_second counted ≡ some elected
unfolding elected election_round get_duration save_raft_state serialize after_vote become_leader
    last_index ◌+ℤ◌ ◌-ℤ◌ set_bell_time on_vote_response standing counted
wins = refl

candidate_run : ℕ → Raft
unfolding elected
candidate_run zero = start_node 0
candidate_run (suc zero) = standing
candidate_run (suc (suc zero)) = counted
candidate_run (suc (suc (suc k))) = elected

voter_run : ℕ → Raft
voter_run zero = start_node 1
voter_run (suc k) = (reply_vote one_second (start_node 1) request).0

cluster : ℕ → ℕ → Raft
unfolding candidate_run voter_run
cluster zero = candidate_run
cluster (suc zero) = voter_run
cluster (suc (suc i)) = λ k. start_node (suc (suc i))

candidate_moves : IsRun text_codec candidate_run
unfolding candidate_run standing counted elected
candidate_moves zero = inl (times_out one_second (pos 500000) refl)
candidate_moves (suc zero) =
    inl (counts one_second (record { term = pos 1; is_accepted = true }) refl)
candidate_moves (suc (suc zero)) = inl (elects one_second wins)
candidate_moves (suc (suc (suc k))) = inr refl

voter_moves : IsRun text_codec voter_run
unfolding voter_run
voter_moves zero = inl (votes one_second request refl)
voter_moves (suc k) = inr refl

moves : (i : ℕ) → IsRun text_codec (cluster i)
unfolding cluster
moves zero = candidate_moves
moves (suc zero) = voter_moves
moves (suc (suc i)) = λ k. inr refl

ids : (i : ℕ) → (cluster i 0).peer_id ≡ pos i
unfolding cluster candidate_run voter_run
ids zero = refl
ids (suc zero) = refl
ids (suc (suc i)) = refl

no_candidate : (i : ℕ) → (cluster i 0).state ≢ candidate
unfolding cluster candidate_run voter_run
no_candidate zero = λ e. cc
no_candidate (suc zero) = λ e. cc
no_candidate (suc (suc i)) = λ e. cc

victory : Wins (pos 2) (pos 0) counted elected
unfolding elected counted standing election_round get_duration on_vote_response save_raft_state
    serialize set_bell_time ◌+ℤ◌ ◌-ℤ◌
victory = record {
  now = one_second;
  in_term = refl;
  itself = refl;
  stood = refl;
  after = wins;
  leads = refl;
}

given : Grants (pos 2) (pos 0) (voter_run 0) (voter_run 1)
unfolding voter_run reply_vote check_log_uptodate last_term last_index ◌+ℤ◌ save_raft_state
    serialize
given = record {
  now = one_second;
  request = request;
  in_term = refl;
  asks = refl;
  of_other = λ e. cc;
  accepted = refl;
  after = refl;
}

votes_of :
    (i : ℕ)
    → i < 3
    → ltb i 2 ≡ true
    → i ≢ 0
    → (k : ℕ) × Grants (pos 2) (pos 0) (cluster i k) (cluster i (suc k))
unfolding cluster
votes_of zero lo member other = absurd (other refl)
votes_of (suc zero) lo member other = (0, given)
votes_of (suc (suc i)) lo member other = absurd (ground arith)

abbrev winner : ℕ
winner = 0

election : Elected cluster 3 (pos 2) winner
unfolding cluster candidate_run count
election = record {
  voters = λ i. ltb i 2;
  most = omega arith;
  wins = (2, victory);
  granted = votes_of;
}

one_leader_example : winner ≡ winner
one_leader_example =
    one_leader text_codec cluster 3 moves ids no_candidate (pos 2) winner winner election election

became : become_leader one_second counted ≡ some elected
unfolding elected election_round get_duration save_raft_state serialize become_leader last_index
    ◌+ℤ◌ ◌-ℤ◌ set_bell_time on_vote_response standing counted
became = refl

same_moment : elapsed one_second one_second ≡ pos 0
unfolding micros ◌-ℤ◌ ◌+ℤ◌
same_moment = refl

numbered : All (IsNumbered (length counted.peers)) counted.peers
unfolding counted standing election_round get_duration on_vote_response save_raft_state serialize
    ◌+ℤ◌ ◌-ℤ◌
numbered = ((0, refl, omega arith), ((1, refl, omega arith), ((2, refl, omega arith), tt)))

heartbeat_at_once_example :
    heartbeat one_second elected
    ≡ some (
      record elected { last_broadcast_time = one_second },
      map send_append_entries (others counted.peer_id counted.peers),
    )
heartbeat_at_once_example =
    heartbeat_at_once one_second one_second counted elected 0 became same_moment (omega arith)
      numbered

-- A candidate in a cluster of five, which hears one voter's answer twice.
abbrev candidate_of_five : Raft
candidate_of_five = record (follower_node 0 1 two_entries) {
  peers = peer 0 ∷ peer 1 ∷ peer 2 ∷ peer 3 ∷ peer 4 ∷ [];
  next_index = pos 3 ∷ pos 3 ∷ pos 3 ∷ pos 3 ∷ pos 3 ∷ [];
  match_index = pos 0 ∷ pos 0 ∷ pos 0 ∷ pos 0 ∷ pos 0 ∷ [];
  state = candidate;
  vote_for = pos 0;
  recv_votes = pos 1;
  finished_vote = pos 1;
}

abbrev answer : ResponseVote
answer = record { term = pos 1; is_accepted = true }

repeated_answer_elects_example :
    (s : Raft) × (after_vote one_second (count_again 2 one_second answer candidate_of_five)
      ≡ some s)
    × (s.state ≡ leader)
    × (s.cur_term ≡ pos 1 +ℤ pos 1)
unfolding ◌+ℤ◌
repeated_answer_elects_example =
    repeated_answer_elects one_second candidate_of_five answer 2 refl refl (omega arith)
      (omega arith) (omega arith) (omega arith)
