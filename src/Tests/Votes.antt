-- ===== src/Tests/Votes.antt =====
-- Votes at concrete nodes.
use shard_kv_raft.Base.{ℕ, ◌≡◌, ◌↔◌, refl, inl, inr, true, pos, ◌+ℤ◌, ◌≤ℤ◌, ◌<ℤ◌, [], arith}
use shard_kv_raft.Raft.State.{Raft, RequestVote}
use shard_kv_raft.Raft.Log.{last_term, last_index, check_log_uptodate}
use shard_kv_raft.Raft.Persist.{save_raft_state, serialize}
use shard_kv_raft.Raft.Vote.{reply_vote}
use shard_kv_raft.Raft.Vote.Grants.{
  MayVote, UpToDate, IsSaved, reply_vote_grants, compacted_voter_grants, reply_vote_saves,
}
use shard_kv_raft.Raft.Vote.Race.{both, two_votes}
use shard_kv_raft.Raft.Step.{here}
use shard_kv_raft.Raft.Step.Ballot.{one_vote}
use shard_kv_raft.Tests.Nodes.{midnight, follower_node, two_entries, text_codec}

-- the voter: node 0 in term 1
abbrev voter : Raft
voter = follower_node 0 1 two_entries

-- A request of the candidate for term 2.
abbrev request : ℕ → RequestVote
request candidate = record {
  term = pos 2;
  candidate_id = pos candidate;
  last_log_index = pos 2;
  last_log_term = pos 1;
}

voter_last : UpToDate voter (request 1)
unfolding ◌+ℤ◌
voter_last = inr (inr (unfold last_term in refl, unfold last_index in omega arith))

accepted : (reply_vote midnight voter (request 1)).1.is_accepted ≡ true
accepted =
    (reply_vote_grants midnight voter (request 1)).1 (omega arith, inl (omega arith), voter_last)

reply_vote_grants_example :
    ((reply_vote midnight voter (request 1)).1.is_accepted ≡ true)
    ↔ ((voter.cur_term ≤ℤ pos 2) × MayVote voter (request 1) × UpToDate voter (request 1))
reply_vote_grants_example = reply_vote_grants midnight voter (request 1)

-- The voter with its log in a snapshot, and a candidate with one old entry.
abbrev compacted_voter : Raft
compacted_voter = record (follower_node 0 3 []) {
  last_included_index = pos 2;
  last_include_term = pos 3;
}

abbrev old_request : RequestVote
old_request = record {
  term = pos 4;
  candidate_id = pos 1;
  last_log_index = pos 1;
  last_log_term = pos 1;
}

compacted_voter_grants_example :
    ((reply_vote midnight compacted_voter old_request).1.is_accepted ≡ true)
    × (pos 1 <ℤ last_term compacted_voter)
    × (pos 1 <ℤ last_index compacted_voter)
compacted_voter_grants_example =
    compacted_voter_grants midnight compacted_voter old_request refl (omega arith) (omega arith)
      (omega arith)

reply_vote_saves_example :
    let r' = (reply_vote midnight voter (request 1)).0 in
    (r'.cur_term ≡ pos 2)
    × (r'.vote_for ≡ pos 1)
    × (r'.last_wake_time ≡ midnight)
    × (r'.logs ≡ two_entries)
    × IsSaved r'
reply_vote_saves_example = reply_vote_saves midnight voter (request 1) accepted

two_votes_example :
    ((both midnight voter (request 1) (request 2)).0.is_accepted ≡ true)
    × ((both midnight voter (request 1) (request 2)).1.is_accepted ≡ true)
two_votes_example =
    two_votes midnight voter (request 1) (request 2) (omega arith) refl voter_last voter_last

accepted_again :
    (reply_vote midnight (reply_vote midnight voter (request 1)).0 (request 1)).1.is_accepted ≡ true
unfolding reply_vote check_log_uptodate last_term last_index ◌+ℤ◌ save_raft_state serialize
accepted_again = refl

-- The same candidate asks again.
one_vote_example : (request 1).candidate_id ≡ (request 1).candidate_id
one_vote_example =
    one_vote text_codec midnight midnight voter (reply_vote midnight voter (request 1)).0
      (request 1) (request 1) (λ e. cc) (λ e. cc) (λ e. cc) accepted here accepted_again refl
