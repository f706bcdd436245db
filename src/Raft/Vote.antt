-- ===== src/Raft/Vote.antt =====
-- Voting in src/RaftServer.cpp: ReplyVote, which lets go of the mutex while it checks the log, and
-- both halves of CallRequestVote. The RPC between the halves is the network's.
pub mod Grants
pub mod Race
use shard_kv_raft.Base.{
  ℕ, Bool, true, false, ◌&&◌, ◌||◌, ℤ, pos, minus_one, ◌+ℤ◌, ◌==ℤ◌, ltb_ℤ, if◌then◌else◌,
}
use shard_kv_raft.Raft.State.{Raft, RaftState, follower, Timeval, RequestVote, ResponseVote}
use shard_kv_raft.Raft.Log.{check_log_uptodate, last_index, last_term}
use shard_kv_raft.Raft.Persist.{save_raft_state}

-- ReplyVote has returned, or it is between `lock.unlock()` and `lock.lock()`.
pub data VoteStep : Type 0 where
  replied : ResponseVote → VoteStep
  checking : ResponseVote → VoteStep

-- A newer term makes a follower that has not voted.
unfoldable pub adopt_term : Raft → ℤ → Raft
adopt_term r term =
    if ltb_ℤ r.cur_term term
    then record r { state = follower; cur_term = term; vote_for = minus_one }
    else r

unfoldable pub may_vote : Raft → ℤ → Bool
may_vote r candidate = (r.vote_for ==ℤ minus_one) || (r.vote_for ==ℤ candidate)

-- Up to `lock.unlock()`, or to the return.
unfoldable pub begin_vote : Raft → RequestVote → Raft × VoteStep
begin_vote r request =
    let response : ResponseVote = record { term = r.cur_term; is_accepted = false } in
    let r' = adopt_term r request.term in
    if ltb_ℤ request.term r.cur_term
    then (r, replied response)
    else if may_vote r' request.candidate_id
    then (r', checking response)
    else (save_raft_state r', replied response)

-- The call of CheckLogUptodate, which takes the mutex for itself.
unfoldable pub check_vote : Raft → RequestVote → Bool
check_vote r request = check_log_uptodate r request.last_log_term request.last_log_index

-- From `lock.lock()` on.
unfoldable pub grant_vote : Timeval → Raft → RequestVote → ResponseVote → Raft × ResponseVote
grant_vote now r request response = (
  save_raft_state (record r { vote_for = request.candidate_id; last_wake_time = now }),
  record response { is_accepted = true },
)

unfoldable pub finish_vote : Timeval → RequestVote → Raft × VoteStep → Raft × ResponseVote
finish_vote now request (r, replied response) = (r, response)
finish_vote now request (r, checking response) =
    if check_vote r request then grant_vote now r request response else (r, response)

-- ReplyVote with no other thread in between.
unfoldable pub reply_vote : Timeval → Raft → RequestVote → Raft × ResponseVote
unfolding finish_vote begin_vote check_vote grant_vote adopt_term may_vote
reply_vote now r request = finish_vote now request (begin_vote r request)

-- CallRequestVote up to the RPC.
unfoldable pub vote_request : Raft → RequestVote
vote_request r = record {
  term = r.cur_term +ℤ pos 1;
  candidate_id = r.peer_id;
  last_log_index = last_index r;
  last_log_term = last_term r;
}

unfoldable pub step_down_vote : Timeval → Raft → ℤ → Raft
step_down_vote now r term =
    if ltb_ℤ (r.cur_term +ℤ pos 1) term
    then record r { state = follower; cur_term = term; last_wake_time = now; vote_for = minus_one }
    else r

-- CallRequestVote from the response on.
unfoldable pub on_vote_response : Timeval → Raft → ResponseVote → Raft
unfolding step_down_vote
on_vote_response now r response =
    let r' =
      step_down_vote now (record r { finished_vote = r.finished_vote +ℤ pos 1 }) response.term in
    if response.is_accepted then record r' { recv_votes = r'.recv_votes +ℤ pos 1 } else r'
