-- ===== src/Raft/Append.antt =====
-- The follower's side of replication in src/RaftServer.cpp: ReplyAppend.
pub mod Total
pub mod Entries
pub mod Outcome
pub mod Conflict
pub mod Taking
pub mod Late
use shard_kv_raft.Base.{
  ℕ, zero, suc, Bool, true, false, List, [], ◌∷◌, ◌++◌, Option, none, some, ◌>>=◌, ℤ, pos,
  minus_one, ◌+ℤ◌, ◌-ℤ◌, ◌==ℤ◌, ltb_ℤ, min, pos_part, if◌then◌else◌,
}
use shard_kv_raft.Raft.State.{
  LogEntry, Raft, follower, Timeval, AppendEntriesRequest, AppendEntriesResponse,
}
use shard_kv_raft.Raft.Log.{last_index, log_at}
use shard_kv_raft.Raft.Wire.{get_cmd_and_term}
use shard_kv_raft.Raft.Persist.{save_raft_state, push_back_logs}

-- The response as it is set up first.
unfoldable pub refusal : Raft → AppendEntriesResponse
refusal r = record {
  term = r.cur_term;
  success = false;
  conflict_term = minus_one;
  conflict_index = minus_one;
}

-- The sender's term is taken over. A newer one clears the vote, which is saved with the old term.
unfoldable pub follow : Timeval → Raft → ℤ → Raft
follow now r term =
    let r' =
      if ltb_ℤ r.cur_term term then save_raft_state (record r { vote_for = minus_one }) else r in
    record r' { cur_term = term; state = follower; last_wake_time = now }

-- The loop for the first entry of a term: `rounds` entries from `index` on.
unfoldable pub first_of_term : ℕ → Raft → ℤ → ℤ → Option ℤ
first_of_term zero r index term = some minus_one
first_of_term (suc rounds) r index term = do
  e ← log_at r index
  let more = first_of_term rounds r (index +ℤ pos 1) term
  if e.term ==ℤ term then some index else more

-- `pop_back`, undefined on an empty vector
unfoldable pub pop_back : List LogEntry → Option (List LogEntry)
pop_back [] = none
pop_back (e ∷ []) = some []
pop_back (e ∷ d ∷ es) = do rest ← pop_back (d ∷ es); some (e ∷ rest)

unfoldable pub pop_backs : ℕ → List LogEntry → Option (List LogEntry)
pop_backs zero logs = some logs
pop_backs (suc rounds) logs = do logs' ← pop_back logs; pop_backs rounds logs'

unfoldable pub advance_commit : Raft → ℤ → Raft
advance_commit r leader_commit =
    if ltb_ℤ r.commit_index leader_commit
    then record r { commit_index = min leader_commit (last_index r) }
    else r

-- The entries behind `prev_log_index` are dropped, and the received ones put in their place.
unfoldable pub replace_logs :
    Raft
    → AppendEntriesRequest
    → List LogEntry
    → AppendEntriesResponse
    → Option (Raft × AppendEntriesResponse)
unfolding advance_commit
replace_logs r request recv_logs response = do
  logs ← pop_backs (pos_part (last_index r -ℤ request.prev_log_index)) r.logs
  let r' = save_raft_state (push_back_logs recv_logs (record r { logs = logs }))
  some (advance_commit r' request.leader_commit, record response { success = true })

-- The previous entry is in the log: its term decides.
unfoldable pub match_prev :
    Raft
    → AppendEntriesRequest
    → List LogEntry
    → AppendEntriesResponse
    → Option (Raft × AppendEntriesResponse)
match_prev r request recv_logs response = do
  e ← log_at r request.prev_log_index
  if e.term ==ℤ request.prev_log_term then replace_logs r request recv_logs response else do
    index ←
        first_of_term (pos_part (request.prev_log_index -ℤ r.last_included_index)) r
          (r.last_included_index +ℤ pos 1) e.term
    some (r, record response { conflict_term = e.term; conflict_index = index })

unfoldable pub check_prev :
    Raft
    → AppendEntriesRequest
    → List LogEntry
    → AppendEntriesResponse
    → Option (Raft × AppendEntriesResponse)
check_prev r request recv_logs response =
    if ltb_ℤ request.prev_log_index r.last_included_index
    then some (r, record response { conflict_index = pos 1 })
    else if request.prev_log_index ==ℤ r.last_included_index
    then (if request.prev_log_term ==ℤ r.last_include_term
        then replace_logs r request recv_logs response
        else some (r, record response { conflict_index = pos 1 }))
    else if ltb_ℤ (last_index r) request.prev_log_index
    then some (r, record response { conflict_index = last_index r +ℤ pos 1 })
    else match_prev r request recv_logs response

unfoldable pub reply_append :
    Timeval → Raft → AppendEntriesRequest → Option (Raft × AppendEntriesResponse)
reply_append now r request = do
  recv_logs ← get_cmd_and_term request.send_logs
  if ltb_ℤ request.term r.cur_term
      then some (r, refusal r)
      else check_prev (follow now r request.term) request recv_logs (refusal r)
