-- ===== src/Raft/Replicate.antt =====
-- The leader's side of replication in src/RaftServer.cpp: Start, and both halves of
-- SendAppendEntries. The RPC and its retries between the halves are the network's; a call that
-- fails for good changes nothing that is modelled.
pub mod Quorum
pub mod Request
pub mod Exchange
pub mod Stall
pub mod Backing
pub mod Mismatch
pub mod Stuck
pub mod Facing
pub mod Settle
pub mod Vectors
pub mod Matched
pub mod Greatest
pub mod Sending
pub mod Agree
pub mod Catching
use shard_kv_raft.Base.{
  ℕ, zero, suc, Bool, true, false, List, [], ◌∷◌, Option, none, some, ◌>>=◌, ℤ, pos, negsuc,
  minus_one, ◌+ℤ◌, ◌-ℤ◌, ◌==ℤ◌, ltb_ℤ, leb_ℤ, pos_part, if◌then◌else◌, length, drop, get_elem?, ◌/◌,
}
use shard_kv_raft.Raft.State.{
  LogEntry, Operation, StartRet, Raft, RaftState, leader, candidate, follower, AppendEntriesRequest,
  AppendEntriesResponse, at, put,
}
use shard_kv_raft.Raft.Log.{compress_log_idx, last_index, log_at, push_back_log}
use shard_kv_raft.Raft.Wire.{get_cmd, format_entries}
use shard_kv_raft.Raft.Persist.{save_raft_state}

unfoldable pub is_leader : RaftState → Bool
is_leader leader = true
is_leader candidate = false
is_leader follower = false

-- Start: the index that it returns is that of the entry before the new one.
unfoldable pub start : Raft → Operation → Raft × StartRet
unfolding is_leader push_back_log
start r op =
    if is_leader r.state
    then (
      push_back_log (record { cmd = get_cmd op; term = r.cur_term }) r,
      record { cmd_index = last_index r; cur_term = r.cur_term; is_leader = true },
    )
    else (r, record { cmd_index = minus_one; cur_term = minus_one; is_leader = false })

-- `for (int i = from; i < m_logs.size(); i++)`: the comparison is unsigned, so a negative `from`
-- makes no round.
unfoldable pub tail_from : List LogEntry → ℤ → List LogEntry
tail_from logs (pos n) = drop n logs
tail_from logs (negsuc n) = []

unfoldable pub prev_term : Raft → ℤ → Option ℤ
prev_term r prev =
    if prev ==ℤ r.last_included_index
    then some r.last_include_term
    else do e ← log_at r prev; some e.term

-- SendAppendEntries up to the RPC: the request, and `send_size`.
unfoldable pub append_request : Raft → ℤ → Option (AppendEntriesRequest × ℕ)
unfolding at tail_from prev_term
append_request r peer = do
  next ← at r.next_index peer
  let prev = next -ℤ pos 1
  let sent = tail_from r.logs (compress_log_idx r prev +ℤ pos 1)
  term ← prev_term r prev
  some (
    record {
      term = r.cur_term;
      leader_id = r.peer_id;
      prev_log_index = prev;
      prev_log_term = term;
      leader_commit = r.commit_index;
      send_logs = format_entries sent;
    },
    length sent,
  )

-- `sort`
unfoldable pub insert : ℤ → List ℤ → List ℤ
insert z [] = z ∷ []
insert z (y ∷ ys) = if leb_ℤ z y then z ∷ y ∷ ys else y ∷ insert z ys

unfoldable pub sort : List ℤ → List ℤ
unfolding insert
sort [] = []
sort (z ∷ zs) = insert z (sort zs)

-- `tmp[tmp.size() / 2]`
unfoldable pub majority_match_index : List ℤ → Option ℤ
unfolding sort
majority_match_index match_index = get_elem? (sort match_index) (length match_index / 2)

-- The second half of the test for a new commit index; the log is read only behind the snapshot.
unfoldable pub committable : Raft → ℤ → Option Bool
committable r index =
    if leb_ℤ index r.last_included_index
    then some true
    else do e ← log_at r index; some (e.term ==ℤ r.cur_term)

unfoldable pub advance : Raft → Option Raft
unfolding majority_match_index committable
advance r = do
  index ← majority_match_index r.match_index
  let test = committable r index
  if ltb_ℤ r.commit_index index
      then (do
        yes_commit ← test
        some (if yes_commit then record r { commit_index = index } else r))
      else some r

-- A successful append: `next_index`, `match_index` and the commit index.
unfoldable pub matched : Raft → ℤ → ℕ → Option Raft
unfolding at put advance
matched r peer send_size = do
  next ← at r.next_index peer
  next_index ← put r.next_index peer (next +ℤ pos send_size)
  match_peer ← put r.match_index peer (next +ℤ pos send_size -ℤ pos 1)
  match_index ← put match_peer r.peer_id (last_index r)
  advance (record r { next_index = next_index; match_index = match_index })

-- The loop back from the request's previous entry to one whose term is not above the conflict's:
-- `rounds` entries from `index` down.
unfoldable pub last_not_above : ℕ → Raft → ℤ → ℤ → Option ℤ
last_not_above zero r index term = some minus_one
last_not_above (suc rounds) r index term = do
  e ← log_at r index
  let more = last_not_above rounds r (index -ℤ pos 1) term
  if leb_ℤ e.term term then some index else more

-- Where to go on after a refusal.
unfoldable pub next_after_conflict : Raft → ℤ → AppendEntriesResponse → Option ℤ
unfolding last_not_above
next_after_conflict r prev response =
    if response.conflict_term ==ℤ minus_one then some (response.conflict_index +ℤ pos 1) else do
      index ←
          last_not_above (pos_part (prev -ℤ r.last_included_index)) r prev response.conflict_term
      some (if index ==ℤ minus_one then response.conflict_index else index +ℤ pos 1)

unfoldable pub conflicted : Raft → ℤ → ℤ → AppendEntriesResponse → Option Raft
unfolding put next_after_conflict
conflicted r peer prev response = do
  next ← next_after_conflict r prev response
  next_index ← put r.next_index peer next
  some (record r { next_index = next_index })

unfoldable pub step_down : Raft → ℤ → Raft
unfolding save_raft_state
step_down r term =
    save_raft_state (record r { state = follower; cur_term = term; vote_for = minus_one })

-- SendAppendEntries from the response on.
unfoldable pub on_append_response :
    Raft → ℤ → AppendEntriesRequest → ℕ → AppendEntriesResponse → Option Raft
unfolding matched conflicted step_down
on_append_response r peer request send_size response =
    let done = matched r peer send_size in
    let back = conflicted r peer request.prev_log_index response in
    if r.cur_term ==ℤ request.term
    then (if ltb_ℤ r.cur_term response.term
        then some (step_down r response.term)
        else do r' ← (if response.success then done else back); some (save_raft_state r'))
    else some r
