-- ===== src/Raft/Heartbeat.antt =====
-- One round of ProcessEntriesLoop in src/RaftServer.cpp, the leader's bell, with the members that
-- other threads call: GetState, Stop and Activate.
pub mod Bell
use shard_kv_raft.Base.{
  Bool, List, [], ◌∷◌, Option, some, ◌>>=◌, ℤ, pos, ltb_ℤ, leb_ℤ, if◌then◌else◌,
}
use shard_kv_raft.Raft.State.{Raft, Timeval, at}
use shard_kv_raft.Raft.Replicate.{is_leader}
use shard_kv_raft.Raft.Election.{get_duration, others}

-- The task that is handed to the thread pool for a peer.
pub data Task : Type 0 where
  send_install_snapshot : ℤ → Task
  send_append_entries : ℤ → Task

unfoldable pub get_state : Raft → ℤ × Bool
unfolding is_leader
get_state r = (r.cur_term, is_leader r.state)

-- Stop and Activate.
unfoldable pub set_stop : Bool → Raft → Raft
set_stop b r = record r { stop = b }

unfoldable pub task_for : Raft → ℤ → Option Task
unfolding at
task_for r peer = do
  next ← at r.next_index peer
  some (
      if leb_ℤ next r.last_included_index
      then send_install_snapshot peer
      else send_append_entries peer)

unfoldable pub tasks_for : Raft → List ℤ → Option (List Task)
unfolding task_for
tasks_for r [] = some []
tasks_for r (peer ∷ peers) = do
  task ← task_for r peer
  tasks ← tasks_for r peers
  some (task ∷ tasks)

-- HEART_BEART_PERIOD is 100000 microseconds. The indices are read behind the mutex's region; no
-- other thread runs between the two here.
unfoldable pub heartbeat : Timeval → Raft → Option (Raft × List Task)
unfolding is_leader get_duration tasks_for others
heartbeat now r =
    let r' = record r { last_broadcast_time = now } in
    let ring = (do tasks ← tasks_for r' (others r.peer_id r.peers); some (r', tasks)) in
    if is_leader r.state
    then (if ltb_ℤ (get_duration now r.last_broadcast_time) (pos 100000)
        then some (r, [])
        else ring)
    else some (r, [])
