-- ===== src/Raft/Apply.antt =====
-- ApplyLogLoop of src/RaftServer.cpp: one round, from the committed entries to the queue.
pub mod Order
pub mod Beyond
use shard_kv_raft.Base.{
  ℕ, zero, suc, List, [], ◌∷◌, ◌++◌, Option, some, ◌>>=◌, pos, ◌+ℤ◌, ◌-ℤ◌, pos_part,
}
use shard_kv_raft.Raft.State.{ApplyMsg, command, Raft}
use shard_kv_raft.Raft.Log.{log_at}

-- `while (m_lastApplied < m_commitIndex)`: `rounds` is the difference.
unfoldable pub take_committed : ℕ → Raft → List ApplyMsg → Option (Raft × List ApplyMsg)
take_committed zero r msgs = some (r, msgs)
take_committed (suc rounds) r msgs = do
  let index = r.last_applied +ℤ pos 1
  e ← log_at r index
  take_committed rounds (record r { last_applied = index })
      (msgs ++ command e.cmd index e.term ∷ [])

unfoldable pub apply_round : Raft → Option Raft
unfolding take_committed
apply_round r = do
  (r', msgs) ← take_committed (pos_part (r.commit_index -ℤ r.last_applied)) r []
  some (record r' { msgs = r'.msgs ++ msgs })
