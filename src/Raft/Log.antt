-- ===== src/Raft/Log.antt =====
-- Indices into the log of src/RaftServer.cpp. Entries are numbered from 1; those up to
-- `last_included_index` are in the snapshot, and `logs` holds the later ones.
pub mod Index
use shard_kv_raft.Base.{
  ℕ, Bool, true, false, ◌&&◌, ◌||◌, List, [], ◌∷◌, ◌++◌, Option, ◌>>=◌, ℤ, pos, ◌+ℤ◌, ◌-ℤ◌, ◌==ℤ◌,
  ltb_ℤ, leb_ℤ, length, if◌then◌else◌,
}
use shard_kv_raft.Raft.State.{LogEntry, Raft, at}

-- CompressLogidx
unfoldable pub compress_log_idx : Raft → ℤ → ℤ
compress_log_idx r index = index -ℤ r.last_included_index -ℤ pos 1

-- lastindex
unfoldable pub last_index : Raft → ℤ
last_index r = r.last_included_index +ℤ pos (length r.logs)

unfoldable pub back_term : ℤ → List LogEntry → ℤ
back_term t [] = t
back_term t (e ∷ es) = back_term e.term es

-- lastterm: `back_term` is the term of `m_logs.back()`, or of the snapshot if the log is empty
unfoldable pub last_term : Raft → ℤ
unfolding back_term
last_term r = back_term r.last_include_term r.logs

unfoldable pub is_empty {ℓ} : {A : Type ℓ} → List A → Bool
is_empty [] = true
is_empty (x ∷ xs) = false

-- CheckLogUptodate
unfoldable pub check_log_uptodate : Raft → ℤ → ℤ → Bool
unfolding is_empty
check_log_uptodate r term index =
    if is_empty r.logs
    then true
    else if ltb_ℤ (last_term r) term
    then true
    else if (term ==ℤ last_term r) && leb_ℤ (last_index r) index
    then true
    else false

-- PushBackLog
unfoldable pub push_back_log : LogEntry → Raft → Raft
push_back_log e r = record r { logs = r.logs ++ e ∷ [] }

-- `this->m_logs[this->CompressLogidx(index)]`
unfoldable pub log_at : Raft → ℤ → Option LogEntry
unfolding at compress_log_idx
log_at r index = at r.logs (compress_log_idx r index)
