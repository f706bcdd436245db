-- ===== src/Raft/Persist.antt =====
-- The persisted state of src/RaftServer.cpp: Serialize, SaveRaftState, Deserialize, ReadRaftState.
-- A file that cannot be opened or read whole ends the process there; here both always succeed.
-- Deserialize makes a string of a buffer with no terminating NUL; the model takes the buffer up to
-- its first NUL or its end.
pub mod Fields
pub mod Reading
use shard_kv_raft.Base.{
  Bool, true, false, List, [], ◌∷◌, ◌++◌, Option, none, some, ◌>>=◌, length, drop, get_elem?,
  if◌then◌else◌, ◌==◌,
}
use shard_kv_raft.Text.{Bytes, to_string, atoi, cut}
use shard_kv_raft.Raft.State.{LogEntry, Persister, Raft}
use shard_kv_raft.Raft.Log.{push_back_log}
use shard_kv_raft.Raft.Wire.{format_entry, parse_entries}

-- The loop of Serialize over the log: `cmd,term.`.
unfoldable pub format_logs : List LogEntry → Bytes
format_logs [] = []
format_logs (e ∷ es) = format_entry e ++ b'.' ∷ format_logs es

-- what Serialize writes
unfoldable pub serialized : Raft → Bytes
serialized r =
    to_string r.persister.cur_term
    ++ b';'
      ∷ (to_string r.persister.voted_for
          ++ b';'
            ∷ (to_string r.last_included_index
                ++ b';' ∷ (to_string r.last_include_term ++ b';' ∷ format_logs r.persister.logs)))

-- A write at the start of a file that is opened without O_TRUNC: the rest of a longer file stays.
unfoldable pub overwrite : Option Bytes → Bytes → Bytes
overwrite none new = new
overwrite (some old) new = new ++ drop (length new) old

unfoldable pub serialize : Raft → Raft
serialize r = record r {
  disk = record r.disk { persister_file = some (overwrite r.disk.persister_file (serialized r)) };
}

unfoldable pub save_raft_state : Raft → Raft
save_raft_state r = serialize (record r {
  persister = record r.persister { cur_term = r.cur_term; voted_for = r.vote_for; logs = r.logs };
})

-- `std::string content(buf)`: the text up to the first NUL. The buffer is as long as the file, and a
-- NUL is taken to stand behind it, which the code leaves to chance.
unfoldable pub c_string : Bytes → Bytes
c_string [] = []
c_string (c ∷ s) = if c == 0 then [] else c ∷ c_string s

-- the persisted fields: the terminated ones, and what stands behind the last `;`
unfoldable pub fields : Bytes → List Bytes
fields content = let (persist, tmp) = cut b';' content [] [] in persist ++ tmp ∷ []

unfoldable pub read_fields : Persister → List Bytes → Option Persister
read_fields p persist = do
  term ← get_elem? persist 0
  voted ← get_elem? persist 1
  index ← get_elem? persist 2
  index_term ← get_elem? persist 3
  log ← get_elem? persist 4
  logs ← parse_entries (cut b'.' log [] []).0
  some (record {
    logs = logs;
    cur_term = atoi term;
    voted_for = atoi voted;
    snapshot = record p.snapshot {
      last_include_index = atoi index;
      last_include_term = atoi index_term;
    };
  })

-- The result says whether there is a file.
unfoldable pub deserialize : Raft → Option (Raft × Bool)
deserialize r = elim r.disk.persister_file [
  | none ↦ some (r, false)
  | some content ↦ do
    p ← read_fields r.persister (fields (c_string content))
    some (record r { persister = p }, true)
]

unfoldable pub push_back_logs : List LogEntry → Raft → Raft
unfolding push_back_log
push_back_logs [] r = r
push_back_logs (e ∷ es) r = push_back_logs es (push_back_log e r)

unfoldable pub read_raft_state : Raft → Option Raft
read_raft_state r = do
  (r', found) ← deserialize r
  some (
      if found
      then push_back_logs r'.persister.logs
          (record r' { cur_term = r'.persister.cur_term; vote_for = r'.persister.voted_for })
      else r')
