-- ===== src/Raft/Wire.antt =====
-- The text formats of src/RaftServer.cpp and include/RaftServer.h: the entries of an append
-- request, `cmd,term;`, the persisted state, and the command of a log entry.
pub mod Entries
pub mod Operations
use shard_kv_raft.Base.{
  ℕ, zero, suc, Bool, true, false, List, [], ◌∷◌, ◌++◌, Option, none, some, ◌>>=◌, ℤ, pos,
  minus_one, get_elem?, if◌then◌else◌,
}
use shard_kv_raft.Text.{Bytes, codes, to_string, atoi, push_nonempty, cut, break_at, same}
use shard_kv_raft.Raft.State.{LogEntry, Operation}

unfoldable pub parse_number : Bytes × Option Bytes → Option LogEntry
parse_number (tmp, none) = none
parse_number (tmp, some rest) = some (record { cmd = tmp; term = atoi rest })

-- `std::string number(s.begin() + j + 1, s.end())` is undefined where the text has no comma.
unfoldable pub parse_entry : Bytes → Option LogEntry
unfolding parse_number
parse_entry s = parse_number (break_at b',' s [])

unfoldable pub parse_entries : List Bytes → Option (List LogEntry)
unfolding parse_entry
parse_entries [] = some []
parse_entries (s ∷ str) = do e ← parse_entry s; es ← parse_entries str; some (e ∷ es)

-- GetCmdAndTerm: what stands behind the last `;` is dropped.
unfoldable pub get_cmd_and_term : Bytes → Option (List LogEntry)
unfolding cut parse_entries
get_cmd_and_term text = parse_entries (cut b';' text [] []).0

unfoldable pub format_entry : LogEntry → Bytes
format_entry e = e.cmd ++ b',' ∷ to_string e.term

-- The loop of SendAppendEntries that fills `send_logs`.
unfoldable pub format_entries : List LogEntry → Bytes
unfolding format_entry
format_entries [] = []
format_entries (e ∷ es) = format_entry e ++ b';' ∷ format_entries es

-- Operation::getCmd
unfoldable pub get_cmd : Operation → Bytes
get_cmd o =
    o.op
    ++ b' '
      ∷ (o.key
          ++ b' ' ∷ (o.value ++ b' ' ∷ (to_string o.client_id ++ b' ' ∷ to_string o.request_id)))

-- The parts of a command: the loop drops empty ones, and keeps the one behind the last space.
unfoldable pub parts : Bytes → List Bytes
unfolding push_nonempty
parts cmd = let (str, tmp) = cut b' ' cmd [] [] in push_nonempty str tmp

-- The fields of an operation, from the parts; a part that is not there is an index out of range.
unfoldable pub read_operation : List Bytes → ℤ → ℤ → Option Operation
read_operation str term index = do
  op ← get_elem? str 0
  key ← get_elem? str 1
  if same op (codes "get")
      then (do
        client ← get_elem? str 2
        request ← get_elem? str 3
        some (record {
          op = op;
          key = key;
          value = [];
          client_id = atoi client;
          request_id = atoi request;
          op_term = term;
          op_index = index;
        }))
      else do
        value ← get_elem? str 2
        client ← get_elem? str 3
        request ← get_elem? str 4
        some (record {
          op = op;
          key = key;
          value = value;
          client_id = atoi client;
          request_id = atoi request;
          op_term = term;
          op_index = index;
        })

-- ApplyMsg::GetOperation
unfoldable pub get_operation : Bytes → ℤ → ℤ → Option Operation
unfolding read_operation
get_operation cmd term index = read_operation (parts cmd) term index
