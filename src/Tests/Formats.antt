-- ===== src/Tests/Formats.antt =====
-- The text formats at concrete values.
use shard_kv_raft.Base.{◌≡◌, refl, some, pos, arith}
use shard_kv_raft.Text.{codes, same}
use shard_kv_raft.Raft.State.{Operation}
use shard_kv_raft.Raft.Wire.{get_cmd_and_term, format_entries, get_cmd, get_operation}
use shard_kv_raft.Raft.Wire.Entries.{get_cmd_and_term-format_entries}
use shard_kv_raft.Raft.Wire.Operations.{IsLoggable, writes, get_operation-get_cmd}
use shard_kv_raft.Tests.Nodes.{two_entries}

get_cmd_and_term-format_entries_example :
    get_cmd_and_term (format_entries two_entries) ≡ some two_entries
get_cmd_and_term-format_entries_example = get_cmd_and_term-format_entries two_entries (omega arith)

abbrev set_abc : Operation
set_abc = record {
  op = codes "set";
  key = codes "abc";
  value = codes "17";
  client_id = pos 7;
  request_id = pos 3;
  op_term = pos 0;
  op_index = pos 0;
}

set_abc-IsLoggable : IsLoggable set_abc
unfolding same
set_abc-IsLoggable =
    writes refl ((λ e. cc), omega arith) ((λ e. cc), omega arith) ((λ e. cc), omega arith)

get_operation-get_cmd_example :
    get_operation (get_cmd set_abc) (pos 2) (pos 9)
    ≡ some (record set_abc { op_term = pos 2; op_index = pos 9 })
get_operation-get_cmd_example = get_operation-get_cmd set_abc (pos 2) (pos 9) set_abc-IsLoggable
