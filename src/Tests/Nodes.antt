-- ===== src/Tests/Nodes.antt =====
-- Nodes of a cluster of three, and a format for the snapshot file.
use Prim.Native.String.{String}
use shard_kv_raft.Base.{
  ℕ, ◌+◌, ◌*◌, ◌≡◌, false, List, [], ◌∷◌, ◌++◌, Option, none, some, ℤ, pos, minus_one, arith,
}
use shard_kv_raft.Text.{Bytes, codes, to_string, atoi, break_at, Lacks}
use shard_kv_raft.Text.Decimal.{atoi-to_string, to_string-Lacks}
use shard_kv_raft.Text.Cut.{break_at-append}
use shard_kv_raft.Raft.State.{
  PeersInfo, LogEntry, SnapShot, SnapShotMessage, Timeval, Raft, leader, follower,
}
use shard_kv_raft.Raft.Snapshot.{Codec}

abbrev pub midnight : Timeval
midnight = record { tv_sec = pos 0; tv_usec = pos 0 }

abbrev pub peer : ℕ → PeersInfo
peer n = record { peer_id = pos n; ip = codes "192.168.203.128"; port = pos (1024 + 2 * n) }

abbrev pub no_snapshot : SnapShot
no_snapshot = record {
  content = [];
  last_include_index = pos 0;
  last_include_term = pos 0;
  offset = pos 0;
}

-- Node `id` as a follower with a log, and nothing on its disk.
abbrev pub follower_node : ℕ → ℕ → List LogEntry → Raft
follower_node id term logs = record {
  peers = peer 0 ∷ peer 1 ∷ peer 2 ∷ [];
  persister = record { logs = []; cur_term = pos 0; voted_for = minus_one; snapshot = no_snapshot };
  disk = record { persister_file = none; snapshot_file = none };
  peer_id = pos id;
  stop = false;
  logs = logs;
  cur_term = pos term;
  vote_for = minus_one;
  next_index = pos 1 ∷ pos 1 ∷ pos 1 ∷ [];
  match_index = pos 0 ∷ pos 0 ∷ pos 0 ∷ [];
  last_applied = pos 0;
  commit_index = pos 0;
  last_included_index = pos 0;
  last_include_term = pos 0;
  recv_votes = pos 0;
  finished_vote = pos 0;
  state = follower;
  leader_id = minus_one;
  last_wake_time = midnight;
  last_broadcast_time = midnight;
  msgs = [];
  wait_apply = false;
}

abbrev pub entry : String → ℕ → LogEntry
entry cmd term = record { cmd = codes cmd; term = pos term }

abbrev pub two_entries : List LogEntry
two_entries = entry "set a 1 7 0" 1 ∷ entry "set b 2 7 1" 1 ∷ []

-- The leader of term 2, with two entries from term 1, right after its election.
abbrev pub leader_node : Raft
leader_node = record (follower_node 0 2 two_entries) {
  state = leader;
  next_index = pos 3 ∷ pos 3 ∷ pos 3 ∷ [];
}

-- A format for the snapshot message: the two numbers as text, and the content.
pub written : SnapShotMessage → Bytes
written m =
    to_string m.last_include_index ++ b';' ∷ (to_string m.last_include_term ++ b';' ∷ m.content)

content_of : Bytes × Option Bytes → ℤ → SnapShotMessage
content_of (term, none) index = record {
  last_include_index = index;
  last_include_term = atoi term;
  content = [];
}
content_of (term, some rest) index = record {
  last_include_index = index;
  last_include_term = atoi term;
  content = rest;
}

term_of : Bytes × Option Bytes → SnapShotMessage
unfolding content_of
term_of (index, none) = content_of ([], none) (atoi index)
term_of (index, some rest) = content_of (break_at b';' rest []) (atoi index)

pub read : Bytes → SnapShotMessage
unfolding term_of
read b = term_of (break_at b';' b [])

number-Lacks : (z : ℤ) → Lacks b';' (to_string z)
number-Lacks z = to_string-Lacks b';' z (omega arith) (omega arith)

pub read-written : (m : SnapShotMessage) → read (written m) ≡ m
unfolding read written
read-written m =
    rw
      (break_at-append b';' (to_string m.last_include_index) _ []
        (number-Lacks m.last_include_index))
      (rw
        (break_at-append b';' (to_string m.last_include_term) m.content []
          (number-Lacks m.last_include_term))
        (rw (atoi-to_string m.last_include_index, atoi-to_string m.last_include_term)))

abbrev pub text_codec : Codec
text_codec = record { serialize = written; parse = read; parse-serialize = read-written }
