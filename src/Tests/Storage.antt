-- ===== src/Tests/Storage.antt =====
-- Applying, compacting and reading back at concrete nodes.
use shard_kv_raft.Base.{◌≡◌, refl, List, [], ◌∷◌, ◌++◌, none, some, pos, ◌+ℤ◌, arith, All}
use shard_kv_raft.Text.{codes}
use shard_kv_raft.Raft.State.{Raft, SnapShotMessage, ApplyMsg, InstallSnapShotRequest}
use shard_kv_raft.Raft.Log.{last_index}
use shard_kv_raft.Raft.Persist.{save_raft_state}
use shard_kv_raft.Raft.Persist.Fields.{IsStorable}
use shard_kv_raft.Raft.Snapshot.Restart.{IsRestart, init_shifts_log}
use shard_kv_raft.Raft.Apply.{apply_round}
use shard_kv_raft.Raft.Apply.Order.{IsCommitted, apply_round-IsCommitted}
use shard_kv_raft.Raft.Snapshot.{init, recv_snapshot, reply_install_snap, follow_install}
use shard_kv_raft.Raft.Snapshot.Installing.{Installs, reply_install_snap-Installs}
use shard_kv_raft.Raft.Snapshot.Compaction.{Compacts, recv_snapshot-Compacts, recv_snapshot_again}
use shard_kv_raft.Tests.Nodes.{midnight, peer, entry, follower_node, two_entries, text_codec}

-- A follower whose two entries are committed, the first of them applied.
abbrev applying : Raft
applying = record (follower_node 1 1 two_entries) { commit_index = pos 2; last_applied = pos 1 }

applying_end : last_index applying ≡ pos 2
unfolding last_index ◌+ℤ◌
applying_end = refl

apply_round-IsCommitted_example :
    (new : List ApplyMsg) × (apply_round applying
      ≡ some (record applying { last_applied = pos 2; msgs = [] ++ new }))
    × IsCommitted applying (pos 1) new
apply_round-IsCommitted_example =
    apply_round-IsCommitted applying (omega arith) (omega arith) (rw applying_end (omega arith))

recv_snapshot-Compacts_example :
    (r' : Raft) × (recv_snapshot text_codec applying (codes "a 1") (pos 1) ≡ some r')
    × Compacts text_codec applying r' (codes "a 1") (pos 1)
recv_snapshot-Compacts_example =
    recv_snapshot-Compacts text_codec applying (codes "a 1") (pos 1) (omega arith)
      (rw applying_end (omega arith))

-- The node with its first entry in a snapshot, and started again on its files.
abbrev pub compacted : Raft
compacted = record (follower_node 1 1 (entry "set b 2 7 1" 1 ∷ [])) {
  last_included_index = pos 1;
  last_include_term = pos 1;
}

abbrev pub first_snapshot : SnapShotMessage
first_snapshot = record {
  last_include_index = pos 1;
  last_include_term = pos 1;
  content = codes "a 1";
}

abbrev pub restarted : Raft
restarted = record (follower_node 1 0 []) {
  disk = record {
    persister_file = (save_raft_state compacted).disk.persister_file;
    snapshot_file = some (text_codec.serialize first_snapshot);
  };
}

pub storable : All IsStorable compacted.logs
storable = omega arith

init_shifts_log_example :
    (r' : Raft) × (init text_codec midnight (peer 0 ∷ peer 1 ∷ peer 2 ∷ []) (pos 1) restarted
      ≡ some r')
    × IsRestart compacted restarted first_snapshot r'
init_shifts_log_example =
    init_shifts_log text_codec midnight (peer 0 ∷ peer 1 ∷ peer 2 ∷ []) (pos 1) compacted restarted
      first_snapshot storable tt refl refl refl

-- The leader's snapshot up to index 2, for a follower with two entries.
abbrev install : InstallSnapShotRequest
install = record {
  term = pos 3;
  leader_id = pos 0;
  last_include_index = pos 2;
  last_include_term = pos 1;
  chunks = codes "a 1 b 2" ∷ [];
}

reply_install_snap-Installs_example :
    (r' : Raft) × (reply_install_snap text_codec midnight applying install
      ≡ some (r', record { term = pos 1 }))
    × Installs (follow_install text_codec midnight applying (pos 3)) install (codes "a 1 b 2") r'
reply_install_snap-Installs_example =
    reply_install_snap-Installs text_codec midnight applying install (codes "a 1 b 2") []
      (omega arith) (omega arith) refl

recv_snapshot_again_example : recv_snapshot text_codec applying (codes "a 1") (pos 0) ≡ none
recv_snapshot_again_example = recv_snapshot_again text_codec applying (codes "a 1")
