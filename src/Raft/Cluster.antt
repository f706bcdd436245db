-- ===== src/Raft/Cluster.antt =====
-- A cluster of nodes of src/RaftServer.cpp and the network between them. Each move is one handler
-- or one half of a sender, run whole under its node's mutex. What has been sent may arrive late,
-- more than once, or never. A restart is no move.
pub mod Links
pub mod Chains
pub mod Receiving
pub mod Unpacking
pub mod Keeping
pub mod Growing
pub mod Invariant
pub mod Leading
pub mod Moving
pub mod Winners
pub mod Matching
pub mod OnlyAppends
pub mod Local
use shard_kv_raft.Base.{
  ℕ, suc, ◌≡◌, ◌⊎◌, ◌==◌, ◌==ℤ◌, List, ◌∷◌, Option, none, some, ℤ, pos, get_elem?, if◌then◌else◌,
}
use shard_kv_raft.Text.{Lacks}
use shard_kv_raft.Raft.State.{
  Operation, Raft, candidate, leader, Timeval, AppendEntriesRequest, AppendEntriesResponse,
  InstallSnapShotRequest, InstallSnapShotResponse,
}
use shard_kv_raft.Raft.Wire.{get_cmd}
use shard_kv_raft.Raft.Append.{reply_append}
use shard_kv_raft.Raft.Election.{after_vote}
use shard_kv_raft.Raft.Replicate.{start, append_request}
use shard_kv_raft.Raft.Snapshot.{Codec, reply_install_snap, install_request}
use shard_kv_raft.Raft.Step.{
  Step, votes, counts, times_out, elects, submits, follows, leads, applies, compacts, installs,
  sends_snapshot, sent_snapshot,
}

-- A request on its way to the node with a number.
pub data Message : Type 0 where
  append : ℕ → AppendEntriesRequest → Message
  install : ℕ → InstallSnapShotRequest → Message

-- The nodes, and all that was ever sent.
pub record Cluster : Type 0 where
  pub node : ℕ → Raft
  pub network : List Message

abbrev pub replace : (ℕ → Raft) → ℕ → Raft → ℕ → Raft
replace node i r j = if j == i then r else node j

-- The steps of a node that take no command and no request to follow.
abbrev pub IsLocal : {codec : Codec} {r s : Raft} → Step codec r s → Type 0
IsLocal (votes _ _ _) = Unit
IsLocal (counts _ _ _) = Unit
IsLocal (times_out _ _ _) = Unit
IsLocal (elects _ _) = Unit
IsLocal (submits _ _) = ⊥
IsLocal (follows _ _ _ _) = ⊥
IsLocal (leads _ _ _ _ _) = Unit
IsLocal (applies _) = Unit
IsLocal (compacts _ _ _) = Unit
IsLocal (installs _ _ _ _) = ⊥
IsLocal (sends_snapshot _) = Unit
IsLocal (sent_snapshot _ _ _ _) = Unit

-- A sender does not look at the node's state, and the peer may be any node.
pub data Move (codec : Codec) (c c' : Cluster) : Type 0 where
  acts :
      (i : ℕ) (s : Raft) (st : Step codec (c.node i) s)
      → IsLocal st
      → c' ≡ record c { node = replace c.node i s }
      → Move codec c c'
  takes :
      (i : ℕ) (op : Operation)
      → Lacks b',' (get_cmd op)
      → Lacks b';' (get_cmd op)
      → c' ≡ record c { node = replace c.node i (start (c.node i) op).0 }
      → Move codec c c'
  sends :
      (i peer : ℕ) (q : AppendEntriesRequest) (size : ℕ)
      → append_request (c.node i) (pos peer) ≡ some (q, size)
      → c' ≡ record c { network = append peer q ∷ c.network }
      → Move codec c c'
  receives :
      (k peer : ℕ) (q : AppendEntriesRequest) (now : Timeval) (s : Raft) (a : AppendEntriesResponse)
      → get_elem? c.network k ≡ some (append peer q)
      → reply_append now (c.node peer) q ≡ some (s, a)
      → c' ≡ record c { node = replace c.node peer s }
      → Move codec c c'
  ships :
      (i peer : ℕ) (s : Raft) (q : InstallSnapShotRequest)
      → install_request codec (c.node i) ≡ (s, q)
      → c' ≡ record c { node = replace c.node i s; network = install peer q ∷ c.network }
      → Move codec c c'
  unpacks :
      (k peer : ℕ) (q : InstallSnapShotRequest) (now : Timeval) (s : Raft)
      (a : InstallSnapShotResponse)
      → get_elem? c.network k ≡ some (install peer q)
      → reply_install_snap codec now (c.node peer) q ≡ some (s, a)
      → c' ≡ record c { node = replace c.node peer s }
      → Move codec c c'

-- A cluster over time: from each moment to the next a move, or nothing.
pub record Trace (codec : Codec) : Type 0 where
  pub moment : ℕ → Cluster
  pub moves : (k : ℕ) → Move codec (moment k) (moment (suc k)) ⊎ (moment (suc k) ≡ moment k)
