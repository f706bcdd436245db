-- ===== src/Raft/Snapshot/Installing.antt =====
-- ReplyInstallSnap in src/RaftServer.cpp: what a follower keeps of its log, and what it hands on.
use shard_kv_raft.Base.{
  ◌≡◌, refl, sym, ap, false, List, [], ◌∷◌, ◌++◌, some, ℤ, pos, ◌+ℤ◌, ◌-ℤ◌, ◌≤ℤ◌, ◌<ℤ◌, ltb_ℤ,
  leb_ℤ, ◌==ℤ◌, ==ℤ→eq, ==ℤ_iff, ◌∙◌, Bool-cases, inl, inr, ◌⊎◌, int_laws, arith,
}
use mathlib.Core.Path.{subst}
use mathlib.Core.Option.{some-injective}
use shard_kv_raft.Text.{Bytes}
use shard_kv_raft.Raft.State.{LogEntry, Raft, snap, Timeval, InstallSnapShotRequest}
use shard_kv_raft.Raft.Log.{last_index, log_at, compress_log_idx}
use shard_kv_raft.Raft.Log.Index.{log_at-in_range}
use shard_kv_raft.Raft.Replicate.{tail_from}
use shard_kv_raft.Raft.Persist.{save_raft_state, serialize}
use shard_kv_raft.Raft.Snapshot.{
  Codec, save_snapshot, push_snapshot, install_snapshot, trim_log, follow_install, replace_snapshot,
  reply_install_snap,
}
use shard_kv_raft.Raft.Snapshot.Compaction.{last_index-cut_at, log_at-cut_at}

-- The log goes on behind the snapshot, and its last entry has the snapshot's term.
abbrev pub GoesOn : Raft → InstallSnapShotRequest → Type 0
GoesOn r q =
    (q.last_include_index <ℤ last_index r)
    × ((e : LogEntry) × (log_at r (last_index r) ≡ some e) × (e.term ≡ q.last_include_term))

-- The log that is left: the entries behind the snapshot if it goes on there, and else nothing.
abbrev IsTrimmed : Raft → InstallSnapShotRequest → List LogEntry → Type 0
IsTrimmed r q logs =
    (¬ GoesOn r q × (logs ≡ []))
    ⊎ (GoesOn r q × (logs ≡ tail_from r.logs (q.last_include_index -ℤ r.last_included_index)))

index_behind :
    (r : Raft) (q : InstallSnapShotRequest)
    → compress_log_idx r q.last_include_index +ℤ pos 1
      ≡ q.last_include_index -ℤ r.last_included_index
unfolding compress_log_idx
index_behind r q = omega int_laws

trim_log-IsTrimmed :
    (codec : Codec) (r : Raft) (q : InstallSnapShotRequest)
    → r.last_included_index <ℤ q.last_include_index
    → (logs : List LogEntry) × (trim_log codec r q ≡ some logs) × IsTrimmed r q logs
unfolding trim_log
trim_log-IsTrimmed codec r q newer = elim (Bool-cases (ltb_ℤ q.last_include_index (last_index r))) [
  | inr all ↦ ([], rw all refl, inl ((λ g. absurd (ground (arith, g.0))), refl))
  | inl inside ↦
      let before : q.last_include_index <ℤ last_index r = ground arith in
      let (e, here) = log_at-in_range r (last_index r) (omega arith) (omega arith) in
      elim (Bool-cases (e.term ==ℤ q.last_include_term)) [
        | inl same ↦ (
          tail_from r.logs (compress_log_idx r q.last_include_index +ℤ pos 1),
          rw inside (rw here (rw same refl)),
          inr ((before, (e, here, ==ℤ→eq _ _ same)), ap (tail_from r.logs) (index_behind r q)),
        )
        | inr other ↦
            ([], rw inside (rw here (rw other refl)), inl ((λ g. other_term e here other g), refl))
      ]
]
  where
    other_term :
        (e : LogEntry)
        → log_at r (last_index r) ≡ some e
        → (e.term ==ℤ q.last_include_term) ≡ false
        → ¬ GoesOn r q
    other_term e here other (_, (e', here', same)) =
        let one = some-injective e e' (sym here ∙ here') in
        ground (arith, ==ℤ_iff e.term q.last_include_term, ap (λ (x : LogEntry). x.term) one ∙ same)

-- What an installed snapshot leaves behind.
pub record Installs (r : Raft) (q : InstallSnapShotRequest) (content : Bytes) (r' : Raft)
    : Type 0 where
  pub included : r'.last_included_index ≡ q.last_include_index
  pub term : r'.last_include_term ≡ q.last_include_term
  pub applied : r'.last_applied ≡ q.last_include_index
  pub msgs : r'.msgs ≡ r.msgs ++ snap content q.last_include_index q.last_include_term ∷ []
  pub kept : (j : ℤ) → q.last_include_index <ℤ j → j ≤ℤ last_index r' → log_at r' j ≡ log_at r j
  pub tail : GoesOn r q → last_index r' ≡ last_index r
  pub cleared : ¬ GoesOn r q → r'.logs ≡ []

-- The node with the log that is left.
abbrev trimmed : Raft → InstallSnapShotRequest → List LogEntry → Raft
trimmed r q logs = record r {
  logs = logs;
  last_included_index = q.last_include_index;
  last_include_term = q.last_include_term;
}

-- What is left stands where it stood.
abbrev IsKept : Raft → InstallSnapShotRequest → List LogEntry → Type 0
IsKept r q logs =
    ((j : ℤ)
      → q.last_include_index <ℤ j
      → j ≤ℤ last_index (trimmed r q logs)
      → log_at (trimmed r q logs) j ≡ log_at r j)
    × (GoesOn r q → last_index (trimmed r q logs) ≡ last_index r)
    × (¬ GoesOn r q → logs ≡ [])

empty-IsKept : (r : Raft) (q : InstallSnapShotRequest) → ¬ GoesOn r q → IsKept r q []
unfolding last_index
empty-IsKept r q ends = (λ j lo hi. absurd (omega int_laws), (λ g. absurd (ends g)), λ n. refl)

tail-IsKept :
    (r : Raft) (q : InstallSnapShotRequest)
    → r.last_included_index <ℤ q.last_include_index
    → GoesOn r q
    → IsKept r q (tail_from r.logs (q.last_include_index -ℤ r.last_included_index))
tail-IsKept r q newer goes_on =
    let inside = goes_on.0 in
    (
      λ j lo hi. log_at-cut_at r q.last_include_index q.last_include_term j newer lo,
      (λ g. last_index-cut_at r q.last_include_index q.last_include_term newer (omega arith)),
      λ n. absurd (n goes_on),
    )

trimmed-IsKept :
    (r : Raft) (q : InstallSnapShotRequest) (logs : List LogEntry)
    → r.last_included_index <ℤ q.last_include_index
    → IsTrimmed r q logs
    → IsKept r q logs
trimmed-IsKept r q logs newer (inl (ends, e)) = subst (IsKept r q) (sym e) (empty-IsKept r q ends)
trimmed-IsKept r q logs newer (inr (goes_on, e)) =
    subst (IsKept r q) (sym e) (tail-IsKept r q newer goes_on)

module _ (codec : Codec) where
  replace_snapshot-Installs :
      (r : Raft) (q : InstallSnapShotRequest) (content : Bytes) (chunks : List Bytes)
      → r.last_included_index <ℤ q.last_include_index
      → q.chunks ≡ content ∷ chunks
      → (r' : Raft) × (replace_snapshot codec r q ≡ some r') × Installs r q content r'
  unfolding replace_snapshot install_snapshot push_snapshot save_snapshot save_raft_state serialize
      last_index log_at
  replace_snapshot-Installs r q content chunks newer given =
      let (logs, run, how) = trim_log-IsTrimmed codec r q newer in
      let (kept, tail, cleared) = trimmed-IsKept r q logs newer how in
      let written : Raft = trimmed r q logs in
      let saved : Raft = save_snapshot codec (
        save_raft_state (record written {
          persister = record written.persister {
            snapshot = record written.persister.snapshot { content = content };
          };
        })) in
      (
        push_snapshot codec saved,
        rw run (rw given refl),
        record {
          included = refl;
          term = refl;
          applied = refl;
          msgs = refl;
          kept = kept;
          tail = tail;
          cleared = cleared;
        },
      )

  follow_install-included :
      (now : Timeval) (r : Raft) (term : ℤ)
      → (follow_install codec now r term).last_included_index ≡ r.last_included_index
  unfolding follow_install save_raft_state serialize
  follow_install-included now r term = elim (Bool-cases (ltb_ℤ r.cur_term term)) [
    | inl newer ↦ rw newer refl
    | inr same ↦ rw same refl
  ]

  -- A follower that is sent a snapshot with a chunk, of a term that is not stale and beyond its own
  -- snapshot, takes it without undefined behaviour and answers with its old term. Against the node
  -- that has taken on the leader's term: the snapshot's index and term are the node's, its first
  -- chunk is handed on behind what waits. If the log goes on behind the snapshot and its last entry
  -- has the snapshot's term, just the entries behind the snapshot are left, each at its index; else
  -- the log is empty.
  pub reply_install_snap-Installs :
      (now : Timeval) (r : Raft) (q : InstallSnapShotRequest) (content : Bytes)
      (chunks : List Bytes)
      → r.cur_term ≤ℤ q.term
      → r.last_included_index <ℤ q.last_include_index
      → q.chunks ≡ content ∷ chunks
      → (r' : Raft) × (reply_install_snap codec now r q ≡ some (r', record { term = r.cur_term }))
        × Installs (follow_install codec now r q.term) q content r'
  unfolding reply_install_snap
  reply_install_snap-Installs now r q content chunks fresh newer given =
      let f = follow_install codec now r q.term in
      let (r', run, installs) =
        replace_snapshot-Installs f q content chunks
          (rw (follow_install-included now r q.term) newer) given in
      let not_stale : ltb_ℤ q.term r.cur_term ≡ false = ground arith in
      let beyond : leb_ℤ q.last_include_index r.last_included_index ≡ false = ground arith in
      (r', rw not_stale (rw beyond (rw run refl)), installs)
