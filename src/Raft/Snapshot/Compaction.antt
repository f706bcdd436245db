-- ===== src/Raft/Snapshot/Compaction.antt =====
-- RecvSnapShot in src/RaftServer.cpp: what is left of the log, and what is written.
use shard_kv_raft.Base.{
  ◌+◌, ◌≡◌, refl, sym, ap, ◌∙◌, false, List, none, some, ℤ, pos, negsuc, ◌+ℤ◌, ◌-ℤ◌, ◌≤ℤ◌, ◌<ℤ◌,
  ltb_ℤ, pos_part, eq_of_parts, length, length-drop, drop, get_elem?, get_elem?-drop, int_laws,
  int_signs, arith,
}
use shard_kv_raft.Text.{Bytes}
use shard_kv_raft.Raft.State.{LogEntry, Raft, at}
use shard_kv_raft.Raft.Log.{last_index, log_at, compress_log_idx}
use shard_kv_raft.Raft.Log.Index.{place, log_at-place, log_at-in_range}
use shard_kv_raft.Raft.Replicate.{tail_from}
use shard_kv_raft.Raft.Persist.{save_raft_state, serialize}
use shard_kv_raft.Raft.Snapshot.{Codec, compact, store_snapshot, save_snapshot, recv_snapshot}

-- The node whose log begins behind `index`.
abbrev pub cut_at : Raft → ℤ → ℤ → Raft
cut_at r index term = record r {
  last_include_term = term;
  last_included_index = index;
  logs = tail_from r.logs (index -ℤ r.last_included_index);
}

tail_from-pos :
    (logs : List LogEntry) (z : ℤ) → pos 0 ≤ℤ z → tail_from logs z ≡ drop (pos_part z) logs
unfolding tail_from
tail_from-pos logs (pos n) h = refl
tail_from-pos logs (negsuc n) h = absurd (omega arith)

pub last_index-cut_at :
    (r : Raft) (index term : ℤ)
    → r.last_included_index <ℤ index
    → index ≤ℤ last_index r
    → last_index (cut_at r index term) ≡ last_index r
unfolding last_index
last_index-cut_at r index term lo hi =
    let k = pos_part (index -ℤ r.last_included_index) in
    ap (λ (es : List LogEntry). index +ℤ pos (length es))
      (tail_from-pos r.logs (index -ℤ r.last_included_index) (omega int_laws))
    ∙ ap (λ n. index +ℤ pos n) (length-drop k r.logs)
    ∙ eq_of_parts _ _ (omega int_signs)

pub log_at-cut_at :
    (r : Raft) (index term j : ℤ)
    → r.last_included_index <ℤ index
    → index <ℤ j
    → log_at (cut_at r index term) j ≡ log_at r j
log_at-cut_at r index term j lo hi =
    let k = pos_part (index -ℤ r.last_included_index) in
    let cut = cut_at r index term in
    let i = place cut j in
    let shifted : k + i ≡ place r j = omega int_signs in
    log_at-place cut j hi
    ∙ ap (λ (es : List LogEntry). get_elem? es i)
        (tail_from-pos r.logs (index -ℤ r.last_included_index) (omega int_laws))
    ∙ get_elem?-drop k r.logs i
    ∙ ap (get_elem? r.logs) shifted
    ∙ sym (log_at-place r j (omega arith))

module _ (codec : Codec) where
  -- What RecvSnapShot leaves behind for a snapshot up to `index`.
  pub record Compacts (r r' : Raft) (snapshot : Bytes) (index : ℤ) : Type 0 where
    pub included : r'.last_included_index ≡ index
    pub end : last_index r' ≡ last_index r
    pub kept : (j : ℤ) → index <ℤ j → log_at r' j ≡ log_at r j
    pub entry : LogEntry
    pub at_index : log_at r index ≡ some entry
    pub term : r'.last_include_term ≡ entry.term
    pub file :
        r'.disk.snapshot_file
        ≡ some (
            codec.serialize (record {
              last_include_index = index;
              last_include_term = entry.term;
              content = snapshot;
            }))

  store_snapshot-Compacts :
      (r : Raft) (snapshot : Bytes) (index : ℤ) (e : LogEntry)
      → r.last_included_index <ℤ index
      → index ≤ℤ last_index r
      → log_at r index ≡ some e
      → Compacts r (store_snapshot codec snapshot index (cut_at r index e.term)) snapshot index
  unfolding store_snapshot save_snapshot save_raft_state serialize last_index log_at
  store_snapshot-Compacts r snapshot index e lo hi here = record {
    included = refl;
    end = last_index-cut_at r index e.term lo hi;
    kept = λ j later. log_at-cut_at r index e.term j lo later;
    entry = e;
    at_index = here;
    term = refl;
    file = refl;
  }

  -- A snapshot up to an index that the log holds is taken without undefined behaviour: the last
  -- index stays, every entry behind the snapshot stays at its index, and the file holds the snapshot
  -- with its index and the term of its last entry.
  pub recv_snapshot-Compacts :
      (r : Raft) (snapshot : Bytes) (index : ℤ)
      → r.last_included_index <ℤ index
      → index ≤ℤ last_index r
      → (r' : Raft) × (recv_snapshot codec r snapshot index ≡ some r')
        × Compacts r r' snapshot index
  unfolding recv_snapshot compact
  recv_snapshot-Compacts r snapshot index lo hi =
      let (e, here) = log_at-in_range r index lo hi in
      let behind : ltb_ℤ index r.last_included_index ≡ false = ground arith in
      (
        store_snapshot codec snapshot index (cut_at r index e.term),
        rw behind (rw here refl),
        store_snapshot-Compacts r snapshot index e lo hi here,
      )

  -- RecvSnapShot reads the log out of range when it is given another snapshot up to the index of the
  -- last one.
  pub recv_snapshot_again :
      (r : Raft) (snapshot : Bytes) → recv_snapshot codec r snapshot r.last_included_index ≡ none
  unfolding recv_snapshot compact log_at at compress_log_idx
  recv_snapshot_again r snapshot =
      let i = r.last_included_index in
      let not_behind : ltb_ℤ i i ≡ false = ground arith in
      let before : i -ℤ i -ℤ pos 1 ≡ negsuc 0 = omega int_laws in rw not_behind (rw before refl)
