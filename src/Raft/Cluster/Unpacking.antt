-- ===== src/Raft/Cluster/Unpacking.antt =====
-- A node that takes a snapshot of the network. ReplyInstallSnap compares the snapshot's term with
-- that of the log's last entry; where entries of one term stand side by side, that is as good as
-- the entry at the snapshot's end.
use shard_kv_raft.Base.{
  ℕ, zero, suc, ◌≡◌, ◌≢◌, refl, sym, ap, ◌∙◌, inl, inr, Bool-cases, [], some, ℤ, pos, ◌+ℤ◌, ◌-ℤ◌,
  ◌<ℤ◌, ◌==ℤ◌, ltb_ℤ, leb_ℤ, ==ℤ→eq, pos_part, neg_part, int_laws, int_signs, arith, get_elem?,
  take, Ensures, Ensures-some, Ensures-if, Ensures-bind,
}
use mathlib.Core.Path.{subst}
use shard_kv_raft.Text.{Bytes}
use shard_kv_raft.Raft.State.{
  LogEntry, Raft, leader, follower, Timeval, InstallSnapShotRequest, InstallSnapShotResponse,
}
use shard_kv_raft.Raft.Log.{last_index, back_term, log_at, compress_log_idx}
use shard_kv_raft.Raft.Log.Index.{log_at-in_range, log_at-some, log_at-le}
use shard_kv_raft.Raft.Persist.{save_raft_state, serialize}
use shard_kv_raft.Raft.Snapshot.{
  Codec, trim_log, follow_install, replace_snapshot, reply_install_snap,
}
use shard_kv_raft.Raft.Replicate.{tail_from}
use shard_kv_raft.Raft.Cluster.Links.{History, Linked-get, back_term-take}
use shard_kv_raft.Raft.Cluster.Chains.{IsBased, Chained, IsChained, IsChained-same, log_at-Chained}
use shard_kv_raft.Raft.Cluster.Receiving.{Taken}

-- An entry whose term has an earlier entry stands right behind one of that term.
abbrev pub IsSteady : History → Type 0
IsSteady h = (i j t : ℤ) (x y : Bytes × ℤ) → h i t ≡ some x → h j t ≡ some y → i <ℤ j → y.1 ≡ t

module _ (h : History) where
  -- An entry that is read is in the history, with the term of the entry before it.
  pub log_at-known :
      (r : Raft) (j : ℤ) (e : LogEntry)
      → IsChained h r
      → log_at r j ≡ some e
      → (t : ℤ) × (h j e.term ≡ some (e.cmd, t))
        × ((d : LogEntry) → log_at r (j -ℤ pos 1) ≡ some d → d.term ≡ t)
  log_at-known r j e (c, _) p =
      let (n, place, found) = log_at-some r j e p in
      (
        back_term r.last_include_term (take n r.logs),
        subst (λ z. h z e.term ≡ some (e.cmd, back_term r.last_include_term (take n r.logs)))
            (sym place)
            (Linked-get h r.last_included_index r.last_include_term n r.logs e c.linked found),
        λ d q.
            let (m, place', found') = log_at-some r (j -ℤ pos 1) d q in
            let next : n ≡ suc m = omega (
              int_laws,
              ap pos_part place,
              ap neg_part place,
              ap pos_part place',
              ap neg_part place',
            ) in
            sym (back_term-take r.last_include_term m r.logs d found')
            ∙ ap (λ k. back_term r.last_include_term (take k r.logs)) (sym next),
      )

  module _ (steady : IsSteady h) (r : Raft) (chain : IsChained h r) (i t : ℤ) (x : Bytes × ℤ)
      (known : h i t ≡ some x) (above : r.last_included_index <ℤ i) where
    -- From an entry of the term back to the one that the history has at `i`, `k` entries before.
    same_term_back :
        (k : ℕ) (j : ℤ) (e : LogEntry)
        → i +ℤ pos k ≡ j
        → log_at r j ≡ some e
        → e.term ≡ t
        → (d : LogEntry) × (log_at r i ≡ some d) × (d.term ≡ t)
    same_term_back zero j e count found same =
        (e, ap (log_at r) (omega (int_laws, ap pos_part count, ap neg_part count)) ∙ found, same)
    same_term_back (suc k) j e count found same =
        let before : i +ℤ pos k ≡ j -ℤ pos 1 =
          omega (int_laws, ap pos_part count, ap neg_part count) in
        let (d, found') =
          before_entry j e found (omega (int_laws, ap pos_part before, ap neg_part before)) in
        let (u, link, prev) = log_at-known r j e chain found in
        same_term_back k (j -ℤ pos 1) d before found' (
          prev d found'
          ∙ steady i j t x (e.cmd, u) known (subst (λ z. h j z ≡ some (e.cmd, u)) same link)
              (omega (int_laws, ap pos_part count, ap neg_part count)))
      where
        before_entry :
            (j : ℤ) (e : LogEntry)
            → log_at r j ≡ some e
            → r.last_included_index <ℤ j -ℤ pos 1
            → (d : LogEntry) × (log_at r (j -ℤ pos 1) ≡ some d)
        before_entry j e p lo =
            log_at-in_range r (j -ℤ pos 1) lo (omega (int_laws, log_at-le r j e p))

  nothing_kept : (i t : ℤ) → IsBased h i t → Chained h i t []
  nothing_kept i t b = record { linked = tt; clean = tt; based = b }

  module _ (codec : Codec) (steady : IsSteady h) where
    trim_log-Chained :
        (r : Raft) (q : InstallSnapShotRequest)
        → IsChained h r
        → IsBased h q.last_include_index q.last_include_term
        → r.last_included_index <ℤ q.last_include_index
        → Ensures (Chained h q.last_include_index q.last_include_term) (trim_log codec r q)
    unfolding trim_log
    trim_log-Chained r q chain (inl low) above = absurd (omega (arith, low, above, chain.1))
    trim_log-Chained r q chain (inr (x, known)) above =
        Ensures-if (ltb_ℤ q.last_include_index (last_index r)) _ _
          (λ below. Ensures-bind (log_at r (last_index r)) _ λ e found.
            Ensures-some _ (elim (Bool-cases (e.term ==ℤ q.last_include_term)) [
              | inl same ↦
                  rw same (behind e found (==ℤ→eq e.term q.last_include_term same) (ground arith))
              | inr other ↦
                  rw other (nothing_kept q.last_include_index q.last_include_term (inr (x, known)))
            ]))
          (λ _.
            Ensures-some []
              (nothing_kept q.last_include_index q.last_include_term (inr (x, known))))
      where
        behind :
            (e : LogEntry)
            → log_at r (last_index r) ≡ some e
            → e.term ≡ q.last_include_term
            → q.last_include_index <ℤ last_index r
            → Chained h q.last_include_index q.last_include_term
                (tail_from r.logs (compress_log_idx r q.last_include_index +ℤ pos 1))
        behind e found same below =
            let (d, here, term) =
              same_term_back steady r chain q.last_include_index q.last_include_term x known above
                (pos_part (last_index r -ℤ q.last_include_index)) (last_index r) e (omega int_signs)
                found same in
            subst
              (λ z.
                Chained h q.last_include_index z
                  (tail_from r.logs (compress_log_idx r q.last_include_index +ℤ pos 1)))
              term (log_at-Chained h r q.last_include_index d chain here)

    followed :
        (now : Timeval) (r : Raft) (t : ℤ)
        → IsChained h r
        → IsChained h (follow_install codec now r t)
          × ((follow_install codec now r t).state ≢ leader)
          × ((follow_install codec now r t).last_included_index ≡ r.last_included_index)
    followed now r t chain =
        let (index, term, logs, state) = same now r t in
        (
          IsChained-same r (follow_install codec now r t) index term logs chain,
          λ e. cc (sym state ∙ e),
          index,
        )
      where
        same :
            (now : Timeval) (r : Raft) (t : ℤ)
            → ((follow_install codec now r t).last_included_index ≡ r.last_included_index)
              × ((follow_install codec now r t).last_include_term ≡ r.last_include_term)
              × ((follow_install codec now r t).logs ≡ r.logs)
              × ((follow_install codec now r t).state ≡ follower)
        same now r t = unfold follow_install save_raft_state serialize in ground arith

    replaced-Chained :
        (r : Raft) (q : InstallSnapShotRequest)
        → IsChained h r
        → r.state ≢ leader
        → IsBased h q.last_include_index q.last_include_term
        → r.last_included_index <ℤ q.last_include_index
        → Ensures (λ (s : Raft). (s.state ≢ leader) × IsChained h s) (replace_snapshot codec r q)
    unfolding replace_snapshot save_raft_state serialize
    replaced-Chained r q chain no_leader based above =
        Ensures-bind (trim_log codec r q) _ λ logs run.
          Ensures-bind (get_elem? q.chunks 0) _ λ content _. Ensures-some _ (
            no_leader,
            (
              (trim_log-Chained r q chain based above).result logs run,
              omega (arith, above, chain.1),
            ),
          )

    -- A snapshot leaves the node as it was, or a follower with a log that agrees with the history.
    pub reply_install_snap-Taken :
        (now : Timeval) (r : Raft) (q : InstallSnapShotRequest)
        → IsBased h q.last_include_index q.last_include_term
        → IsChained h r
        → Ensures
            (λ (p : Raft × InstallSnapShotResponse). Taken h r p.0)
            (reply_install_snap codec now r q)
    unfolding reply_install_snap
    reply_install_snap-Taken now r q based chain =
        let f = follow_install codec now r q.term in
        let (chain', no_leader, index) = followed now r q.term chain in
        Ensures-if (ltb_ℤ q.term r.cur_term) _ _ (λ _. Ensures-some (r, _) (inl refl))
          (λ _.
            Ensures-if (leb_ℤ q.last_include_index r.last_included_index) _ _
              (λ _. Ensures-some (f, _) (inr (no_leader, chain')))
              (λ above. Ensures-bind (replace_snapshot codec f q) _ λ s run.
                Ensures-some (s, _)
                  (inr (
                    (replaced-Chained f q chain' no_leader based
                        (subst (λ z. z <ℤ q.last_include_index) (sym index) (ground arith))).result
                      s run))))
