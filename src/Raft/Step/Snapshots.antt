-- ===== src/Raft/Step/Snapshots.antt =====
-- The steps that handle snapshots leave the vote alone, but for a newer term.
use shard_kv_raft.Base.{
  ◌∙◌, refl, inl, Option, none, some, Ensures, Ensures-some, Ensures-if, Ensures-bind, ℤ, pos,
  minus_one, ◌+ℤ◌, ◌<ℤ◌, ◌≤ℤ◌, ◌==ℤ◌, ltb_ℤ, leb_ℤ, eq_of_parts, arith, get_elem?,
}
use shard_kv_raft.Text.{Bytes}
use shard_kv_raft.Raft.State.{
  Raft, follower, Timeval, InstallSnapShotRequest, InstallSnapShotResponse, put,
}
use shard_kv_raft.Raft.Log.{last_index, log_at}
use shard_kv_raft.Raft.Persist.{save_raft_state, serialize}
use shard_kv_raft.Raft.Snapshot.{
  Codec, compact, store_snapshot, read_snapshot, recv_snapshot, trim_log, follow_install,
  replace_snapshot, reply_install_snap, install_request, on_install_response,
}
use shard_kv_raft.Raft.Replicate.Vectors.{put-length}
use shard_kv_raft.Raft.Step.Terms.{SameVote, Advances, SameVote-Advances, Advances-then}
use shard_kv_raft.Raft.Step.Appends.{advanced}

module _ (codec : Codec) where
  read_snapshot-SameVote : (r : Raft) → SameVote r (read_snapshot codec r).0
  unfolding read_snapshot
  read_snapshot-SameVote r = ground arith

  pub install_request-SameVote : (r : Raft) → SameVote r (install_request codec r).0
  unfolding install_request
  install_request-SameVote r = read_snapshot-SameVote r

  store_snapshot-SameVote :
      (b : Bytes) (i : ℤ) (r s : Raft) → SameVote r s → SameVote r (store_snapshot codec b i s)
  unfolding store_snapshot save_raft_state serialize
  store_snapshot-SameVote b i r s h = h

  IsCompacted : Raft → Option Raft → Type 0
  IsCompacted r none = Unit
  IsCompacted r (some s) = SameVote r s

  compact-SameVote : (r : Raft) (i : ℤ) → Ensures (IsCompacted r) (compact r i)
  unfolding compact IsCompacted
  compact-SameVote r i =
      Ensures-if (ltb_ℤ i r.last_included_index) _ _ (λ _. Ensures-some none tt)
        λ _.
          Ensures-bind (log_at r i) _
            λ e _. Ensures-some (some _) (refl, refl, refl, refl, (refl, refl, refl))

  stored :
      (b : Bytes) (i : ℤ) (r : Raft) (kept : Option Raft)
      → IsCompacted r kept
      → SameVote r (elim kept [ none ↦ r | some s ↦ store_snapshot codec b i s ])
  unfolding IsCompacted
  stored b i r none h = (refl, refl, refl, refl, (refl, refl, refl))
  stored b i r (some s) h = store_snapshot-SameVote b i r s h

  pub recv_snapshot-SameVote :
      (r : Raft) (b : Bytes) (i : ℤ) → Ensures (SameVote r) (recv_snapshot codec r b i)
  unfolding recv_snapshot
  recv_snapshot-SameVote r b i =
      Ensures-bind (compact r i) _
        λ kept run. Ensures-some _ (stored b i r kept ((compact-SameVote r i).result kept run))

  follow_install-Advances :
      (now : Timeval) (r : Raft) (term : ℤ)
      → r.cur_term ≤ℤ term
      → Advances r (follow_install codec now r term)
  unfolding follow_install save_raft_state serialize
  follow_install-Advances now r term h = ground (arith, eq_of_parts r.cur_term term)

  replace_snapshot-SameVote :
      (r : Raft) (q : InstallSnapShotRequest) → Ensures (SameVote r) (replace_snapshot codec r q)
  unfolding replace_snapshot save_raft_state serialize
  replace_snapshot-SameVote r q = Ensures-bind (trim_log codec r q) _ λ logs _.
      Ensures-bind (get_elem? q.chunks 0) _
        λ content _. Ensures-some _ (refl, refl, refl, refl, (refl, refl, refl))

  pub reply_install_snap-Advances :
      (now : Timeval) (r : Raft) (q : InstallSnapShotRequest)
      → Ensures
          (λ (p : Raft × InstallSnapShotResponse). Advances r p.0)
          (reply_install_snap codec now r q)
  unfolding reply_install_snap
  reply_install_snap-Advances now r q =
      let f = follow_install codec now r q.term in
      Ensures-if (ltb_ℤ q.term r.cur_term) _ _
        (λ _. Ensures-some (r, _) (SameVote-Advances (refl, refl, refl, refl, (refl, refl, refl))))
        (λ fresh.
          Ensures-if (leb_ℤ q.last_include_index r.last_included_index) _ _
            (λ _. Ensures-some (f, _) (follow_install-Advances now r q.term (ground arith)))
            (λ _. Ensures-bind (replace_snapshot codec f q) _ λ s run.
              Ensures-some (s, _)
                (Advances-then (follow_install-Advances now r q.term (ground arith))
                  ((replace_snapshot-SameVote f q).result s run))))

  stepped_down-Advances :
      (r : Raft) (term : ℤ)
      → r.cur_term <ℤ term
      → Advances r
          (save_raft_state (record r { state = follower; cur_term = term; vote_for = minus_one }))
  unfolding save_raft_state serialize
  stepped_down-Advances r term h = record {
    peer = refl;
    ballot = inl h;
    size = (refl, refl, refl);
    stands = λ e. cc;
  }

  pub on_install_response-Advances :
      (r : Raft) (peer : ℤ) (q : InstallSnapShotRequest) (a : InstallSnapShotResponse)
      → Ensures (Advances r) (on_install_response codec r peer q a)
  unfolding on_install_response
  on_install_response-Advances r peer q a =
      Ensures-if (r.cur_term ==ℤ a.term) _ _
        (λ _.
          Ensures-if (ltb_ℤ r.cur_term a.term) _ _
            (λ newer. Ensures-some _ (stepped_down-Advances r a.term (ground arith)))
            (λ _.
              Ensures-bind (put r.next_index peer (last_index r +ℤ pos 1)) _ λ next_index put_next.
                Ensures-bind (put r.match_index peer q.last_include_index) _ λ match_peer put_peer.
                  Ensures-bind (put match_peer r.peer_id (last_index r)) _ λ match_index put_own.
                    record {
                      result = λ s run. SameVote-Advances (
                          (advanced r next_index match_index
                              (put-length r.next_index next_index peer _ put_next)
                              (put-length match_peer match_index r.peer_id _ put_own
                                ∙ put-length r.match_index match_peer peer _ put_peer)).result
                            s run);
                    }))
        (λ _. Ensures-some r (SameVote-Advances (refl, refl, refl, refl, (refl, refl, refl))))
