-- ===== src/Raft/Cluster/OnlyAppends.antt =====
-- A leader of src/RaftServer.cpp and its own log: what its steps do to it while it leads.
use shard_kv_raft.Base.{
  ℕ, ◌≡◌, ◌≢◌, refl, sym, ap, ◌∙◌, ◌⊎◌, inl, inr, [], ◌∷◌, none, some, >>=-eq-some, ℤ, pos, ◌+ℤ◌,
  ◌≤ℤ◌, ◌<ℤ◌, ltb_ℤ, leb_ℤ, pos_part, neg_part, int_laws, int_signs, arith, get_elem?,
  get_elem?-append_left, Ensures, Ensures-some, Ensures-if, Ensures-bind, same_run,
}
use mathlib.Core.Path.{subst}
use shard_kv_raft.Raft.State.{
  LogEntry, Raft, RaftState, leader, follower, Timeval, AppendEntriesRequest, AppendEntriesResponse,
  InstallSnapShotRequest, InstallSnapShotResponse,
}
use shard_kv_raft.Raft.Log.{last_index, push_back_log}
use shard_kv_raft.Raft.Log.Index.{place, log_at-place}
use shard_kv_raft.Raft.Wire.{get_cmd, get_cmd_and_term}
use shard_kv_raft.Raft.Persist.{save_raft_state, serialize}
use shard_kv_raft.Raft.Append.{follow, refusal, reply_append}
use shard_kv_raft.Raft.Append.Outcome.{reply_append-Answers}
use shard_kv_raft.Raft.Append.Taking.{outcome_state, following}
use shard_kv_raft.Raft.Snapshot.{
  Codec, trim_log, follow_install, replace_snapshot, reply_install_snap,
}
use shard_kv_raft.Raft.Step.{
  Step, votes, counts, times_out, elects, submits, follows, leads, applies, compacts, installs,
  sends_snapshot, sent_snapshot, Steps, here, next,
}
use shard_kv_raft.Raft.Step.Ballot.{Steps-term_le}
use shard_kv_raft.Raft.Step.Leaders
use shard_kv_raft.Raft.Cluster.Growing.{last_index-push}
use shard_kv_raft.Raft.Cluster.Keeping.{Grows, Grows-trans, Keeps, Won, local-Keeps}
use shard_kv_raft.Raft.Cluster.Moving.{start_cases}

Grows-refl : (r : Raft) → Grows r r
Grows-refl r = record { reach = omega arith; base = omega arith; same = λ i lo hi. refl }

push-Grows : (e : LogEntry) (r : Raft) → Grows r (push_back_log e r)
push-Grows e r = record {
  reach = omega (int_laws, ap pos_part more, ap neg_part more);
  base = omega (int_laws, ap pos_part base, ap neg_part base);
  same = λ i lo hi.
      log_at-place (push_back_log e r) i lo
      ∙ front i (place r i) (subst (λ z. z <ℤ i) base lo) hi
      ∙ sym (log_at-place r i (subst (λ z. z <ℤ i) base lo));
}
  where
    more : last_index (push_back_log e r) ≡ last_index r +ℤ pos 1
    more = last_index-push (λ _ _. none) r e

    base : (push_back_log e r).last_included_index ≡ r.last_included_index
    base = unfold push_back_log in refl

    front :
        (i : ℤ) (k : ℕ)
        → r.last_included_index <ℤ i
        → i ≤ℤ last_index r
        → get_elem? (push_back_log e r).logs (place (push_back_log e r) i)
          ≡ get_elem? r.logs (place r i)
    front i k lo hi =
        unfold push_back_log last_index in
        get_elem?-append_left r.logs (e ∷ []) (place r i) (omega int_signs)

-- The node is as it was, or it does not lead.
abbrev Defers : Raft → Raft → Type 0
Defers r s = (s ≡ r) ⊎ (s.state ≢ leader)

no_leader : (s : RaftState) → s ≡ follower → s ≢ leader
no_leader s p q = cc

reply_append-Defers :
    (now : Timeval) (r : Raft) (q : AppendEntriesRequest) (s : Raft) (a : AppendEntriesResponse)
    → reply_append now r q ≡ some (s, a)
    → Defers r s
unfolding reply_append
reply_append-Defers now r q s a run =
    let (recv, parsed, _) = >>=-eq-some (get_cmd_and_term q.send_logs) _ run in
    elim (reply_append-Answers now r q recv parsed) [
      | inl (_, e) ↦ inl (same_run run e).0
      | inr (_, (f, b, e, outcome)) ↦
          let same = (same_run run e).0 in
          inr (
            no_leader s.state (
              ap (λ (x : Raft). x.state) same
              ∙ outcome_state (follow now r q.term) q recv (refusal r) outcome
              ∙ following now r q.term))
    ]

module _ (codec : Codec) where
  follow_install_state :
      (now : Timeval) (r : Raft) (t : ℤ) → (follow_install codec now r t).state ≡ follower
  unfolding follow_install
  follow_install_state now r t = refl

  replaced_state :
      (r : Raft) (q : InstallSnapShotRequest)
      → Ensures (λ (s : Raft). s.state ≡ r.state) (replace_snapshot codec r q)
  unfolding replace_snapshot save_raft_state serialize
  replaced_state r q =
      Ensures-bind (trim_log codec r q) _
        λ logs _. Ensures-bind (get_elem? q.chunks 0) _ λ content _. Ensures-some _ refl

  reply_install_snap-Defers :
      (now : Timeval) (r : Raft) (q : InstallSnapShotRequest)
      → Ensures
          (λ (p : Raft × InstallSnapShotResponse). Defers r p.0)
          (reply_install_snap codec now r q)
  unfolding reply_install_snap
  reply_install_snap-Defers now r q =
      let f = follow_install codec now r q.term in
      Ensures-if (ltb_ℤ q.term r.cur_term) _ _ (λ _. Ensures-some (r, _) (inl refl))
        (λ _.
          Ensures-if (leb_ℤ q.last_include_index r.last_included_index) _ _
            (λ _. Ensures-some (f, _) (inr (no_leader f.state (follow_install_state now r q.term))))
            (λ _. Ensures-bind (replace_snapshot codec f q) _ λ s run.
              Ensures-some (s, _)
                (inr (
                  no_leader s.state
                    ((replaced_state f q).result s run ∙ follow_install_state now r q.term)))))

  -- Who leads behind a step has led before it and its log has grown, or it is new in its term.
  abbrev Leads : Raft → Raft → Type 0
  Leads r s =
      ((r.state ≡ leader) × (s.cur_term ≡ r.cur_term) × Grows r s)
      ⊎ (s.cur_term ≡ r.cur_term +ℤ pos 1)

  kept-Leads : (r s : Raft) → s ≡ r → s.state ≡ leader → Leads r s
  kept-Leads r s same e =
      subst (Leads r) (sym same)
        (inl (sym (ap (λ (x : Raft). x.state) same) ∙ e, refl, Grows-refl r))

  deferred-Leads : (r s : Raft) → Defers r s → s.state ≡ leader → Leads r s
  deferred-Leads r s (inl same) e = kept-Leads r s same e
  deferred-Leads r s (inr other) e = absurd (other e)

  local-Leads : (r s : Raft) → Keeps r s ⊎ Won r s → s.state ≡ leader → Leads r s
  local-Leads r s (inl k) e = let (was, term) = k.leads e in inl (was, term, k.grows)
  local-Leads r s (inr w) e = inr (Leaders.won w.now r s w.run w.stood w.leads).0

  pushed-Leads : (e : LogEntry) (r : Raft) → r.state ≡ leader → Leads r (push_back_log e r)
  pushed-Leads e r was = inl (was, unfold push_back_log in refl, push-Grows e r)

  Step-Leads : {r s : Raft} → Step codec r s → s.state ≡ leader → Leads r s
  Step-Leads {r} {s} (submits op e) l = elim (start_cases r op) [
    | inl (was, pushed) ↦
        subst (Leads r) (sym (e ∙ pushed))
          (pushed-Leads (record { cmd = get_cmd op; term = r.cur_term }) r was)
    | inr same ↦ kept-Leads r s (e ∙ same) l
  ]
  Step-Leads {r} {s} (follows now q a e) l =
      deferred-Leads r s (reply_append-Defers now r q s a e) l
  Step-Leads {r} {s} (installs now q a e) l =
      deferred-Leads r s ((reply_install_snap-Defers now r q).result (s, a) e) l
  Step-Leads {r} {s} (votes now q e) l = local-Leads r s (local-Keeps codec (votes now q e) tt) l
  Step-Leads {r} {s} (counts now a e) l = local-Leads r s (local-Keeps codec (counts now a e) tt) l
  Step-Leads {r} {s} (times_out now t e) l =
      local-Leads r s (local-Keeps codec (times_out now t e) tt) l
  Step-Leads {r} {s} (elects now e) l = local-Leads r s (local-Keeps codec (elects now e) tt) l
  Step-Leads {r} {s} (leads peer q n a e) l =
      local-Leads r s (local-Keeps codec (leads peer q n a e) tt) l
  Step-Leads {r} {s} (applies e) l = local-Leads r s (local-Keeps codec (applies e) tt) l
  Step-Leads {r} {s} (compacts b i e) l = local-Leads r s (local-Keeps codec (compacts b i e) tt) l
  Step-Leads {r} {s} (sends_snapshot e) l =
      local-Leads r s (local-Keeps codec (sends_snapshot e) tt) l
  Step-Leads {r} {s} (sent_snapshot peer q a e) l =
      local-Leads r s (local-Keeps codec (sent_snapshot peer q a e) tt) l

  -- From a state of a node to a later one in which it leads in the same term, through any steps,
  -- the node has led all the time: its log reaches as far as before or further, and each entry that
  -- it had and that is not in its snapshot now is as it was.
  pub leader_only_appends :
      {r s : Raft}
      → Steps codec r s
      → s.state ≡ leader
      → s.cur_term ≡ r.cur_term
      → (r.state ≡ leader) × Grows r s
  leader_only_appends {r} here l same = (l, Grows-refl r)
  leader_only_appends {r} {s} (next {s = u} before st) l same = elim (Step-Leads st l) [
    | inl (was, term, grows) ↦
        let (first, rest) = leader_only_appends before was (sym term ∙ same) in
        (first, Grows-trans r u s rest grows)
    | inr new ↦
        let (le, _) = Steps-term_le codec before in
        absurd (
          omega
            (int_laws, le, ap pos_part new, ap neg_part new, ap pos_part same, ap neg_part same))
  ]
