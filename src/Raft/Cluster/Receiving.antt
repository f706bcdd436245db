-- ===== src/Raft/Cluster/Receiving.antt =====
-- A node that takes a request of the network: ReplyAppend and ReplyInstallSnap leave logs that
-- agree with the history.
use shard_kv_raft.Base.{
  get_elem?-lt, ℕ, zero, suc, ◌≡◌, ◌≢◌, refl, sym, ap, ◌∙◌, ◌⊎◌, inl, inr, List, [], ◌∷◌, ◌++◌,
  some, ℤ, pos, ◌+ℤ◌, ◌-ℤ◌, pos_part, neg_part, int_laws, int_signs, arith, length, length-take,
  take, All, All-append, same_run,
}
use mathlib.Core.Path.{subst}
use shard_kv_raft.Raft.State.{
  LogEntry, Raft, leader, follower, Timeval, AppendEntriesRequest, AppendEntriesResponse,
}
use shard_kv_raft.Raft.Log.{back_term}
use shard_kv_raft.Raft.Log.Index.{log_at-some}
use shard_kv_raft.Raft.Wire.Entries.{IsClean}
use shard_kv_raft.Raft.Persist.{save_raft_state, serialize}
use shard_kv_raft.Raft.Append.{follow, advance_commit, refusal, reply_append}
use shard_kv_raft.Raft.Append.Total.{kept, replaced}
use shard_kv_raft.Raft.Append.Outcome.{
  HasPrev, Outcome, behind, other_snapshot, short, conflict, matched, reply_append-Answers,
}
use shard_kv_raft.Raft.Append.Entries.{replaced-logs, follow-SameBase}
use shard_kv_raft.Raft.Cluster.Links.{History, Linked, Linked-append, Linked-take, back_term-take}
use shard_kv_raft.Raft.Cluster.Chains.{IsChained, IsChained-same, Carries}

All-take : (n : ℕ) (es : List LogEntry) → All (IsClean b';') es → All (IsClean b';') (take n es)
All-take zero es h = tt
All-take (suc n) [] h = tt
All-take (suc n) (e ∷ es) (he, hes) = (he, All-take n es hes)

-- The node is as it was, or it follows with a log that agrees with the history.
abbrev pub Taken : History → Raft → Raft → Type 0
Taken h r s = (s ≡ r) ⊎ ((s.state ≢ leader) × IsChained h s)

module _ (h : History) where
  -- The entries up to one that is there, as an append keeps them.
  kept-HasPrev :
      (r : Raft) (q : AppendEntriesRequest)
      → HasPrev r q
      → (r.last_included_index +ℤ pos (length (kept r q.prev_log_index)) ≡ q.prev_log_index)
        × (back_term r.last_include_term (kept r q.prev_log_index) ≡ q.prev_log_term)
  kept-HasPrev r q (inl (e, t)) =
      let none_kept : pos_part (q.prev_log_index -ℤ r.last_included_index) ≡ 0 =
        omega (int_signs, ap pos_part e, ap neg_part e) in
      rw none_kept (omega (int_laws, ap pos_part e, ap neg_part e), unfold back_term in sym t)
  kept-HasPrev r q (inr (lo, hi, (e, found, t))) =
      let (n, place, here) = log_at-some r q.prev_log_index e found in
      let count : pos_part (q.prev_log_index -ℤ r.last_included_index) ≡ suc n =
        omega (int_signs, ap pos_part place, ap neg_part place) in
      let size = length-take (suc n) r.logs (get_elem?-lt r.logs n e here) in
      rw count (
        ap (λ k. r.last_included_index +ℤ pos k) size ∙ sym place,
        back_term-take r.last_include_term n r.logs e here ∙ t,
      )

  replaced-IsChained :
      (r : Raft) (q : AppendEntriesRequest) (c : Carries h q)
      → HasPrev r q
      → IsChained h r
      → IsChained h (replaced r q c.entries)
  replaced-IsChained r q c has (chain, low) =
      let (base, logs) = replaced-logs r q c.entries in
      let (size, term) = kept-HasPrev r q has in
      let n = pos_part (q.prev_log_index -ℤ r.last_included_index) in
      IsChained-same (record r { logs = kept r q.prev_log_index ++ c.entries })
        (replaced r q c.entries) (base.0) (base.1) logs
        (
          record {
            linked =
                Linked-append h r.last_included_index r.last_include_term (kept r q.prev_log_index)
                  c.entries
                  (Linked-take h r.last_included_index r.last_include_term n r.logs chain.linked)
                  (subst
                    (λ z.
                      Linked h z (back_term r.last_include_term (kept r q.prev_log_index))
                        c.entries)
                    (sym size)
                    (subst (λ z. Linked h q.prev_log_index z c.entries) (sym term) c.linked));
            clean =
                All-append _ (kept r q.prev_log_index) c.entries (All-take n r.logs chain.clean)
                  c.clean;
            based = chain.based;
          },
          low,
        )

  outcome-Taken :
      (r : Raft) (q : AppendEntriesRequest) (c : Carries h q) (a : AppendEntriesResponse) {s : Raft}
      {b : AppendEntriesResponse}
      → IsChained h r
      → Outcome r q c.entries a s b
      → IsChained h s × (s.state ≡ r.state)
  outcome-Taken r q c a chain (behind _) = (chain, refl)
  outcome-Taken r q c a chain (other_snapshot _ _) = (chain, refl)
  outcome-Taken r q c a chain (short _) = (chain, refl)
  outcome-Taken r q c a chain (conflict _ _ _ _ _ _ _) = (chain, refl)
  outcome-Taken r q c a chain (matched has) = (replaced-IsChained r q c has chain, same_state)
    where
      same_state : (replaced r q c.entries).state ≡ r.state
      same_state = unfold advance_commit save_raft_state serialize in ground arith

  -- An append leaves the node as it was, or a follower with a log that agrees with the history.
  pub reply_append-Taken :
      (now : Timeval) (r : Raft) (q : AppendEntriesRequest) (s : Raft) (a : AppendEntriesResponse)
      → Carries h q
      → IsChained h r
      → reply_append now r q ≡ some (s, a)
      → Taken h r s
  reply_append-Taken now r q s a c chain run =
      elim (reply_append-Answers now r q c.entries c.parsed) [
        | inl (_, e) ↦ inl ((same_run run e).0)
        | inr (_, (f, b, e, outcome)) ↦
            let g = follow now r q.term in
            let (base, logs, _) = follow-SameBase now r q.term in
            let (chained, state) =
              outcome-Taken g q c (refusal r) (IsChained-same r g (base.0) (base.1) logs chain)
                outcome in
            let same = (same_run run e).0 in
            inr (
              λ leads.
                  follower_now g (following now r q.term)
                    (sym state ∙ ap (λ (x : Raft). x.state) (sym same) ∙ leads),
              subst (IsChained h) (sym same) chained,
            )
      ]
    where
      following : (now : Timeval) (r : Raft) (t : ℤ) → (follow now r t).state ≡ follower
      following now r t = unfold follow in refl

      follower_now : (g : Raft) → g.state ≡ follower → g.state ≡ leader → ⊥
      follower_now g e p = cc
