-- ===== src/Raft/Append/Taking.antt =====
-- ReplyAppend of src/RaftServer.cpp at a follower that holds the request's previous entry.
use shard_kv_raft.Base.{
  ◌≡◌, refl, sym, ap, ◌∙◌, inl, inr, true, List, some, ℤ, ◌≤ℤ◌, ◌<ℤ◌, pos_part, neg_part, int_laws,
  arith,
}
use mathlib.Core.Path.{subst}
use mathlib.Core.Option.{some-injective}
use shard_kv_raft.Raft.State.{
  LogEntry, Raft, follower, Timeval, AppendEntriesRequest, AppendEntriesResponse,
}
use shard_kv_raft.Raft.Log.{last_index}
use shard_kv_raft.Raft.Wire.{get_cmd_and_term}
use shard_kv_raft.Raft.Persist.{save_raft_state, serialize}
use shard_kv_raft.Raft.Append.{refusal, follow, advance_commit, reply_append}
use shard_kv_raft.Raft.Append.Total.{replaced}
use shard_kv_raft.Raft.Append.Outcome.{
  HasPrev, Outcome, behind, other_snapshot, short, conflict, matched, reply_append-Answers,
}
use shard_kv_raft.Raft.Append.Entries.{
  Spliced, Spliced-follow, replaced-Spliced, follow-SameBase, last_index-follow, log_at-follow,
}

-- The answer to entries that were taken.
abbrev pub taken : Raft → AppendEntriesResponse
taken f = record (refusal f) { success = true }

follow-HasPrev :
    (now : Timeval) (r : Raft) (q : AppendEntriesRequest)
    → HasPrev r q
    → HasPrev (follow now r q.term) q
follow-HasPrev now r q (inl (e, t)) =
    let (same, _, _) = follow-SameBase now r q.term in inl (e ∙ sym same.0, t ∙ sym same.1)
follow-HasPrev now r q (inr (lo, hi, (e, found, t))) =
    let (same, _, _) = follow-SameBase now r q.term in
    inr (
      subst (λ z. z <ℤ q.prev_log_index) (sym same.0) lo,
      subst (λ z. q.prev_log_index ≤ℤ z) (sym (last_index-follow now r q.term)) hi,
      (e, log_at-follow now r q.term q.prev_log_index ∙ found, t),
    )

at_base : (r : Raft) → r.last_included_index ≤ℤ last_index r
unfolding last_index
at_base r = omega int_laws

-- With the previous entry at hand only the success is left.
only_matched :
    (r : Raft) (q : AppendEntriesRequest) (recv : List LogEntry) (a : AppendEntriesResponse)
    {r' : Raft} {a' : AppendEntriesResponse}
    → HasPrev r q
    → Outcome r q recv a r' a'
    → (r' ≡ replaced r q recv) × (a' ≡ record a { success = true })
only_matched r q recv a (inl (p, _)) (behind h) =
    absurd (omega (arith, h, ap pos_part p, ap neg_part p))
only_matched r q recv a (inr (lo, _, _)) (behind h) = absurd (omega (arith, lo, h))
only_matched r q recv a (inl (_, t)) (other_snapshot p ne) = absurd (ne t)
only_matched r q recv a (inr (lo, _, _)) (other_snapshot p ne) =
    absurd (omega (arith, lo, ap pos_part p, ap neg_part p))
only_matched r q recv a (inl (p, _)) (short h) =
    absurd (omega (arith, h, at_base r, ap pos_part p, ap neg_part p))
only_matched r q recv a (inr (_, hi, _)) (short h) = absurd (omega (arith, hi, h))
only_matched r q recv a (inl (p, _)) (conflict e' index found ne first lo hi) =
    absurd (omega (arith, lo, hi, ap pos_part p, ap neg_part p))
only_matched r q recv a (inr (_, _, (e, here, t))) (conflict e' index found ne first lo hi) =
    absurd (ne (ap (λ (x : LogEntry). x.term) (some-injective _ _ (sym found ∙ here)) ∙ t))
only_matched r q recv a h (matched _) = (refl, refl)

replaced_term :
    (r : Raft) (q : AppendEntriesRequest) (recv : List LogEntry)
    → (replaced r q recv).cur_term ≡ r.cur_term
unfolding advance_commit save_raft_state serialize
replaced_term r q recv = ground arith

follow_same_term : (now : Timeval) (r : Raft) (t : ℤ) → (follow now r t).cur_term ≡ t
unfolding follow
follow_same_term now r t = refl

-- A follower that holds the previous entry takes the entries: what it is then.
pub reply_taken_as :
    (now : Timeval) (f : Raft) (q : AppendEntriesRequest) (recv : List LogEntry)
    → get_cmd_and_term q.send_logs ≡ some recv
    → f.cur_term ≤ℤ q.term
    → HasPrev f q
    → (f' : Raft) × (reply_append now f q ≡ some (f', taken f))
      × Spliced f f' q.prev_log_index recv
      × (f' ≡ replaced (follow now f q.term) q recv)
reply_taken_as now f q recv parsed fresh has = elim (reply_append-Answers now f q recv parsed) [
  | inl (stale, _) ↦ absurd (omega (arith, fresh, stale))
  | inr (_, (f', a', run, outcome)) ↦
      let g = follow now f q.term in
      let has' = follow-HasPrev now f q has in
      let (same, answer) = only_matched g q recv (refusal f) has' outcome in
      (
        replaced g q recv,
        run ∙ ap (λ x. some (x, a')) same ∙ ap (λ x. some (replaced g q recv, x)) answer,
        Spliced-follow now f (replaced g q recv) q.term q.prev_log_index recv
            (replaced-Spliced g q recv has'),
        refl,
      )
]

-- A follower that holds the previous entry takes the entries, with the request's term.
pub reply_taken :
    (now : Timeval) (f : Raft) (q : AppendEntriesRequest) (recv : List LogEntry)
    → get_cmd_and_term q.send_logs ≡ some recv
    → f.cur_term ≤ℤ q.term
    → HasPrev f q
    → (f' : Raft) × (reply_append now f q ≡ some (f', taken f))
      × Spliced f f' q.prev_log_index recv
      × (f'.cur_term ≡ q.term)
reply_taken now f q recv parsed fresh has =
    let (f', run, s, same) = reply_taken_as now f q recv parsed fresh has in
    (
      f',
      run,
      s,
      ap (λ (x : Raft). x.cur_term) same
          ∙ replaced_term (follow now f q.term) q recv
          ∙ follow_same_term now f q.term,
    )

-- No outcome behind the change to a follower changes the state.
pub outcome_state :
    (r : Raft) (q : AppendEntriesRequest) (recv : List LogEntry) (a : AppendEntriesResponse)
    {s : Raft} {b : AppendEntriesResponse}
    → Outcome r q recv a s b
    → s.state ≡ r.state
unfolding advance_commit save_raft_state serialize
outcome_state r q recv a (matched has) = ground arith
outcome_state r q recv a _ = refl

pub following : (now : Timeval) (r : Raft) (t : ℤ) → (follow now r t).state ≡ follower
unfolding follow
following now r t = refl
