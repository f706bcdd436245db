-- ===== src/Raft/Replicate/Mismatch.antt =====
-- An exchange whose previous entry has another term at the follower: ReplyAppend names the
-- conflict, and SendAppendEntries (both in src/RaftServer.cpp) goes back before it, or does not.
use shard_kv_raft.Base.{
  ◌≡◌, ◌≢◌, refl, sym, ap, ◌∙◌, inl, inr, false, some, ℤ, pos, List, minus_one, ◌+ℤ◌, ◌-ℤ◌, ◌≤ℤ◌,
  ◌<ℤ◌, ◌==ℤ◌, ==ℤ_iff, pos_part, neg_part, arith, if◌then◌else◌, length,
}
use mathlib.Core.Path.{subst}
use mathlib.Core.Option.{some-injective}
use shard_kv_raft.Raft.State.{
  LogEntry, Raft, Timeval, AppendEntriesRequest, AppendEntriesResponse, at,
}
use shard_kv_raft.Raft.Log.{last_index, log_at}
use shard_kv_raft.Raft.Wire.{get_cmd_and_term}
use shard_kv_raft.Raft.Append.{refusal, follow, reply_append}
use shard_kv_raft.Raft.Append.Outcome.{
  Outcome, behind, other_snapshot, short, conflict, matched, reply_append-Answers,
}
use shard_kv_raft.Raft.Append.Entries.{follow-SameBase, last_index-follow, log_at-follow}
use shard_kv_raft.Raft.Replicate.{prev_term, append_request, next_after_conflict, last_not_above}
use shard_kv_raft.Raft.Replicate.Request.{Ready, prev, sent, request, request_total, sent_back}
use shard_kv_raft.Raft.Replicate.Exchange.{exchange}
use shard_kv_raft.Raft.Replicate.Backing.{moved, respond_refused}

-- The answer of a follower whose entry at the previous index has another term.
abbrev pub conflict_answer : Raft → LogEntry → ℤ → AppendEntriesResponse
conflict_answer f e index = record (refusal f) { conflict_term = e.term; conflict_index = index }

-- What the follower has at the request's previous index.
pub record Differs (f : Raft) (at_index t : ℤ) (entry : LogEntry) : Type 0 where
  pub inside : f.last_included_index <ℤ at_index
  pub within : at_index ≤ℤ last_index f
  pub here : log_at f at_index ≡ some entry
  pub other : entry.term ≢ t

-- Of the outcomes of ReplyAppend only the conflict is left.
only_conflict :
    (f : Raft) (q : AppendEntriesRequest) (recv : List LogEntry) (a : AppendEntriesResponse)
    (e : LogEntry) (d : Differs f q.prev_log_index q.prev_log_term e) {f' : Raft}
    {a' : AppendEntriesResponse}
    → Outcome f q recv a f' a'
    → (f' ≡ f)
      × ((index : ℤ) × (f.last_included_index <ℤ index)
          × (index ≤ℤ q.prev_log_index)
          × (a' ≡ record a { conflict_term = e.term; conflict_index = index }))
only_conflict f q recv a e d (behind h) = absurd (omega (arith, d.inside))
only_conflict f q recv a e d (other_snapshot p _) =
    absurd (omega (arith, d.inside, ap pos_part p, ap neg_part p))
only_conflict f q recv a e d (short h) = absurd (omega (arith, d.within))
only_conflict f q recv a e d (conflict e' index found ne first lo hi) =
    let same = some-injective _ _ (sym found ∙ d.here) in
    (
      refl,
      (
        index,
        lo,
        hi,
        ap (λ (x : LogEntry). record a { conflict_term = x.term; conflict_index = index }) same,
      ),
    )
only_conflict f q recv a e d (matched (inl (p, _))) =
    absurd (omega (arith, d.inside, ap pos_part p, ap neg_part p))
only_conflict f q recv a e d (matched (inr (_, _, (e', found, same)))) =
    absurd
      (d.other (ap (λ (x : LogEntry). x.term) (some-injective _ _ (sym d.here ∙ found)) ∙ same))

pub Differs-follow :
    (now : Timeval) (f : Raft) (term i t : ℤ) (e : LogEntry)
    → Differs f i t e
    → Differs (follow now f term) i t e
Differs-follow now f term i t e d =
    let (base, _, _) = follow-SameBase now f term in
    record {
      inside = subst (λ z. z <ℤ i) (sym base.0) d.inside;
      within = subst (λ z. i ≤ℤ z) (sym (last_index-follow now f term)) d.within;
      here = log_at-follow now f term i ∙ d.here;
      other = d.other;
    }

reply_conflict :
    (now : Timeval) (f : Raft) (q : AppendEntriesRequest) (recv : List LogEntry)
    → get_cmd_and_term q.send_logs ≡ some recv
    → f.cur_term ≤ℤ q.term
    → (e : LogEntry) → Differs f q.prev_log_index q.prev_log_term e
    → (index : ℤ) × (f.last_included_index <ℤ index)
      × (index ≤ℤ q.prev_log_index)
      × (reply_append now f q ≡ some (follow now f q.term, conflict_answer f e index))
reply_conflict now f q recv parsed fresh e d = elim (reply_append-Answers now f q recv parsed) [
  | inl (stale, _) ↦ absurd (omega (arith, fresh))
  | inr (_, (f', a', run, outcome)) ↦
      let (same, (index, lo, hi, answer)) =
        only_conflict (follow now f q.term) q recv (refusal f) e
          (Differs-follow now f q.term q.prev_log_index q.prev_log_term e d) outcome in
      let (base, _, _) = follow-SameBase now f q.term in
      (
        index,
        subst (λ z. z <ℤ index) base.0 lo,
        hi,
        run
            ∙ ap (λ (x : Raft). some (x, a')) same
            ∙ ap (λ (x : AppendEntriesResponse). some (follow now f q.term, x)) answer,
      )
]

-- A leader and a follower whose entries at the leader's previous index have different terms.
pub record Clash (peer : ℤ) (l f : Raft) : Type 0 where
  pub ready : Ready peer l
  pub term_at : ℤ
  pub has_term : prev_term l (prev peer l ready) ≡ some term_at
  pub entry : LogEntry
  pub differs : Differs f (prev peer l ready) term_at entry
  pub fresh : f.cur_term ≤ℤ l.cur_term
  pub known : entry.term ≢ minus_one
  pub base : pos 0 ≤ℤ l.last_included_index

module _ (peer : ℤ) (l f : Raft) (c : Clash peer l f) where
  prev_index : ℤ
  prev_index = prev peer l c.ready

  asked :
      append_request l peer ≡ some (request peer l c.ready c.term_at, length (sent peer l c.ready))
  asked =
      let (t, e, run) = request_total peer l c.ready in
      run
      ∙ ap (λ x. some (request peer l c.ready x, length (sent peer l c.ready)))
          (some-injective _ _ (sym e ∙ c.has_term))

  -- The exchange, from where the leader goes on.
  pub exchange_refused :
      (P : ℤ → Type 0) (now : Timeval)
      → ((index : ℤ)
          → f.last_included_index <ℤ index
          → index ≤ℤ prev peer l c.ready
          → (next : ℤ) × (next_after_conflict l
                (prev peer l c.ready)
                (conflict_answer f c.entry index)
              ≡ some next)
            × P next)
      → (ys : List ℤ) × (next : ℤ) × (exchange now peer (l, f)
          ≡ some (moved l ys, follow now f l.cur_term))
        × (at ys peer ≡ some next)
        × P next
  unfolding exchange refusal
  exchange_refused P now goes =
      let q = request peer l c.ready c.term_at in
      let (index, lo, hi, answered) =
        reply_conflict now f q (sent peer l c.ready) (sent_back peer l c.ready c.term_at) c.fresh
          c.entry c.differs in
      let (next, after, holds) = goes index lo hi in
      let (ys, moves, here) =
        respond_refused l peer c.ready.next next q (length (sent peer l c.ready))
          (conflict_answer f c.entry index) c.ready.has_next refl c.fresh refl after in
      (ys, next, rw asked (rw answered (rw moves refl)), here, holds)

  -- The leader's search, with the answer taken apart.
  pub searched :
      (index j : ℤ)
      → last_not_above
          (pos_part (prev peer l c.ready -ℤ l.last_included_index))
          l
          (prev peer l c.ready)
          c.entry.term
        ≡ some j
      → next_after_conflict l (prev peer l c.ready) (conflict_answer f c.entry index)
        ≡ some (if j ==ℤ minus_one then index else j +ℤ pos 1)
  unfolding next_after_conflict refusal
  searched index j run = rw (unknown c.entry.term c.known) (rw run refl)
    where
      unknown : (t : ℤ) → t ≢ minus_one → (t ==ℤ minus_one) ≡ false
      unknown t h = ground (arith, ==ℤ_iff t minus_one)
