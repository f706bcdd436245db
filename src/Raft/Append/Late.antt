-- ===== src/Raft/Append/Late.antt =====
-- A request of ReplyAppend in src/RaftServer.cpp that comes in behind a later one.
use shard_kv_raft.Base.{
  ◌<◌, ◌≡◌, sym, ap, ◌∙◌, inl, inr, List, some, pos, ◌+ℤ◌, ◌≤ℤ◌, ◌<ℤ◌, int_laws, arith, length,
}
use mathlib.Core.Path.{subst}
use shard_kv_raft.Raft.State.{LogEntry, Raft, Timeval, AppendEntriesRequest}
use shard_kv_raft.Raft.Log.{last_index, log_at}
use shard_kv_raft.Raft.Wire.{get_cmd_and_term}
use shard_kv_raft.Raft.Append.{reply_append}
use shard_kv_raft.Raft.Append.Outcome.{HasPrev}
use shard_kv_raft.Raft.Append.Entries.{Spliced}
use shard_kv_raft.Raft.Append.Taking.{taken, reply_taken}

-- Two requests of one leader with the same previous entry.
abbrev pub SamePrev : AppendEntriesRequest → AppendEntriesRequest → Type 0
SamePrev q p =
    (p.term ≡ q.term) × (p.prev_log_index ≡ q.prev_log_index) × (p.prev_log_term ≡ q.prev_log_term)

-- The previous entry is still there behind the first request.
HasPrev-Spliced :
    (r r' : Raft) (q p : AppendEntriesRequest) (recv : List LogEntry)
    → SamePrev q p
    → HasPrev r q
    → Spliced r r' q.prev_log_index recv
    → HasPrev r' p
HasPrev-Spliced r r' q p recv (_, index, term) (inl (e, t)) s =
    inl (index ∙ e ∙ sym s.base.0, term ∙ t ∙ sym s.base.1)
HasPrev-Spliced r r' q p recv (_, index, term) (inr (lo, hi, (e, here, t))) s = inr (
  subst (λ z. r'.last_included_index <ℤ z) (sym index)
      (subst (λ z. z <ℤ q.prev_log_index) (sym s.base.0) lo),
  subst (λ z. z ≤ℤ last_index r') (sym index)
      (subst (λ z. q.prev_log_index ≤ℤ z) (sym s.last) (omega int_laws)),
  (e, ap (log_at r') index ∙ s.before q.prev_log_index lo (omega arith) ∙ here, t ∙ sym term),
)

-- Let a node whose term is not above the requests' hold the previous entry of two requests of one
-- term, which name the same one, and let the second have fewer entries than the first. Then the node
-- takes both, one after the other, and the second makes its log shorter than the first left it: it
-- ends behind the entries of the second.
pub late_append_drops :
    (now later : Timeval) (f : Raft) (q p : AppendEntriesRequest) (first second : List LogEntry)
    → get_cmd_and_term q.send_logs ≡ some first
    → get_cmd_and_term p.send_logs ≡ some second
    → length second < length first
    → SamePrev q p
    → f.cur_term ≤ℤ q.term
    → HasPrev f q
    → (f1 f2 : Raft) × (reply_append now f q ≡ some (f1, taken f))
      × (reply_append later f1 p ≡ some (f2, taken f1))
      × (last_index f1 ≡ q.prev_log_index +ℤ pos (length first))
      × (last_index f2 ≡ q.prev_log_index +ℤ pos (length second))
      × (last_index f2 <ℤ last_index f1)
late_append_drops now later f q p first second parsed_q parsed_p fewer alike fresh has =
    let (f1, run1, s1, term1) = reply_taken now f q first parsed_q fresh has in
    let same_term = term1 ∙ sym alike.0 in
    let (f2, run2, s2, _) =
      reply_taken later f1 p second parsed_p
        (subst (λ z. z ≤ℤ p.term) (sym same_term) (omega arith))
        (HasPrev-Spliced f f1 q p first alike has s1) in
    let last2 = s2.last ∙ ap (λ z. z +ℤ pos (length second)) alike.1 in
    (
      f1,
      f2,
      run1,
      run2,
      s1.last,
      last2,
      subst (λ z. z <ℤ last_index f1) (sym last2)
          (subst (λ z. q.prev_log_index +ℤ pos (length second) <ℤ z) (sym s1.last)
            (omega (int_laws, fewer))),
    )
