-- ===== src/Raft/Append/Entries.antt =====
-- The follower's log after a successful append.
use shard_kv_raft.Base.{
  ℕ, ◌+◌, ◌<◌, ◌≡◌, refl, sym, ap, ◌∙◌, inl, inr, true, false, List, ◌++◌, some, ℤ, pos, ◌+ℤ◌, ◌-ℤ◌,
  ◌≤ℤ◌, ◌<ℤ◌, pos_part, neg_part, int_laws, int_signs, arith, length, length-append, length-take,
  get_elem?, get_elem?-take, get_elem?-append_left, get_elem?-append_right, same_run,
}
use mathlib.Core.Path.{subst}
use shard_kv_raft.Raft.State.{LogEntry, Raft, Timeval, AppendEntriesRequest, AppendEntriesResponse}
use shard_kv_raft.Raft.Log.{last_index, log_at, compress_log_idx}
use shard_kv_raft.Raft.Log.Index.{place, log_at-place}
use shard_kv_raft.Raft.Wire.{get_cmd_and_term}
use shard_kv_raft.Raft.Persist.{save_raft_state, serialize}
use shard_kv_raft.Raft.Append.{refusal, follow, advance_commit, reply_append}
use shard_kv_raft.Raft.Append.Total.{kept, replaced}
use shard_kv_raft.Raft.Append.Outcome.{
  HasPrev, Outcome, behind, other_snapshot, short, conflict, matched, reply_append-Answers,
}

-- What an append leaves alone beside the log.
abbrev pub SameBase : Raft → Raft → Type 0
SameBase r r' =
    (r'.last_included_index ≡ r.last_included_index)
    × (r'.last_include_term ≡ r.last_include_term)
    × (r'.last_applied ≡ r.last_applied)
    × (r'.peer_id ≡ r.peer_id)

pub follow-SameBase :
    (now : Timeval) (r : Raft) (term : ℤ)
    → SameBase r (follow now r term)
      × ((follow now r term).logs ≡ r.logs)
      × ((follow now r term).commit_index ≡ r.commit_index)
unfolding follow save_raft_state serialize
follow-SameBase now r term = ground arith

pub replaced-logs :
    (r : Raft) (q : AppendEntriesRequest) (recv : List LogEntry)
    → SameBase r (replaced r q recv) × ((replaced r q recv).logs ≡ kept r q.prev_log_index ++ recv)
unfolding advance_commit save_raft_state serialize
replaced-logs r q recv = ground arith

HasPrev-bounds :
    (r : Raft) (q : AppendEntriesRequest)
    → HasPrev r q
    → (r.last_included_index ≤ℤ q.prev_log_index) × (q.prev_log_index ≤ℤ last_index r)
unfolding last_index
HasPrev-bounds r q (inl (e, t)) =
    (omega (int_laws, ap pos_part e, ap neg_part e), omega (int_laws, ap pos_part e, ap neg_part e))
HasPrev-bounds r q (inr (lo, hi, x)) = (omega arith, hi)

length-kept :
    (r : Raft) (index : ℤ)
    → r.last_included_index ≤ℤ index
    → index ≤ℤ last_index r
    → length (kept r index) ≡ pos_part (index -ℤ r.last_included_index)
unfolding last_index
length-kept r index lo hi = length-take _ r.logs (omega int_signs)

-- The log of `r'` is that of `r` up to `prev`, and the entries `recv` behind it.
pub record Spliced (r r' : Raft) (prev : ℤ) (recv : List LogEntry) : Type 0 where
  pub base : SameBase r r'
  pub last : last_index r' ≡ prev +ℤ pos (length recv)
  pub before : (i : ℤ) → r.last_included_index <ℤ i → i ≤ℤ prev → log_at r' i ≡ log_at r i
  pub behind_prev : (k : ℕ) → log_at r' (prev +ℤ pos 1 +ℤ pos k) ≡ get_elem? recv k

module _ (r r' : Raft) (prev : ℤ) (recv : List LogEntry) (base : SameBase r r')
    (logs : r'.logs ≡ kept r prev ++ recv) (lo : r.last_included_index ≤ℤ prev)
    (hi : prev ≤ℤ last_index r) where
  size : length r'.logs ≡ pos_part (prev -ℤ r.last_included_index) + length recv
  size =
      ap length logs
      ∙ length-append (kept r prev) recv
      ∙ ap (λ n. n + length recv) (length-kept r prev lo hi)

  splice_last : last_index r' ≡ prev +ℤ pos (length recv)
  unfolding last_index
  splice_last = omega (int_signs, size, ap pos_part (base.0), ap neg_part (base.0))

  splice_place : (i : ℤ) → place r' i ≡ place r i
  splice_place i = ap (λ z. pos_part (i -ℤ z -ℤ pos 1)) base.0

  splice_before : (i : ℤ) → r.last_included_index <ℤ i → i ≤ℤ prev → log_at r' i ≡ log_at r i
  splice_before i above below =
      log_at-place r' i (subst (λ z. z <ℤ i) (sym base.0) above)
      ∙ ap (get_elem? r'.logs) (splice_place i)
      ∙ ap (λ l. get_elem? l (place r i)) logs
      ∙ get_elem?-append_left (kept r prev) recv (place r i) inside
      ∙ get_elem?-take (pos_part (prev -ℤ r.last_included_index)) r.logs (place r i)
          (omega int_signs)
      ∙ sym (log_at-place r i above)
    where
      inside : place r i < length (kept r prev)
      inside = omega (int_signs, length-kept r prev lo hi)

  splice_behind : (k : ℕ) → log_at r' (prev +ℤ pos 1 +ℤ pos k) ≡ get_elem? recv k
  splice_behind k =
      log_at-place r' i (subst (λ z. z <ℤ i) (sym base.0) (omega int_laws))
      ∙ ap (get_elem? r'.logs) (splice_place i ∙ omega (int_signs, length-kept r prev lo hi))
      ∙ ap (λ l. get_elem? l (length (kept r prev) + k)) logs
      ∙ get_elem?-append_right (kept r prev) recv k
    where
      i : ℤ
      i = prev +ℤ pos 1 +ℤ pos k

  pub splice : Spliced r r' prev recv
  splice = record {
    base = base;
    last = splice_last;
    before = splice_before;
    behind_prev = splice_behind;
  }

pub replaced-Spliced :
    (r : Raft) (q : AppendEntriesRequest) (recv : List LogEntry)
    → HasPrev r q
    → Spliced r (replaced r q recv) q.prev_log_index recv
replaced-Spliced r q recv h =
    let (base, logs) = replaced-logs r q recv in
    let (lo, hi) = HasPrev-bounds r q h in
    splice r (replaced r q recv) q.prev_log_index recv base logs lo hi

pub follow_term : (now : Timeval) (f : Raft) (t : ℤ) → (follow now f t).cur_term ≤ℤ t
unfolding follow
follow_term now f t = omega arith

pub log_at-follow :
    (now : Timeval) (r : Raft) (term i : ℤ) → log_at (follow now r term) i ≡ log_at r i
unfolding follow save_raft_state serialize log_at compress_log_idx
log_at-follow now r term i = ground arith

pub last_index-follow :
    (now : Timeval) (r : Raft) (term : ℤ) → last_index (follow now r term) ≡ last_index r
unfolding follow save_raft_state serialize last_index
last_index-follow now r term = ground arith

pub Spliced-follow :
    (now : Timeval) (r r' : Raft) (term prev : ℤ) (recv : List LogEntry)
    → Spliced (follow now r term) r' prev recv
    → Spliced r r' prev recv
Spliced-follow now r r' term prev recv s =
    let (same, _, _) = follow-SameBase now r term in
    record {
      base = (s.base.0 ∙ same.0, s.base.1 ∙ same.1, s.base.2 ∙ same.2, s.base.3 ∙ same.3);
      last = s.last;
      before = λ i above below.
          s.before i (subst (λ z. z <ℤ i) (sym same.0) above) below ∙ log_at-follow now r term i;
      behind_prev = s.behind_prev;
    }

pub HasPrev-follow :
    (now : Timeval) (r : Raft) (q : AppendEntriesRequest)
    → HasPrev (follow now r q.term) q
    → HasPrev r q
HasPrev-follow now r q (inl (e, t)) =
    let (same, _, _) = follow-SameBase now r q.term in inl (e ∙ same.0, t ∙ same.1)
HasPrev-follow now r q (inr (lo, hi, (e, found, t))) =
    let (same, _, _) = follow-SameBase now r q.term in
    inr (
      subst (λ z. z <ℤ q.prev_log_index) same.0 lo,
      subst (λ z. q.prev_log_index ≤ℤ z) (last_index-follow now r q.term) hi,
      (e, sym (log_at-follow now r q.term q.prev_log_index) ∙ found, t),
    )

outcome_success :
    (r : Raft) (q : AppendEntriesRequest) (recv : List LogEntry) (a : AppendEntriesResponse)
    {r' : Raft} {a' : AppendEntriesResponse}
    → a.success ≡ false
    → a'.success ≡ true
    → Outcome r q recv a r' a'
    → HasPrev r q × (r' ≡ replaced r q recv)
outcome_success r q recv a refused s (behind _) = cc
outcome_success r q recv a refused s (other_snapshot _ _) = cc
outcome_success r q recv a refused s (short _) = cc
outcome_success r q recv a refused s (conflict _ _ _ _ _ _ _) = cc
outcome_success r q recv a refused s (matched h) = (h, refl)

-- A successful append keeps the log up to the request's previous entry, which the node holds, and
-- has the received entries, and no other, behind it.
pub reply_append-Spliced :
    (now : Timeval) (r : Raft) (q : AppendEntriesRequest) (recv : List LogEntry) (r' : Raft)
    (a' : AppendEntriesResponse)
    → get_cmd_and_term q.send_logs ≡ some recv
    → reply_append now r q ≡ some (r', a')
    → a'.success ≡ true
    → (r.cur_term ≤ℤ q.term) × HasPrev r q × Spliced r r' q.prev_log_index recv
reply_append-Spliced now r q recv r' a' parsed run success =
    elim (reply_append-Answers now r q recv parsed) [
      | inl (stale, e) ↦ absurd (refused (same_run run e).1)
      | inr (fresh, (f, b, e, outcome)) ↦
          let (same, answer) = same_run run e in
          let (prev, end) =
            outcome_success (follow now r q.term) q recv (refusal r) (unfold refusal in refl)
              (subst (λ (x : AppendEntriesResponse). x.success ≡ true) answer success) outcome in
          (
            fresh,
            HasPrev-follow now r q prev,
            Spliced-follow now r r' q.term q.prev_log_index recv (
                subst (λ x. Spliced (follow now r q.term) x q.prev_log_index recv)
                  (sym (same ∙ end)) (replaced-Spliced (follow now r q.term) q recv prev)),
          )
    ]
  where
    refused : a' ≡ refusal r → ⊥
    refused e = unfold refusal in cc
