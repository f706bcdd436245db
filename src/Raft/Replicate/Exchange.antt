-- ===== src/Raft/Replicate/Exchange.antt =====
-- An exchange of append messages between a leader and a follower, and the answer of a follower
-- whose log ends before the leader's next index.
use shard_kv_raft.Base.{
  ℕ, zero, suc, ◌≡◌, refl, sym, ap, ◌∙◌, true, false, List, [], ◌∷◌, Option, some, ◌>>=◌, ℤ, pos,
  negsuc, ◌+ℤ◌, ◌≤ℤ◌, ◌<ℤ◌, ◌==ℤ◌, ltb_ℤ, int_laws, arith, All, length, set, get_elem?, ltb,
}
use mathlib.Core.Path.{subst}
use shard_kv_raft.Raft.State.{
  LogEntry, Raft, Timeval, AppendEntriesRequest, AppendEntriesResponse, at, put,
}
use shard_kv_raft.Raft.Log.{last_index}
use shard_kv_raft.Raft.Wire.{get_cmd_and_term}
use shard_kv_raft.Raft.Wire.Entries.{IsClean}
use shard_kv_raft.Raft.Append.{refusal, follow, check_prev, reply_append}
use shard_kv_raft.Raft.Append.Entries.{last_index-follow}
use shard_kv_raft.Raft.Replicate.{append_request, next_after_conflict, on_append_response}

-- One exchange between a leader and the follower `peer`.
unfoldable pub exchange : Timeval → ℤ → Raft × Raft → Option (Raft × Raft)
exchange now peer (leader, follower) = do
  (request, sent) ← append_request leader peer
  (follower', answer) ← reply_append now follower request
  leader' ← on_append_response leader peer request sent answer
  some (leader', follower')

unfoldable pub exchanges : List Timeval → ℤ → Raft × Raft → Option (Raft × Raft)
exchanges [] peer s = some s
exchanges (now ∷ rest) peer s = do s' ← exchange now peer s; exchanges rest peer s'

-- The leader's next index for the follower lies two or more behind the follower's last entry; the
-- leader has the entries from there on, with clean commands, and a term that is not stale.
pub record Behind (peer : ℤ) (l f : Raft) : Type 0 where
  pub next : ℤ
  pub has_next : at l.next_index peer ≡ some next
  pub beyond : last_index f +ℤ pos 1 <ℤ next
  pub in_log : next ≤ℤ last_index l +ℤ pos 1
  pub kept : l.last_included_index ≤ℤ last_index f +ℤ pos 1
  pub term : f.cur_term ≤ℤ l.cur_term
  pub clean : All (IsClean b';') l.logs

pub put-at :
    (xs : List ℤ) (i v w : ℤ)
    → at xs i ≡ some v
    → (ys : List ℤ) × (put xs i w ≡ some ys) × (at ys i ≡ some w)
unfolding at put
put-at xs (negsuc n) v w h = cc
put-at xs (pos n) v w h = (set xs n w, rw (in_range xs n h), set_here xs n h)
  where
    in_range : (xs : List ℤ) (n : ℕ) → get_elem? xs n ≡ some v → ltb n (length xs) ≡ true
    in_range [] n h = cc
    in_range (x ∷ xs) zero h = ground arith
    in_range (x ∷ xs) (suc n) h = ground (arith, in_range xs n h)

    set_here : (xs : List ℤ) (n : ℕ) → get_elem? xs n ≡ some v → get_elem? (set xs n w) n ≡ some w
    set_here [] n h = cc
    set_here (x ∷ xs) zero h = refl
    set_here (x ∷ xs) (suc n) h = set_here xs n h

-- The answer of a follower whose log ends before the request's previous entry.
abbrev pub short_answer : Raft → AppendEntriesResponse
short_answer f = record (refusal f) { conflict_index = last_index f +ℤ pos 1 }

check_prev_short :
    (r : Raft) (q : AppendEntriesRequest) (recv : List LogEntry) (a : AppendEntriesResponse)
    → last_index r <ℤ q.prev_log_index
    → check_prev r q recv a ≡ some (r, record a { conflict_index = last_index r +ℤ pos 1 })
unfolding check_prev
check_prev_short r q recv a h = rw (early, edge, beyond)
  where
    at_base : r.last_included_index ≤ℤ last_index r
    at_base = unfold last_index in omega int_laws

    early : ltb_ℤ q.prev_log_index r.last_included_index ≡ false
    early = ground (arith, at_base)

    edge : (q.prev_log_index ==ℤ r.last_included_index) ≡ false
    edge = ground (arith, at_base)

    beyond : ltb_ℤ (last_index r) q.prev_log_index ≡ true
    beyond = ground arith

pub reply_short :
    (now : Timeval) (f : Raft) (q : AppendEntriesRequest) (recv : List LogEntry)
    → get_cmd_and_term q.send_logs ≡ some recv
    → f.cur_term ≤ℤ q.term
    → last_index f <ℤ q.prev_log_index
    → reply_append now f q ≡ some (follow now f q.term, short_answer f)
unfolding reply_append
reply_short now f q recv parsed fresh short =
    rw (parsed, not_stale f.cur_term q.term fresh)
      (check_prev_short (follow now f q.term) q recv (refusal f)
          (subst (λ z. z <ℤ q.prev_log_index) (sym (last_index-follow now f q.term)) short)
        ∙ ap (λ z. some (follow now f q.term, record (refusal f) { conflict_index = z +ℤ pos 1 }))
            (last_index-follow now f q.term))
  where
    not_stale : (a b : ℤ) → a ≤ℤ b → ltb_ℤ b a ≡ false
    not_stale a b h = ground arith

pub next_after_short :
    (l f : Raft) (prev : ℤ)
    → next_after_conflict l prev (short_answer f) ≡ some (last_index f +ℤ pos 1 +ℤ pos 1)
unfolding next_after_conflict refusal
next_after_short l f prev = refl
