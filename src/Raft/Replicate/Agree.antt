-- ===== src/Raft/Replicate/Agree.antt =====
-- An append exchange of src/RaftServer.cpp that succeeds: the follower holds the entry before the
-- leader's next index.
use shard_kv_raft.Base.{
  ℕ, ◌+◌, ◌≡◌, refl, sym, ap, ◌∙◌, true, false, some, ℤ, pos, ◌+ℤ◌, ◌-ℤ◌, ◌≤ℤ◌, ◌<ℤ◌, ltb_ℤ,
  ==ℤ-refl, pos_part, neg_part, int_laws, int_signs, arith, length, drop, get_elem?, length-drop,
  get_elem?-drop, eq_of_parts,
}
use mathlib.Core.Option.{some-injective}
use shard_kv_raft.Raft.State.{Raft, Timeval, AppendEntriesRequest, AppendEntriesResponse, at}
use shard_kv_raft.Raft.Log.{last_index, log_at, compress_log_idx}
use shard_kv_raft.Raft.Log.Index.{place, log_at-place}
use shard_kv_raft.Raft.Persist.{save_raft_state, serialize}
use shard_kv_raft.Raft.Append.{refusal}
use shard_kv_raft.Raft.Append.Outcome.{HasPrev}
use shard_kv_raft.Raft.Append.Entries.{Spliced}
use shard_kv_raft.Raft.Append.Taking.{taken, reply_taken}
use shard_kv_raft.Raft.Replicate.{tail_from, prev_term, on_append_response}
use shard_kv_raft.Raft.Replicate.Request.{
  Ready, prev, sent, request, prev-bounds, request_total, sent_back,
}
use shard_kv_raft.Raft.Replicate.Exchange.{exchange}
use shard_kv_raft.Raft.Replicate.Matched.{Books, UpToDate, matched_total}

respond_taken :
    (l : Raft) (peer next : ℤ) (q : AppendEntriesRequest) (n : ℕ) (a : AppendEntriesResponse)
    → at l.next_index peer ≡ some next
    → next +ℤ pos n ≡ last_index l +ℤ pos 1
    → Books peer l
    → q.term ≡ l.cur_term
    → a.term ≤ℤ l.cur_term
    → a.success ≡ true
    → (s : Raft) × (on_append_response l peer q n a ≡ some s) × UpToDate peer l s
unfolding on_append_response save_raft_state serialize
respond_taken l peer next q n a has total books same old success =
    let (s, run, now_known) = matched_total l peer next n has total books in
    (
      save_raft_state s,
      rw (same, ==ℤ-refl l.cur_term, current a.term l.cur_term old, success, run) refl,
      record {
        next_behind = now_known.next_behind;
        match_last = now_known.match_last;
        own_last = now_known.own_last;
        same_log = now_known.same_log;
        same_base = now_known.same_base;
        same_term = now_known.same_term;
      },
    )
  where
    current : (a c : ℤ) → a ≤ℤ c → ltb_ℤ c a ≡ false
    current a c h = ground arith

module _ (peer : ℤ) (l : Raft) (b : Ready peer l) where
  behind_base : ℕ
  behind_base = pos_part (prev peer l b -ℤ l.last_included_index)

  sent-drop : sent peer l b ≡ drop behind_base l.logs
  unfolding behind_base tail_from compress_log_idx
  sent-drop = ap (tail_from l.logs) (
      eq_of_parts _ (pos (pos_part (prev peer l b -ℤ l.last_included_index)))
        (omega (int_signs, (prev-bounds peer l b).0)))

  sent_at : (k : ℕ) → get_elem? (sent peer l b) k ≡ log_at l (prev peer l b +ℤ pos 1 +ℤ pos k)
  unfolding behind_base
  sent_at k =
      ap (λ es. get_elem? es k) sent-drop
      ∙ get_elem?-drop behind_base l.logs k
      ∙ ap (get_elem? l.logs) same_place
      ∙ sym (
          log_at-place l (prev peer l b +ℤ pos 1 +ℤ pos k)
            (omega (int_laws, (prev-bounds peer l b).0)))
    where
      same_place : behind_base + k ≡ place l (prev peer l b +ℤ pos 1 +ℤ pos k)
      same_place = omega (int_signs, (prev-bounds peer l b).0)

  sent_all : b.next +ℤ pos (length (sent peer l b)) ≡ last_index l +ℤ pos 1
  unfolding behind_base last_index
  sent_all = omega (
    int_signs,
    ap length sent-drop,
    length-drop behind_base l.logs,
    b.from_base,
    (prev-bounds peer l b).0,
    (prev-bounds peer l b).1,
  )

-- A leader that can send, and a follower that holds the entry at the leader's previous index.
pub record Meets (peer : ℤ) (l f : Raft) : Type 0 where
  pub ready : Ready peer l
  pub books : Books peer l
  pub fresh : f.cur_term ≤ℤ l.cur_term
  pub term_at : ℤ
  pub has_term : prev_term l (prev peer l ready) ≡ some term_at
  pub has_prev : HasPrev f (request peer l ready term_at)

-- The follower's log behind an index is the leader's, and up to it the one it was.
pub record Copied (l f f' : Raft) (from : ℤ) : Type 0 where
  pub same_last : last_index f' ≡ last_index l
  pub copied : (i : ℤ) → from <ℤ i → i ≤ℤ last_index l → log_at f' i ≡ log_at l i
  pub before : (i : ℤ) → f.last_included_index <ℤ i → i ≤ℤ from → log_at f' i ≡ log_at f i

Spliced-Copied :
    (peer : ℤ) (l f f' : Raft) (b : Ready peer l)
    → Spliced f f' (prev peer l b) (sent peer l b)
    → Copied l f f' (prev peer l b)
Spliced-Copied peer l f f' b s =
    let i = prev peer l b in
    let all = sent_all peer l b in
    record {
      same_last = s.last ∙ eq_of_parts _ _ (omega (int_laws, ap pos_part all, ap neg_part all));
      copied = λ j lo hi.
          let k = pos_part (j -ℤ i -ℤ pos 1) in
          let here : j ≡ i +ℤ pos 1 +ℤ pos k = eq_of_parts _ _ (omega (int_signs, lo)) in
          ap (log_at f') here ∙ s.behind_prev k ∙ sent_at peer l b k ∙ ap (log_at l) (sym here);
      before = s.before;
    }

-- Let a leader's next index for a follower stand behind the leader's snapshot and within its log,
-- whose commands hold no comma and no semicolon; let its vectors have places for the follower and for
-- itself, and no match index be beyond its log. Let the follower's term not be above the leader's, and
-- let it hold the entry before the next index. Then one exchange runs without undefined behaviour. The
-- follower's log ends where the leader's does, agrees with it from the next index on, and is before
-- that as it was. The leader's next index for the follower is the one behind its log, its match
-- indices for the follower and itself are its last index, and its log and term are as they were.
pub exchange_replicates :
    (now : Timeval) (peer : ℤ) (l f : Raft) (m : Meets peer l f)
    → (l' : Raft) × (f' : Raft) × (exchange now peer (l, f) ≡ some (l', f'))
      × Copied l f f' (m.ready.next -ℤ pos 1)
      × UpToDate peer l l'
unfolding exchange refusal
exchange_replicates now peer l f m =
    let b = m.ready in
    let q = request peer l b m.term_at in
    let (t, e, asked) = request_total peer l b in
    let same = some-injective _ _ (sym e ∙ m.has_term) in
    let (f', answered, spliced, _) =
      reply_taken now f q (sent peer l b) (sent_back peer l b m.term_at) m.fresh m.has_prev in
    let (l', moves, after) =
      respond_taken l peer b.next q (length (sent peer l b)) (taken f) b.has_next
        (sent_all peer l b) m.books refl m.fresh refl in
    (
      l',
      f',
      rw (asked ∙ ap (λ x. some (request peer l b x, length (sent peer l b))) same)
          (rw answered (rw moves refl)),
      Spliced-Copied peer l f f' b spliced,
      after,
    )
