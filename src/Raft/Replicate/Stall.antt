-- ===== src/Raft/Replicate/Stall.antt =====
-- A follower that lags behind the leader's next index. The refusal names the index behind the
-- follower's last entry, and the leader goes on one behind that, so the next request is refused too.
use shard_kv_raft.Base.{
  ◌≡◌, refl, sym, ap, ◌∙◌, List, [], ◌∷◌, some, ℤ, pos, ◌+ℤ◌, ◌≤ℤ◌, pos_part, neg_part, int_laws,
  length,
}
use mathlib.Core.Path.{subst}
use shard_kv_raft.Raft.State.{Raft, Timeval, at}
use shard_kv_raft.Raft.Log.{last_index}
use shard_kv_raft.Raft.Persist.{save_raft_state, serialize}
use shard_kv_raft.Raft.Append.{refusal, follow}
use shard_kv_raft.Raft.Append.Entries.{follow_term, follow-SameBase, last_index-follow}
use shard_kv_raft.Raft.Replicate.Request.{Ready, sent, request, request_total, sent_back}
use shard_kv_raft.Raft.Replicate.Backing.{moved, respond_refused}
use shard_kv_raft.Raft.Replicate.Exchange.{
  Behind, exchange, exchanges, short_answer, reply_short, next_after_short,
}

module _ (peer : ℤ) (l f : Raft) (b : Behind peer l f) where
  able : Ready peer l
  able = record {
    next = b.next;
    has_next = b.has_next;
    from_base = omega (int_laws, b.kept, b.beyond);
    in_log = b.in_log;
    clean = b.clean;
  }

  after_short : ℤ
  after_short = last_index f +ℤ pos 1 +ℤ pos 1

  moved-Behind :
      (now : Timeval) (ys : List ℤ)
      → at ys peer ≡ some after_short
      → Behind peer (moved l ys) (follow now f l.cur_term)
  unfolding save_raft_state serialize after_short
  moved-Behind now ys here =
      let last = last_index-follow now f l.cur_term in
      record {
        next = last_index f +ℤ pos 1 +ℤ pos 1;
        has_next = here;
        beyond = omega (int_laws, ap pos_part last, ap neg_part last);
        in_log = reach;
        kept = subst (λ z. l.last_included_index ≤ℤ z +ℤ pos 1) (sym last) b.kept;
        term = follow_term now f l.cur_term;
        clean = b.clean;
      }
    where
      reach : last_index f +ℤ pos 1 +ℤ pos 1 ≤ℤ last_index (moved l ys) +ℤ pos 1
      reach = unfold last_index in omega (int_laws, b.beyond, b.in_log)

  -- While a follower lags like this, an exchange runs through, leaves the follower's log and commit
  -- index as they were, and leaves the follower lagging.
  exchange_stalls :
      (now : Timeval)
      → (l' : Raft) × (f' : Raft) × (exchange now peer (l, f) ≡ some (l', f'))
        × Behind peer l' f'
        × (f'.logs ≡ f.logs)
        × (f'.commit_index ≡ f.commit_index)
  unfolding exchange able refusal after_short
  exchange_stalls now =
      let (t, _, asked) = request_total peer l able in
      let q = request peer l able t in
      let answered =
        reply_short now f q (sent peer l able) (sent_back peer l able t) b.term
          (omega (int_laws, b.beyond)) in
      let (ys, moves, here) =
        respond_refused l peer b.next after_short q (length (sent peer l able)) (short_answer f)
          b.has_next refl b.term refl (next_after_short l f q.prev_log_index) in
      let (_, logs, commit) = follow-SameBase now f l.cur_term in
      (
        moved l ys,
        follow now f l.cur_term,
        rw asked (rw answered (rw moves refl)),
        moved-Behind now ys here,
        logs,
        commit,
      )

-- Let the leader's next index for a follower lie two or more behind the follower's last entry, and
-- the leader have the entries from there on, no comma or semicolon in its commands, and a term that
-- is not stale. Then any number of append exchanges between the two, and nothing else, runs without
-- undefined behaviour, leaves the follower's log and commit index as they are, and ends in the same
-- situation.
pub exchanges_stall :
    (times : List Timeval) (peer : ℤ) (l f : Raft)
    → Behind peer l f
    → (l' : Raft) × (f' : Raft) × (exchanges times peer (l, f) ≡ some (l', f'))
      × Behind peer l' f'
      × (f'.logs ≡ f.logs)
      × (f'.commit_index ≡ f.commit_index)
unfolding exchanges
exchanges_stall [] peer l f b = (l, f, refl, b, refl, refl)
exchanges_stall (now ∷ times) peer l f b =
    let (l1, f1, run, b1, logs, commit) = exchange_stalls peer l f b now in
    let (l2, f2, rest, b2, logs', commit') = exchanges_stall times peer l1 f1 b1 in
    (l2, f2, rw run rest, b2, logs' ∙ logs, commit' ∙ commit)
