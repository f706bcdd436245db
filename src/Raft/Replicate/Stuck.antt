-- ===== src/Raft/Replicate/Stuck.antt =====
-- Exchanges after a conflict, between one leader and one follower of src/RaftServer.cpp, where the
-- follower's entry has the greater term: the leader goes on where it was.
use shard_kv_raft.Base.{
  ℕ, suc, ◌-◌, ◌≡◌, refl, sym, ap, ◌∙◌, false, some, ℤ, pos, List, [], ◌∷◌, minus_one, ◌+ℤ◌, ◌-ℤ◌,
  ◌≤ℤ◌, ◌<ℤ◌, ◌==ℤ◌, pos_part, int_laws, int_signs, eq_of_parts, arith, if◌then◌else◌,
}
use mathlib.Core.Path.{subst}
use mathlib.Core.Option.{some-injective}
use shard_kv_raft.Raft.State.{LogEntry, Raft, Timeval, at}
use shard_kv_raft.Raft.Log.{last_index, log_at, compress_log_idx}
use shard_kv_raft.Raft.Log.Index.{log_at-in_range}
use shard_kv_raft.Raft.Persist.{save_raft_state, serialize}
use shard_kv_raft.Raft.Append.{follow}
use shard_kv_raft.Raft.Append.Entries.{follow_term, follow-SameBase}
use shard_kv_raft.Raft.Replicate.{prev_term, last_not_above, next_after_conflict}
use shard_kv_raft.Raft.Replicate.Request.{Ready, prev, prev-bounds}
use shard_kv_raft.Raft.Replicate.Exchange.{exchange, exchanges}
use shard_kv_raft.Raft.Replicate.Backing.{last_not_above_here, moved}
use shard_kv_raft.Raft.Replicate.Mismatch.{
  Differs, Differs-follow, Clash, conflict_answer, exchange_refused, searched,
}

-- A refusal leaves the leader's log, term and snapshot as they are.
pub moved-Ready :
    (peer : ℤ) (l : Raft) (ys : List ℤ) (next : ℤ)
    → Ready peer l
    → at ys peer ≡ some next
    → l.last_included_index <ℤ next
    → next ≤ℤ last_index l +ℤ pos 1
    → (b : Ready peer (moved l ys)) × (b.next ≡ next)
unfolding save_raft_state serialize last_index
moved-Ready peer l ys next b here lo hi =
    (record { next = next; has_next = here; from_base = lo; in_log = hi; clean = b.clean }, refl)

pub prev_term-moved : (l : Raft) (ys : List ℤ) (i : ℤ) → prev_term (moved l ys) i ≡ prev_term l i
unfolding prev_term save_raft_state serialize log_at compress_log_idx
prev_term-moved l ys i = refl

-- The leader's entry at the previous index is in its log.
pub prev_entry :
    (l : Raft) (i t : ℤ)
    → l.last_included_index <ℤ i
    → i ≤ℤ last_index l
    → prev_term l i ≡ some t
    → (e : LogEntry) × (log_at l i ≡ some e) × (e.term ≡ t)
unfolding prev_term
prev_entry l i t lo hi has =
    let (e, here) = log_at-in_range l i lo hi in (e, here, same_term e here)
  where
    behind : (i ==ℤ l.last_included_index) ≡ false
    behind = ground arith

    same_term : (e : LogEntry) → log_at l i ≡ some e → e.term ≡ t
    same_term e here = some-injective _ _ (sym (rw behind (rw here refl)) ∙ has)

-- The follower's entry at the previous index has a greater term than the leader's in its log.
pub record Stuck (peer : ℤ) (l f : Raft) : Type 0 where
  pub clash : Clash peer l f
  pub above_base : l.last_included_index <ℤ prev peer l clash.ready
  pub low : clash.term_at ≤ℤ clash.entry.term

-- What the leader goes on from, if the search finds an index or none.
go_on : (j index : ℤ) → pos 0 ≤ℤ j → (if j ==ℤ minus_one then index else j +ℤ pos 1) ≡ j +ℤ pos 1
go_on j index h = rw (not_minus_one j h) refl
  where
    not_minus_one : (j : ℤ) → pos 0 ≤ℤ j → (j ==ℤ minus_one) ≡ false
    not_minus_one j h = ground arith

module _ (peer : ℤ) (l f : Raft) (c : Clash peer l f) where
  -- The rounds of the leader's search.
  pub rounds_suc :
      l.last_included_index <ℤ prev peer l c.ready
      → (n : ℕ) × (pos_part (prev peer l c.ready -ℤ l.last_included_index) ≡ suc n)
        × (l.last_included_index +ℤ pos (suc n) ≡ prev peer l c.ready)
  rounds_suc lo =
      let n = pos_part (prev peer l c.ready -ℤ l.last_included_index) - 1 in
      (n, omega int_signs, eq_of_parts _ _ (omega int_signs))

  pub leader_entry :
      l.last_included_index <ℤ prev peer l c.ready
      → (e : LogEntry) × (log_at l (prev peer l c.ready) ≡ some e) × (e.term ≡ c.term_at)
  leader_entry lo =
      prev_entry l (prev peer l c.ready) c.term_at lo (prev-bounds peer l c.ready).1 c.has_term

  next_again :
      (index : ℤ)
      → l.last_included_index <ℤ prev peer l c.ready
      → c.term_at ≤ℤ c.entry.term
      → next_after_conflict l (prev peer l c.ready) (conflict_answer f c.entry index)
        ≡ some c.ready.next
  next_again index lo low =
      let (n, size, _) = rounds_suc lo in
      let (e, here, same) = leader_entry lo in
      let i = prev peer l c.ready in
      let found : last_not_above (suc n) l i c.entry.term ≡ some i =
        last_not_above_here n l i c.entry.term e here
          (subst (λ z. z ≤ℤ c.entry.term) (sym same) low) in
      searched peer l f c index i (ap (λ k. last_not_above k l i c.entry.term) size ∙ found)
      ∙ ap (λ z. some z) (go_on i index (omega (int_laws, c.base, lo)) ∙ omega int_laws)

  -- The same for the leader behind the refusal and the follower with the leader's term.
  Stuck-moved :
      (now : Timeval) (ys : List ℤ) (b : Ready peer (moved l ys))
      → b.next ≡ c.ready.next
      → l.last_included_index <ℤ prev peer l c.ready
      → c.term_at ≤ℤ c.entry.term
      → Stuck peer (moved l ys) (follow now f l.cur_term)
  unfolding save_raft_state serialize
  Stuck-moved now ys b same lo low =
      let index : prev peer (moved l ys) b ≡ prev peer l c.ready = ap (λ z. z -ℤ pos 1) same in
      record {
        clash = record {
          ready = b;
          term_at = c.term_at;
          has_term =
              ap (prev_term (moved l ys)) index
              ∙ prev_term-moved l ys (prev peer l c.ready)
              ∙ c.has_term;
          entry = c.entry;
          differs =
              subst (λ i. Differs (follow now f l.cur_term) i c.term_at c.entry) (sym index)
                (Differs-follow now f l.cur_term (prev peer l c.ready) c.term_at c.entry c.differs);
          fresh = follow_term now f l.cur_term;
          known = c.known;
          base = c.base;
        };
        above_base = subst (λ i. l.last_included_index <ℤ i) (sym index) lo;
        low = low;
      }

exchange-Stuck :
    (now : Timeval) (peer : ℤ) (l f : Raft)
    → Stuck peer l f
    → (l' : Raft) × (f' : Raft) × (exchange now peer (l, f) ≡ some (l', f'))
      × Stuck peer l' f'
      × (f'.logs ≡ f.logs)
      × (f'.commit_index ≡ f.commit_index)
exchange-Stuck now peer l f s =
    let c = s.clash in
    let (ys, next, run, here, same) =
      exchange_refused peer l f c (λ z. z ≡ c.ready.next) now
        (λ index lo hi. (c.ready.next, next_again peer l f c index s.above_base s.low, refl)) in
    let (b, at_next) =
      moved-Ready peer l ys c.ready.next c.ready (here ∙ ap (λ z. some z) same) c.ready.from_base
        c.ready.in_log in
    let (_, logs, commit) = follow-SameBase now f l.cur_term in
    (
      moved l ys,
      follow now f l.cur_term,
      run,
      Stuck-moved peer l f c now ys b at_next s.above_base s.low,
      logs,
      commit,
    )

-- Let the leader's next index for a follower stand behind its snapshot and within its log, and at the
-- index before it let both have an entry, the follower's of a greater term than the leader's (and not
-- -1), the leader's own term not being stale, its snapshot's index not negative and its commands free
-- of commas and semicolons. Then any
-- number of append exchanges between the two, and nothing else, runs without undefined behaviour,
-- leaves the follower's log and commit index as they are, and ends in the same situation.
pub exchanges-Stuck :
    (times : List Timeval) (peer : ℤ) (l f : Raft)
    → Stuck peer l f
    → (l' : Raft) × (f' : Raft) × (exchanges times peer (l, f) ≡ some (l', f'))
      × Stuck peer l' f'
      × (f'.logs ≡ f.logs)
      × (f'.commit_index ≡ f.commit_index)
unfolding exchanges
exchanges-Stuck [] peer l f s = (l, f, refl, s, refl, refl)
exchanges-Stuck (now ∷ times) peer l f s =
    let (l1, f1, run, s1, logs, commit) = exchange-Stuck now peer l f s in
    let (l2, f2, rest, s2, logs', commit') = exchanges-Stuck times peer l1 f1 s1 in
    (l2, f2, rw run rest, s2, logs' ∙ logs, commit' ∙ commit)
