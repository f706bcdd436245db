-- ===== src/Raft/Replicate/Catching.antt =====
-- A leader and a follower of src/RaftServer.cpp that exchange appends until the follower has the
-- leader's log, or something else than an append is needed.
use shard_kv_raft.Base.{
  ◌≤◌, ◌≡◌, refl, sym, ap, ◌∙◌, ◌⊎◌, inl, inr, List, [], ◌∷◌, Option, none, ◌++◌, some, ◌>>=◌, ℤ,
  pos, ◌+ℤ◌, ◌≤ℤ◌, ◌<ℤ◌, arith, length, All, append_assoc,
}
use mathlib.Core.Path.{subst}
use shard_kv_raft.Raft.State.{LogEntry, Raft, Timeval, at}
use shard_kv_raft.Raft.Log.{last_index, log_at, compress_log_idx}
use shard_kv_raft.Raft.Replicate.{prev_term}
use shard_kv_raft.Raft.Replicate.Request.{prev}
use shard_kv_raft.Raft.Replicate.Exchange.{exchange, exchanges}
use shard_kv_raft.Raft.Replicate.Facing.{Facing, Agrees, Obstacle}
use shard_kv_raft.Raft.Replicate.Settle.{SameLeader, settles}
use shard_kv_raft.Raft.Replicate.Matched.{Books}
use shard_kv_raft.Raft.Replicate.Agree.{Meets, exchange_replicates}

module _ {l l' : Raft} (s : SameLeader l l') where
  last_index-SameLeader : last_index l' ≡ last_index l
  unfolding last_index
  last_index-SameLeader = rw (s.base, s.logs) refl

  log_at-SameLeader : (i : ℤ) → log_at l' i ≡ log_at l i
  unfolding log_at compress_log_idx
  log_at-SameLeader i = rw (s.base, s.logs) refl

  prev_term-SameLeader : (i : ℤ) → prev_term l' i ≡ prev_term l i
  unfolding prev_term
  prev_term-SameLeader i = rw (log_at-SameLeader i, s.base, s.base_term) refl

  Books-SameLeader : (peer : ℤ) → Books peer l → Books peer l'
  Books-SameLeader peer b = record {
    of_peer = b.of_peer;
    has_peer = ap (λ xs. at xs peer) s.matches ∙ b.has_peer;
    of_own = b.of_own;
    has_own = ap (at l'.match_index) s.id ∙ ap (λ xs. at xs l.peer_id) s.matches ∙ b.has_own;
    bounded =
        subst (λ xs. All (λ z. z ≤ℤ last_index l') xs) (sym s.matches)
          (subst (λ last. All (λ z. z ≤ℤ last) l.match_index) (sym last_index-SameLeader)
            b.bounded);
  }

exchanges-append :
    (before after : List Timeval) (peer : ℤ) (s : Raft × Raft)
    → exchanges (before ++ after) peer s ≡ (exchanges before peer s >>= λ t. exchanges after peer t)
unfolding exchanges
exchanges-append [] after peer s = refl
exchanges-append (now ∷ before) after peer s =
    behind (λ t. exchanges-append before after peer t) (exchange now peer s)
  where
    behind :
        ((t : Raft × Raft)
          → exchanges (before ++ after) peer t
            ≡ (exchanges before peer t >>= λ u. exchanges after peer u))
        → (o : Option (Raft × Raft))
        → (o >>= λ t. exchanges (before ++ after) peer t)
          ≡ ((o >>= λ t. exchanges before peer t) >>= λ t. exchanges after peer t)
    behind rest none = refl
    behind rest (some t) = rest t

-- One exchange more.
exchanges_one :
    (before : List Timeval) (now : Timeval) (peer : ℤ) (s t u : Raft × Raft)
    → exchanges before peer s ≡ some t
    → exchange now peer t ≡ some u
    → exchanges (before ++ now ∷ []) peer s ≡ some u
unfolding exchanges
exchanges_one before now peer s t u run last =
    exchanges-append before (now ∷ []) peer s ∙ rw run (rw last refl)

-- The follower `f` has the log of `l` from an index on, and at that index an entry of the same term;
-- `l'`, the leader `l` after the exchanges, knows it.
pub record CaughtUp (peer : ℤ) (l l' f : Raft) : Type 0 where
  pub from : ℤ
  pub term_at : ℤ
  pub has_term : prev_term l from ≡ some term_at
  pub entry : LogEntry
  pub common : log_at f from ≡ some entry
  pub same_term : entry.term ≡ term_at
  pub copied : (i : ℤ) → from <ℤ i → i ≤ℤ last_index l → log_at f i ≡ log_at l i
  pub same_last : last_index f ≡ last_index l
  pub next_behind : at l'.next_index peer ≡ some (last_index l +ℤ pos 1)
  pub match_last : at l'.match_index peer ≡ some (last_index l)

catch_up :
    (now : Timeval) (peer : ℤ) (l l1 f1 : Raft)
    → SameLeader l l1
    → Books peer l
    → Agrees peer l1 f1
    → (l' : Raft) × (f' : Raft) × (exchange now peer (l1, f1) ≡ some (l', f'))
      × CaughtUp peer l l' f'
catch_up now peer l l1 f1 same books a =
    let from = prev peer l1 a.ready in
    let last = last_index-SameLeader same in
    let m : Meets peer l1 f1 = record {
      ready = a.ready;
      books = Books-SameLeader same peer books;
      fresh = a.fresh;
      term_at = a.term_at;
      has_term = a.has_term;
      has_prev = inr (a.inside, a.within, (a.entry, a.here, a.same_term));
    } in
    let (l', f', run, copy, known) = exchange_replicates now peer l1 f1 m in
    (
      l',
      f',
      run,
      record {
        from = from;
        term_at = a.term_at;
        has_term = sym (prev_term-SameLeader same from) ∙ a.has_term;
        entry = a.entry;
        common = copy.before from a.inside (omega arith) ∙ a.here;
        same_term = a.same_term;
        copied = λ i lo hi.
            copy.copied i lo (subst (λ z. i ≤ℤ z) (sym last) hi) ∙ log_at-SameLeader same i;
        same_last = copy.same_last ∙ last;
        next_behind = known.next_behind ∙ ap (λ z. some (z +ℤ pos 1)) last;
        match_last = known.match_last ∙ ap (λ z. some z) last;
      },
    )

-- Let a leader's next index for a follower stand behind the leader's snapshot, whose index is not
-- negative, and within its log, whose commands hold no comma and no semicolon; let its vectors have
-- places for the follower and for itself, and no match index be beyond its log. Let the follower's log
-- reach the index before the next one, its term not be above the leader's and no entry of it have the
-- term -1. Then of any list of append exchanges that is longer than the next index stands behind the
-- snapshot, some first part runs without undefined behaviour and ends in one of two ways. Either the
-- follower has an entry of the leader's term at some index and the leader's log behind that index, and
-- the leader's next index and match index for it say so. Or the follower's log is as it was, and the
-- next message is a snapshot, or the previous index is not behind the follower's snapshot, or the
-- follower's entry there has the greater term.
pub exchanges_catch_up :
    (times : List Timeval) (peer : ℤ) (l f : Raft)
    → (h : Facing peer l f) → Books peer l
    → h.ready.next +ℤ pos 1 ≤ℤ l.last_included_index +ℤ pos (length times)
    → (before after : List Timeval) × (l' : Raft) × (f' : Raft) × (times ≡ before ++ after)
      × (exchanges before peer (l, f) ≡ some (l', f'))
      × (CaughtUp peer l l' f' ⊎ (Obstacle peer l' f' × (f'.logs ≡ f.logs)))
exchanges_catch_up times peer l f h books enough =
    let (before, after, l1, f1, split, run, done, logs, same, left) =
      settles 1 times peer l f h enough in
    ends before after l1 f1 split run done logs same left
  where
    ends :
        (before after : List Timeval) (l1 f1 : Raft)
        → times ≡ before ++ after
        → exchanges before peer (l, f) ≡ some (l1, f1)
        → Obstacle peer l1 f1 ⊎ Agrees peer l1 f1
        → f1.logs ≡ f.logs
        → SameLeader l l1
        → 1 ≤ length after
        → (before after : List Timeval) × (l' : Raft) × (f' : Raft) × (times ≡ before ++ after)
          × (exchanges before peer (l, f) ≡ some (l', f'))
          × (CaughtUp peer l l' f' ⊎ (Obstacle peer l' f' × (f'.logs ≡ f.logs)))
    ends before after l1 f1 split run (inl o) logs same left =
        (before, after, l1, f1, split, run, inr (o, logs))
    ends before [] l1 f1 split run (inr a) logs same left = absurd (omega (arith, left))
    ends before (now ∷ after) l1 f1 split run (inr a) logs same left =
        let (l', f', last, caught) = catch_up now peer l l1 f1 same books a in
        (
          before ++ now ∷ [],
          after,
          l',
          f',
          split ∙ sym (append_assoc before (now ∷ []) after),
          exchanges_one before now peer (l, f) (l1, f1) (l', f') run last,
          inl caught,
        )
