-- ===== src/Raft/Replicate/Facing.antt =====
-- A leader and a follower of src/RaftServer.cpp whose log reaches the leader's previous index: how
-- their next exchange ends.
use shard_kv_raft.Base.{
  ℕ, zero, suc, ◌≡◌, ◌≢◌, refl, sym, ap, ◌∙◌, ◌⊎◌, inl, inr, some, ℤ, pos, List, [], ◌∷◌, minus_one,
  ◌+ℤ◌, ◌-ℤ◌, ◌≤ℤ◌, ◌<ℤ◌, ◌==ℤ◌, leb_ℤ, ==ℤ_iff, ==ℤ→eq, pos_part, neg_part, int_laws, int_signs,
  arith, Bool-cases, if◌then◌else◌, All, negsuc, get_elem?,
}
use mathlib.Core.Path.{subst}
use mathlib.Core.Option.{some-injective}
use shard_kv_raft.Raft.State.{LogEntry, Raft, Timeval, at}
use shard_kv_raft.Raft.Log.{last_index, log_at, compress_log_idx}
use shard_kv_raft.Raft.Log.Index.{log_at-in_range}
use shard_kv_raft.Raft.Append.{follow}
use shard_kv_raft.Raft.Replicate.{prev_term, last_not_above}
use shard_kv_raft.Raft.Replicate.Request.{Ready, prev, prev-bounds, request_total}
use shard_kv_raft.Raft.Replicate.Exchange.{exchange}
use shard_kv_raft.Raft.Replicate.Backing.{last_not_above_before, IsFound, moved}
use shard_kv_raft.Raft.Replicate.Mismatch.{Clash, exchange_refused, searched}
use shard_kv_raft.Raft.Replicate.Stuck.{Stuck, rounds_suc, leader_entry}

-- A leader that can send, and a follower whose log reaches its previous index.
pub record Facing (peer : ℤ) (l f : Raft) : Type 0 where
  pub ready : Ready peer l
  pub within : prev peer l ready ≤ℤ last_index f
  pub fresh : f.cur_term ≤ℤ l.cur_term
  pub base : pos 0 ≤ℤ l.last_included_index
  pub known : All (λ (e : LogEntry). e.term ≢ minus_one) f.logs

All-log_at :
    (P : LogEntry → Type 0) (r : Raft) (i : ℤ) (e : LogEntry)
    → All P r.logs
    → log_at r i ≡ some e
    → P e
unfolding log_at at compress_log_idx
All-log_at P r i e h here = listed (i -ℤ r.last_included_index -ℤ pos 1) here
  where
    get : (es : List LogEntry) (n : ℕ) → All P es → get_elem? es n ≡ some e → P e
    get [] n h here = cc
    get (x ∷ es) zero (p, h) here = subst P (some-injective _ _ here) p
    get (x ∷ es) (suc n) (p, h) here = get es n h here

    listed : (z : ℤ) → at r.logs z ≡ some e → P e
    listed (pos n) here = get r.logs n h here
    listed (negsuc n) here = cc

-- Both have an entry of one term at the previous index.
pub record Agrees (peer : ℤ) (l f : Raft) : Type 0 where
  pub ready : Ready peer l
  pub term_at : ℤ
  pub has_term : prev_term l (prev peer l ready) ≡ some term_at
  pub entry : LogEntry
  pub here : log_at f (prev peer l ready) ≡ some entry
  pub same_term : entry.term ≡ term_at
  pub inside : f.last_included_index <ℤ prev peer l ready
  pub within : prev peer l ready ≤ℤ last_index f
  pub fresh : f.cur_term ≤ℤ l.cur_term

-- Where the search for a common entry has ended without one: the next message is a snapshot; or the
-- previous index is not behind the follower's snapshot; or the follower's entry has the greater term.
pub data Obstacle (peer : ℤ) (l f : Raft) : Type 0 where
  snapshot_due :
      (next : ℤ)
      → at l.next_index peer ≡ some next
      → next ≤ℤ l.last_included_index
      → Obstacle peer l f
  in_snapshot : (b : Ready peer l) → prev peer l b ≤ℤ f.last_included_index → Obstacle peer l f
  stuck : Stuck peer l f → Obstacle peer l f

abbrev pub Settled : ℤ → Raft → Raft → Type 0
Settled peer l f = Obstacle peer l f ⊎ Agrees peer l f

-- A clash that sends the leader back: the previous index is its snapshot's, or its term is greater.
abbrev pub GoesBack : (peer : ℤ) (l f : Raft) → Clash peer l f → Type 0
GoesBack peer l f c =
    (prev peer l c.ready ≡ l.last_included_index)
    ⊎ ((l.last_included_index <ℤ prev peer l c.ready) × (c.entry.term <ℤ c.term_at))

-- The search has ended, or it goes back.
pub classify :
    (peer : ℤ) (l f : Raft)
    → (h : Facing peer l f)
    → Settled peer l f ⊎ ((c : Clash peer l f) × (c.ready ≡ h.ready) × GoesBack peer l f c)
classify peer l f h =
    let i = prev peer l h.ready in
    let (t, has, _) = request_total peer l h.ready in
    elim (Bool-cases (leb_ℤ i f.last_included_index)) [
      | inl low ↦ inl (inl (in_snapshot h.ready (ground arith)))
      | inr high ↦
          let inside : f.last_included_index <ℤ i = ground arith in
          let (e, here) = log_at-in_range f i inside h.within in
          elim (Bool-cases (e.term ==ℤ t)) [
            | inl same ↦ inl (
                inr (record {
                  ready = h.ready;
                  term_at = t;
                  has_term = has;
                  entry = e;
                  here = here;
                  same_term = ==ℤ→eq e.term t same;
                  inside = inside;
                  within = h.within;
                  fresh = h.fresh;
                }))
            | inr other ↦ sort_clash t has e here inside (ground (arith, ==ℤ_iff e.term t))
          ]
    ]
  where
    sort_clash :
        (t : ℤ)
        → prev_term l (prev peer l h.ready) ≡ some t
        → (e : LogEntry) → log_at f (prev peer l h.ready) ≡ some e
        → f.last_included_index <ℤ prev peer l h.ready
        → e.term ≢ t
        → Settled peer l f ⊎ ((c : Clash peer l f) × (c.ready ≡ h.ready) × GoesBack peer l f c)
    sort_clash t has e here inside other =
        let c : Clash peer l f = record {
          ready = h.ready;
          term_at = t;
          has_term = has;
          entry = e;
          differs = record { inside = inside; within = h.within; here = here; other = other };
          fresh = h.fresh;
          known =
              All-log_at (λ (e : LogEntry). e.term ≢ minus_one) f (prev peer l h.ready) e h.known
                here;
          base = h.base;
        } in
        let i = prev peer l h.ready in
        let from = (prev-bounds peer l h.ready).0 in
        elim (Bool-cases (i ==ℤ l.last_included_index)) [
          | inl edge ↦ inr (c, refl, inl (==ℤ→eq i l.last_included_index edge))
          | inr behind ↦ elim (Bool-cases (leb_ℤ t e.term)) [
            | inl low ↦ inl (
                inl (
                  stuck
                    (record { clash = c; above_base = ground (arith, from); low = ground arith })))
            | inr high ↦ inr (c, refl, inr (ground (arith, from), ground arith))
          ]
        ]

back_le :
    (j index i : ℤ)
    → index ≤ℤ i
    → (j ≡ minus_one) ⊎ (j +ℤ pos 1 ≤ℤ i)
    → (if j ==ℤ minus_one then index else j +ℤ pos 1) ≤ℤ i
back_le j index i h (inl e) = ground (arith, ==ℤ_iff j minus_one)
back_le j index i h (inr le) = ground (arith, ==ℤ_iff j minus_one)

module _ (peer : ℤ) (l f : Raft) (c : Clash peer l f) where
  search_back :
      GoesBack peer l f c
      → (j : ℤ) × (last_not_above
            (pos_part (prev peer l c.ready -ℤ l.last_included_index))
            l
            (prev peer l c.ready)
            c.entry.term
          ≡ some j)
        × ((j ≡ minus_one) ⊎ (j +ℤ pos 1 ≤ℤ prev peer l c.ready))
  unfolding last_not_above
  search_back (inl edge) =
      let none_left : pos_part (prev peer l c.ready -ℤ l.last_included_index) ≡ 0 =
        omega (int_signs, ap pos_part edge, ap neg_part edge) in
      (minus_one, rw none_left refl, inl refl)
  search_back (inr (lo, above)) =
      let i = prev peer l c.ready in
      let (n, size, total) = rounds_suc peer l f c lo in
      let (e, here, same) = leader_entry peer l f c lo in
      let (j, run, found) =
        last_not_above_before n l i c.entry.term e total (prev-bounds peer l c.ready).1 here
          (subst (λ z. c.entry.term <ℤ z) (sym same) above) in
      (j, ap (λ k. last_not_above k l i c.entry.term) size ∙ run, lower i j found)
    where
      lower : (i j : ℤ) → IsFound l (i -ℤ pos 1) j → (j ≡ minus_one) ⊎ (j +ℤ pos 1 ≤ℤ i)
      lower i j (inl e) = inl e
      lower i j (inr (_, hi)) = inr (omega int_laws)

  pub exchange_back :
      (now : Timeval)
      → GoesBack peer l f c
      → (ys : List ℤ) × (next : ℤ) × (exchange now peer (l, f)
          ≡ some (moved l ys, follow now f l.cur_term))
        × (at ys peer ≡ some next)
        × (next ≤ℤ prev peer l c.ready)
  exchange_back now back =
      let (j, run, low) = search_back back in
      exchange_refused peer l f c (λ z. z ≤ℤ prev peer l c.ready) now
        (λ index lo hi.
          (_, searched peer l f c index j run, back_le j index (prev peer l c.ready) hi low))
