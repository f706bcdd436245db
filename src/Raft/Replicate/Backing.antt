-- ===== src/Raft/Replicate/Backing.antt =====
-- The loop of SendAppendEntries in src/RaftServer.cpp that looks for the place to go on from after a
-- conflict, and what one refused exchange does to the leader.
use shard_kv_raft.Base.{
  ℕ, zero, suc, ◌≡◌, refl, ap, ◌⊎◌, inl, inr, true, false, some, ℤ, pos, List, minus_one, ◌+ℤ◌,
  ◌-ℤ◌, ◌≤ℤ◌, ◌<ℤ◌, leb_ℤ, ltb_ℤ, ==ℤ-refl, pos_part, neg_part, int_laws, arith, Bool-cases,
}
use shard_kv_raft.Raft.State.{LogEntry, Raft, AppendEntriesRequest, AppendEntriesResponse, at}
use shard_kv_raft.Raft.Log.{last_index, log_at}
use shard_kv_raft.Raft.Log.Index.{log_at-in_range}
use shard_kv_raft.Raft.Persist.{save_raft_state}
use shard_kv_raft.Raft.Replicate.{
  last_not_above, next_after_conflict, conflicted, on_append_response,
}
use shard_kv_raft.Raft.Replicate.Exchange.{put-at}

-- The loop stops at once at an entry whose term is not above.
pub last_not_above_here :
    (n : ℕ) (l : Raft) (index term : ℤ) (e : LogEntry)
    → log_at l index ≡ some e
    → e.term ≤ℤ term
    → last_not_above (suc n) l index term ≡ some index
unfolding last_not_above
last_not_above_here n l index term e here low = rw here (rw (low_test e.term term low) refl)
  where
    low_test : (a b : ℤ) → a ≤ℤ b → leb_ℤ a b ≡ true
    low_test a b h = ground arith

-- What the loop returns: -1, or an index behind the snapshot and not beyond the start.
abbrev pub IsFound : Raft → ℤ → ℤ → Type 0
IsFound l index j = (j ≡ minus_one) ⊎ ((l.last_included_index <ℤ j) × (j ≤ℤ index))

IsFound-later : (l : Raft) (index j : ℤ) → IsFound l (index -ℤ pos 1) j → IsFound l index j
IsFound-later l index j (inl e) = inl e
IsFound-later l index j (inr (lo, hi)) = inr (lo, omega int_laws)

pub last_not_above-IsFound :
    (n : ℕ) (l : Raft) (index term : ℤ)
    → l.last_included_index +ℤ pos n ≡ index
    → index ≤ℤ last_index l
    → (j : ℤ) × (last_not_above n l index term ≡ some j) × IsFound l index j
unfolding last_not_above
last_not_above-IsFound zero l index term e hi = (minus_one, refl, inl refl)
last_not_above-IsFound (suc n) l index term e hi =
    let (d, here) = log_at-in_range l index (omega (int_laws, ap pos_part e, ap neg_part e)) hi in
    let (j, run, found) =
      last_not_above-IsFound n l (index -ℤ pos 1) term
        (omega (int_laws, ap pos_part e, ap neg_part e)) (omega (int_laws, hi)) in
    elim (Bool-cases (leb_ℤ d.term term)) [
      | inl low ↦ (
        index,
        rw here (rw low refl),
        inr (omega (int_laws, ap pos_part e, ap neg_part e), omega arith),
      )
      | inr high ↦ (j, rw here (rw high run), IsFound-later l index j found)
    ]

-- Where the entry at the start is above, the result is before it.
pub last_not_above_before :
    (n : ℕ) (l : Raft) (index term : ℤ) (e : LogEntry)
    → l.last_included_index +ℤ pos (suc n) ≡ index
    → index ≤ℤ last_index l
    → log_at l index ≡ some e
    → term <ℤ e.term
    → (j : ℤ) × (last_not_above (suc n) l index term ≡ some j) × IsFound l (index -ℤ pos 1) j
unfolding last_not_above
last_not_above_before n l index term e size hi here above =
    let (j, run, found) =
      last_not_above-IsFound n l (index -ℤ pos 1) term
        (omega (int_laws, ap pos_part size, ap neg_part size)) (omega (int_laws, hi)) in
    (j, rw here (rw (high_test e.term term above) run), found)
  where
    high_test : (a b : ℤ) → b <ℤ a → leb_ℤ a b ≡ false
    high_test a b h = ground arith

-- The leader behind a refusal.
abbrev pub moved : Raft → List ℤ → Raft
moved l next_index = save_raft_state (record l { next_index = next_index })

pub respond_refused :
    (l : Raft) (peer next next' : ℤ) (q : AppendEntriesRequest) (n : ℕ) (a : AppendEntriesResponse)
    → at l.next_index peer ≡ some next
    → q.term ≡ l.cur_term
    → a.term ≤ℤ l.cur_term
    → a.success ≡ false
    → next_after_conflict l q.prev_log_index a ≡ some next'
    → (ys : List ℤ) × (on_append_response l peer q n a ≡ some (moved l ys))
      × (at ys peer ≡ some next')
unfolding on_append_response conflicted
respond_refused l peer next next' q n a has same old refused after =
    let (ys, e, here) = put-at l.next_index peer next next' has in
    (
      ys,
      rw (same, ==ℤ-refl l.cur_term, current a.term l.cur_term old, refused, after, e) refl,
      here,
    )
  where
    current : (a c : ℤ) → a ≤ℤ c → ltb_ℤ c a ≡ false
    current a c h = ground arith
