-- ===== src/Raft/Log/Index.antt =====
-- Where an index of the log stands in the vector.
use shard_kv_raft.Base.{
  ℕ, suc, ◌≡◌, refl, ap, ◌∙◌, List, none, some, Option-cases, inl, inr, ◌+ℤ◌, neg_part, ℤ, pos,
  negsuc, ◌-ℤ◌, ◌≤ℤ◌, ◌<ℤ◌, pos_part, int_laws, int_signs, get_elem?, get_elem?-in_range,
  get_elem?-lt, arith,
}
use shard_kv_raft.Raft.State.{LogEntry, Raft, at}
use shard_kv_raft.Raft.Log.{last_index, log_at}

-- The place in the vector of an index behind the snapshot.
abbrev pub place : Raft → ℤ → ℕ
place r index = pos_part (index -ℤ r.last_included_index -ℤ pos 1)

nonneg : (z : ℤ) → pos 0 ≤ℤ z → z ≡ pos (pos_part z)
nonneg (pos n) h = refl
nonneg (negsuc n) h = absurd (omega arith)

pub log_at-place :
    (r : Raft) (index : ℤ)
    → r.last_included_index <ℤ index
    → log_at r index ≡ get_elem? r.logs (place r index)
unfolding log_at
log_at-place r index h =
    ap (at r.logs) (nonneg (index -ℤ r.last_included_index -ℤ pos 1) (omega int_laws))

-- Every index behind the snapshot and up to the last one names an entry.
pub log_at-in_range :
    (r : Raft) (index : ℤ)
    → r.last_included_index <ℤ index
    → index ≤ℤ last_index r
    → (e : LogEntry) × (log_at r index ≡ some e)
unfolding last_index
log_at-in_range r index lo hi =
    let (e, p) = get_elem?-in_range r.logs (place r index) (omega int_signs) in
    (e, log_at-place r index lo ∙ p)

at-some :
    (es : List LogEntry) (z : ℤ) (e : LogEntry)
    → at es z ≡ some e
    → (n : ℕ) × (z ≡ pos n) × (get_elem? es n ≡ some e)
unfolding at
at-some es (pos n) e p = (n, refl, p)
at-some es (negsuc n) e p = cc

-- An entry that is read stands behind the snapshot.
pub log_at-some :
    (r : Raft) (index : ℤ) (e : LogEntry)
    → log_at r index ≡ some e
    → (n : ℕ) × (index ≡ r.last_included_index +ℤ pos (suc n)) × (get_elem? r.logs n ≡ some e)
unfolding log_at
log_at-some r index e p =
    let (n, place, found) = at-some r.logs (index -ℤ r.last_included_index -ℤ pos 1) e p in
    (n, omega (int_laws, ap pos_part place, ap neg_part place), found)

pub log_at-le :
    (r : Raft) (index : ℤ) (e : LogEntry) → log_at r index ≡ some e → index ≤ℤ last_index r
unfolding last_index
log_at-le r index e p =
    let (n, place, found) = log_at-some r index e p in
    omega (int_laws, ap pos_part place, ap neg_part place, get_elem?-lt r.logs n e found)

-- Beyond the last index there is nothing.
pub log_at-beyond : (r : Raft) (index : ℤ) → last_index r <ℤ index → log_at r index ≡ none
log_at-beyond r index h = elim (Option-cases (log_at r index)) [
  | inl e ↦ e
  | inr (e, found) ↦ absurd (omega (arith, h, log_at-le r index e found))
]
