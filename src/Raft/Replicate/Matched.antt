-- ===== src/Raft/Replicate/Matched.antt =====
-- The leader's books in src/RaftServer.cpp when a follower has taken all that was sent.
use shard_kv_raft.Base.{
  ℕ, ◌/◌, ◌<◌, ◌≡◌, refl, sym, ap, ◌∙◌, inl, inr, Bool, true, List, some, ℤ, pos, ◌+ℤ◌, ◌-ℤ◌, ◌≤ℤ◌,
  ◌==ℤ◌, leb_ℤ, ltb_ℤ, int_laws, arith, length, get_elem?-in_range, All, Bool-cases, if◌then◌else◌,
}
use mathlib.Core.Path.{subst}
use shard_kv_raft.Raft.State.{Raft, at}
use shard_kv_raft.Raft.Log.{last_index}
use shard_kv_raft.Raft.Log.Index.{log_at-in_range}
use shard_kv_raft.Raft.Replicate.{sort, majority_match_index, committable, advance, matched}
use shard_kv_raft.Raft.Replicate.Quorum.{length-sort, advance-Commits}
use shard_kv_raft.Raft.Replicate.Exchange.{put-at}
use shard_kv_raft.Raft.Replicate.Vectors.{
  All-sort, get-All, put-All, put-length, put_beside, at_same_length, at_positive,
}

-- No follower is ahead of the leader's log.
abbrev pub IsBounded : Raft → Type 0
IsBounded r = All (λ z. z ≤ℤ last_index r) r.match_index

majority_total :
    (r : Raft)
    → IsBounded r
    → 0 < length r.match_index
    → (i : ℤ) × (majority_match_index r.match_index ≡ some i) × (i ≤ℤ last_index r)
unfolding majority_match_index
majority_total r bounded many =
    let zs = r.match_index in
    let (i, found) =
      get_elem?-in_range (sort zs) (length zs / 2) (omega (arith, many, length-sort zs)) in
    (
      i,
      found,
      get-All (λ z. z ≤ℤ last_index r) (sort zs) (length zs / 2) i
          (All-sort (λ z. z ≤ℤ last_index r) zs bounded) found,
    )

committable_total :
    (r : Raft) (index : ℤ) → index ≤ℤ last_index r → (b : Bool) × (committable r index ≡ some b)
unfolding committable
committable_total r index hi = elim (Bool-cases (leb_ℤ index r.last_included_index)) [
  | inl low ↦ (true, rw low refl)
  | inr high ↦
      let (e, here) = log_at-in_range r index (ground arith) hi in
      (e.term ==ℤ r.cur_term, rw high (rw here refl))
]

-- The search for a new commit index returns.
pub advance_total :
    (r : Raft) → IsBounded r → 0 < length r.match_index → (s : Raft) × (advance r ≡ some s)
unfolding advance
advance_total r bounded many =
    let (i, found, hi) = majority_total r bounded many in
    let (b, test) = committable_total r i hi in
    elim (Bool-cases (ltb_ℤ r.commit_index i)) [
      | inl newer ↦
          (if b then record r { commit_index = i } else r, rw found (rw newer (rw test refl)))
      | inr old ↦ (r, rw found (rw old refl))
    ]

-- The search changes nothing but the commit index.
pub record SameBooks (r s : Raft) : Type 0 where
  pub logs : s.logs ≡ r.logs
  pub base : s.last_included_index ≡ r.last_included_index
  pub term : s.cur_term ≡ r.cur_term
  pub next : s.next_index ≡ r.next_index
  pub matches : s.match_index ≡ r.match_index

advance-SameBooks : (r s : Raft) → advance r ≡ some s → SameBooks r s
advance-SameBooks r s run = elim (advance-Commits r s run) [
  | inl same ↦
      subst (SameBooks r) (sym same)
        (record { logs = refl; base = refl; term = refl; next = refl; matches = refl })
  | inr (same, _) ↦
      subst (SameBooks r) (sym same)
        (record { logs = refl; base = refl; term = refl; next = refl; matches = refl })
]

-- The leader's vectors have places for the peer and for itself, and no match index is beyond its log.
pub record Books (peer : ℤ) (l : Raft) : Type 0 where
  pub of_peer : ℤ
  pub has_peer : at l.match_index peer ≡ some of_peer
  pub of_own : ℤ
  pub has_own : at l.match_index l.peer_id ≡ some of_own
  pub bounded : IsBounded l

-- The books after the follower has taken all of the log.
pub record UpToDate (peer : ℤ) (l s : Raft) : Type 0 where
  pub next_behind : at s.next_index peer ≡ some (last_index l +ℤ pos 1)
  pub match_last : at s.match_index peer ≡ some (last_index l)
  pub own_last : at s.match_index l.peer_id ≡ some (last_index l)
  pub same_log : s.logs ≡ l.logs
  pub same_base : s.last_included_index ≡ l.last_included_index
  pub same_term : s.cur_term ≡ l.cur_term

with_books : Raft → List ℤ → List ℤ → Raft
with_books l next_index match_index = record l {
  next_index = next_index;
  match_index = match_index;
}

pub matched_total :
    (l : Raft) (peer next : ℤ) (n : ℕ)
    → at l.next_index peer ≡ some next
    → next +ℤ pos n ≡ last_index l +ℤ pos 1
    → Books peer l
    → (s : Raft) × (matched l peer n ≡ some s) × UpToDate peer l s
unfolding matched with_books last_index
matched_total l peer next n has total b =
    let last : last_index l +ℤ pos 1 -ℤ pos 1 ≡ last_index l = omega int_laws in
    let (ys, put_next, at_next) = put-at l.next_index peer next (last_index l +ℤ pos 1) has in
    let (ms, put_peer, at_peer) = put-at l.match_index peer b.of_peer (last_index l) b.has_peer in
    let (v, own) =
      at_same_length l.match_index ms l.peer_id b.of_own
        (put-length l.match_index ms peer (last_index l) put_peer) b.has_own in
    let (ns, put_own, at_own) = put-at ms l.peer_id v (last_index l) own in
    let hs =
      put-All (λ z. z ≤ℤ last_index l) ms ns l.peer_id (last_index l) put_own (omega arith)
        (put-All (λ z. z ≤ℤ last_index l) l.match_index ms peer (last_index l) put_peer
          (omega arith) b.bounded) in
    let (s, run) =
      advance_total (with_books l ys ns) hs (at_positive ns l.peer_id (last_index l) at_own) in
    let same = advance-SameBooks (with_books l ys ns) s run in
    (
      s,
      rw has (rw total (rw put_next (rw last (rw put_peer (rw put_own run))))),
      record {
        next_behind = ap (λ xs. at xs peer) same.next ∙ at_next;
        match_last =
            ap (λ xs. at xs peer) same.matches
            ∙ put_beside ms ns peer l.peer_id (last_index l) at_peer put_own;
        own_last = ap (λ xs. at xs l.peer_id) same.matches ∙ at_own;
        same_log = same.logs;
        same_base = same.base;
        same_term = same.term;
      },
    )
