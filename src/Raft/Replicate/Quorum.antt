-- ===== src/Raft/Replicate/Quorum.antt =====
-- The commit index is one that a majority of the match indices has reached.
use shard_kv_raft.Base.{
  ℕ, zero, suc, ◌+◌, ◌/◌, ◌≤◌, ◌≡◌, refl, ap, ◌∙◌, ◌⊎◌, inl, inr, Bool, true, false, List, [], ◌∷◌,
  some, ℤ, ◌≤ℤ◌, ◌<ℤ◌, ◌==ℤ◌, leb_ℤ, ltb_ℤ, ==ℤ_iff, arith, length, get_elem?, All, Bool-cases,
  if◌then◌else◌, Ensures, Ensures-some, Ensures-if, Ensures-bind,
}
use shard_kv_raft.Raft.State.{LogEntry, Raft}
use shard_kv_raft.Raft.Log.{log_at}
use shard_kv_raft.Raft.Replicate.{insert, sort, majority_match_index, committable, advance}

-- how many of the indices have reached `v`
unfoldable pub reached : ℤ → List ℤ → ℕ
reached v [] = 0
reached v (z ∷ zs) = (if leb_ℤ v z then 1 else 0) + reached v zs

reached-insert : (v z : ℤ) (zs : List ℤ) → reached v (insert z zs) ≡ reached v (z ∷ zs)
unfolding reached insert
reached-insert v z [] = refl
reached-insert v z (y ∷ ys) = ground (arith, reached-insert v z ys)

pub reached-sort : (v : ℤ) (zs : List ℤ) → reached v (sort zs) ≡ reached v zs
unfolding reached sort
reached-sort v [] = refl
reached-sort v (z ∷ zs) =
    reached-insert v z (sort zs) ∙ ap (λ n. (if leb_ℤ v z then 1 else 0) + n) (reached-sort v zs)

length-insert : (z : ℤ) (zs : List ℤ) → length (insert z zs) ≡ suc (length zs)
unfolding insert
length-insert z [] = refl
length-insert z (y ∷ ys) = ground (arith, length-insert z ys)

pub length-sort : (zs : List ℤ) → length (sort zs) ≡ length zs
unfolding sort
length-sort [] = refl
length-sort (z ∷ zs) = length-insert z (sort zs) ∙ ap suc (length-sort zs)

-- Each element is at most the later ones.
abbrev pub IsSorted : List ℤ → Type 0
IsSorted [] = Unit {0}
IsSorted (z ∷ zs) = All (λ y. z ≤ℤ y) zs × IsSorted zs

All-le : (a b : ℤ) (zs : List ℤ) → a ≤ℤ b → All (λ y. b ≤ℤ y) zs → All (λ y. a ≤ℤ y) zs
All-le a b [] h hs = tt
All-le a b (z ∷ zs) h (hz, hs) = (omega arith, All-le a b zs h hs)

All-insert :
    (a z : ℤ) (zs : List ℤ) → a ≤ℤ z → All (λ y. a ≤ℤ y) zs → All (λ y. a ≤ℤ y) (insert z zs)
unfolding insert
All-insert a z [] h hs = (h, tt)
All-insert a z (y ∷ ys) h (hy, hs) = ground (arith, All-insert a z ys h hs)

insert-IsSorted : (z : ℤ) (zs : List ℤ) → IsSorted zs → IsSorted (insert z zs)
unfolding insert
insert-IsSorted z [] h = (tt, tt)
insert-IsSorted z (y ∷ ys) (hy, hs) = elim (Bool-cases (leb_ℤ z y)) [
  | inl le ↦ rw le ((ground arith, All-le z y ys (ground arith) hy), (hy, hs))
  | inr gt ↦ rw gt (All-insert y z ys (ground arith) hy, insert-IsSorted z ys hs)
]

pub sort-IsSorted : (zs : List ℤ) → IsSorted (sort zs)
unfolding sort
sort-IsSorted [] = tt
sort-IsSorted (z ∷ zs) = insert-IsSorted z (sort zs) (sort-IsSorted zs)

reached-All : (v : ℤ) (zs : List ℤ) → All (λ y. v ≤ℤ y) zs → reached v zs ≡ length zs
unfolding reached
reached-All v [] h = refl
reached-All v (z ∷ zs) (hz, hs) = ground (arith, reached-All v zs hs)

-- At place `i` of a sorted list all but `i` have reached the element.
reached-get_elem? :
    (zs : List ℤ) (i : ℕ) (v : ℤ)
    → IsSorted zs
    → get_elem? zs i ≡ some v
    → length zs ≤ reached v zs + i
unfolding reached
reached-get_elem? [] i v s h = cc
reached-get_elem? (z ∷ zs) zero v s h = ground (arith, reached-All z zs s.0)
reached-get_elem? (z ∷ zs) (suc i) v s h = ground (arith, reached-get_elem? zs i v s.1 h)

-- If the leader takes an index from its `n` match indices, at least `n - n / 2` of them have reached it:
-- more than half if `n` is odd.
pub majority_reached :
    (match_index : List ℤ) (v : ℤ)
    → majority_match_index match_index ≡ some v
    → length match_index ≤ reached v match_index + length match_index / 2
unfolding majority_match_index
majority_reached zs v h = omega (
  arith,
  reached-get_elem? (sort zs) (length zs / 2) v (sort-IsSorted zs) h,
  length-sort zs,
  reached-sort v zs,
)

-- The commit index moves forward, to an index that `n - n / 2` of the `n` match indices have
-- reached, and whose entry is in the snapshot or of the leader's own term.
pub record Commits (r r' : Raft) : Type 0 where
  pub forward : r.commit_index <ℤ r'.commit_index
  pub quorum :
      length r.match_index ≤ reached r'.commit_index r.match_index + length r.match_index / 2
  pub own_term :
      (r'.commit_index ≤ℤ r.last_included_index)
      ⊎ ((e : LogEntry) × (log_at r r'.commit_index ≡ some e) × (e.term ≡ r.cur_term))

committable_sound :
    (r : Raft) (index : ℤ)
    → committable r index ≡ some true
    → (index ≤ℤ r.last_included_index)
      ⊎ ((e : LogEntry) × (log_at r index ≡ some e) × (e.term ≡ r.cur_term))
unfolding committable
committable_sound r index h = sound.result true h refl
  where
    sound :
        Ensures
          (λ b.
            b ≡ true
            → (index ≤ℤ r.last_included_index)
              ⊎ ((e : LogEntry) × (log_at r index ≡ some e) × (e.term ≡ r.cur_term)))
          (committable r index)
    sound =
        Ensures-if (leb_ℤ index r.last_included_index) _ _
          (λ early. Ensures-some true (λ _. inl (ground arith)))
          (λ late. Ensures-bind (log_at r index) _ λ e here.
            Ensures-some (e.term ==ℤ r.cur_term)
              (λ t. inr (e, here, (==ℤ_iff e.term r.cur_term).0 t)))

-- When the leader looks for a new commit index and the search returns, it changes nothing, or only
-- the commit index: forward, to an index that `n - n / 2` of the `n` match indices have reached, and
-- whose entry is in the snapshot or of the leader's own term.
pub advance-Commits :
    (r r' : Raft)
    → advance r ≡ some r'
    → (r' ≡ r) ⊎ ((r' ≡ record r { commit_index = r'.commit_index }) × Commits r r')
unfolding advance
advance-Commits r r' = (commits r).result r'
  where
    decide :
        (r : Raft) (index : ℤ)
        → majority_match_index r.match_index ≡ some index
        → ltb_ℤ r.commit_index index ≡ true
        → (ok : Bool) → committable r index ≡ some ok
        → ((if ok then record r { commit_index = index } else r) ≡ r)
          ⊎ (((if ok then record r { commit_index = index } else r) ≡ record r {
            commit_index = (if ok then record r { commit_index = index } else r).commit_index;
          })
              × Commits r (if ok then record r { commit_index = index } else r))
    decide r index found newer false run = inl refl
    decide r index found newer true run = inr (
      refl,
      record {
        forward = ground arith;
        quorum = majority_reached r.match_index index found;
        own_term = committable_sound r index run;
      },
    )

    commits :
        (r : Raft)
        → Ensures
            (λ s. (s ≡ r) ⊎ ((s ≡ record r { commit_index = s.commit_index }) × Commits r s))
            (advance r)
    commits r = Ensures-bind (majority_match_index r.match_index) _ λ index found.
        Ensures-if (ltb_ℤ r.commit_index index) _ _
          (λ newer.
            Ensures-bind (committable r index) _
              λ ok run. Ensures-some _ (decide r index found newer ok run))
          (λ old. Ensures-some r (inl refl))
