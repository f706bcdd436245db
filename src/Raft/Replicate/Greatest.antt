-- ===== src/Raft/Replicate/Greatest.antt =====
-- The index that the leader of src/RaftServer.cpp takes from its match indices, by what it counts.
use shard_kv_raft.Base.{
  ℕ, zero, suc, ◌+◌, ◌/◌, ◌≤◌, ◌≡◌, ◌↔◌, sym, List, [], ◌∷◌, some, ℤ, ◌≤ℤ◌, ◌<ℤ◌, leb_ℤ, arith,
  length, get_elem?, Bool-cases, inl, inr,
}
use mathlib.Core.Path.{subst}
use mathlib.Core.Option.{some-injective}
use shard_kv_raft.Raft.Replicate.{sort, majority_match_index}
use shard_kv_raft.Raft.Replicate.Quorum.{
  reached, IsSorted, sort-IsSorted, length-sort, reached-sort, majority_reached,
}
use shard_kv_raft.Raft.Replicate.Vectors.{get-All}

reached_le : (w : ℤ) (zs : List ℤ) → reached w zs ≤ length zs
unfolding reached
reached_le w [] = omega arith
reached_le w (z ∷ zs) = ground (arith, reached_le w zs)

reached_antitone : (v w : ℤ) (zs : List ℤ) → w ≤ℤ v → reached v zs ≤ reached w zs
unfolding reached
reached_antitone v w [] h = omega arith
reached_antitone v w (z ∷ zs) h = ground (arith, reached_antitone v w zs h)

-- At most the places behind an element of a sorted list have reached what is above it.
reached_above :
    (zs : List ℤ) (i : ℕ) (v w : ℤ)
    → IsSorted zs
    → get_elem? zs i ≡ some v
    → v <ℤ w
    → reached w zs + suc i ≤ length zs
unfolding reached
reached_above [] i v w s h lt = cc
reached_above (z ∷ zs) zero v w s h lt =
    let same = some-injective _ _ h in
    let below : z <ℤ w = subst (λ y. y <ℤ w) (sym same) lt in ground (arith, reached_le w zs, below)
reached_above (z ∷ zs) (suc i) v w s h lt =
    let le : z ≤ℤ v = get-All (λ y. z ≤ℤ y) zs i v s.0 h in
    ground (arith, reached_above zs i v w s.1 h lt, le)

-- If the leader takes an index from its `n` match indices, then it is the greatest that `n - n / 2` of
-- them have reached: that many have reached an index exactly when it is not above the one taken.
pub majority_greatest :
    (match_index : List ℤ) (v w : ℤ)
    → majority_match_index match_index ≡ some v
    → (length match_index ≤ reached w match_index + length match_index / 2) ↔ (w ≤ℤ v)
unfolding majority_match_index
majority_greatest zs v w found =
    (below, λ le. omega (arith, majority_reached zs v found, reached_antitone v w zs le))
  where
    below : length zs ≤ reached w zs + length zs / 2 → w ≤ℤ v
    below many = elim (Bool-cases (leb_ℤ w v)) [
      | inl le ↦ ground arith
      | inr above ↦ absurd (
          omega (
            arith,
            many,
            reached_above (sort zs) (length zs / 2) v w (sort-IsSorted zs) found (ground arith),
            length-sort zs,
            reached-sort w zs,
          ))
    ]
