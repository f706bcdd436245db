-- ===== src/Raft/Replicate/Vectors.antt =====
-- Lists of indices, as the vectors of src/RaftServer.cpp: places in range, sorting and writing.
use shard_kv_raft.Base.{
  ℕ, zero, suc, ◌<◌, ◌≡◌, refl, sym, ap, ◌∙◌, inl, inr, List, [], ◌∷◌, some, ℤ, pos, negsuc, leb_ℤ,
  arith, length, get_elem?, get_elem?-in_range, length-set, set, All, Bool-cases, ltb,
}
use mathlib.Core.Path.{subst}
use mathlib.Core.Option.{some-injective}
use shard_kv_raft.Raft.State.{at, put}
use shard_kv_raft.Raft.Replicate.{insert, sort}

module _ (P : ℤ → Type 0) where
  All-insert : (z : ℤ) (zs : List ℤ) → P z → All P zs → All P (insert z zs)
  unfolding insert
  All-insert z [] h hs = (h, tt)
  All-insert z (y ∷ ys) h (hy, hs) = elim (Bool-cases (leb_ℤ z y)) [
    | inl le ↦ rw le (h, (hy, hs))
    | inr gt ↦ rw gt (hy, All-insert z ys h hs)
  ]

  pub All-sort : (zs : List ℤ) → All P zs → All P (sort zs)
  unfolding sort
  All-sort [] h = tt
  All-sort (z ∷ zs) (h, hs) = All-insert z (sort zs) h (All-sort zs hs)

  pub get-All : (zs : List ℤ) (i : ℕ) (z : ℤ) → All P zs → get_elem? zs i ≡ some z → P z
  get-All [] i z h e = cc
  get-All (y ∷ ys) zero z (h, hs) e = subst P (some-injective _ _ e) h
  get-All (y ∷ ys) (suc i) z (h, hs) e = get-All ys i z hs e

  All-set : (zs : List ℤ) (i : ℕ) (z : ℤ) → P z → All P zs → All P (set zs i z)
  All-set [] i z h hs = tt
  All-set (y ∷ ys) zero z h (hy, hs) = (h, hs)
  All-set (y ∷ ys) (suc i) z h (hy, hs) = (hy, All-set ys i z h hs)

-- What `v[j] = a` leaves behind.
put-set : (xs ys : List ℤ) (j v : ℤ) → put xs j v ≡ some ys → (m : ℕ) × (set xs m v ≡ ys)
unfolding put
put-set xs ys (negsuc m) v e = cc
put-set xs ys (pos m) v e = elim (Bool-cases (ltb m (length xs))) [
  | inl inside ↦ (m, ground arith)
  | inr outside ↦ absurd (ground arith)
]

pub put-All :
    (P : ℤ → Type 0) (xs ys : List ℤ) (j v : ℤ) → put xs j v ≡ some ys → P v → All P xs → All P ys
put-All P xs ys j v e h hs =
    let (m, same) = put-set xs ys j v e in subst (All P) same (All-set P xs m v h hs)

pub put-length : (xs ys : List ℤ) (j v : ℤ) → put xs j v ≡ some ys → length ys ≡ length xs
put-length xs ys j v e =
    let (m, same) = put-set xs ys j v e in sym (ap length same) ∙ length-set xs m v

-- Putting at any place what another place holds leaves that place as it is.
pub put_beside :
    (xs ys : List ℤ) (i j v : ℤ) → at xs i ≡ some v → put xs j v ≡ some ys → at ys i ≡ some v
unfolding at
put_beside xs ys (negsuc n) j v h e = cc
put_beside xs ys (pos n) j v h e =
    let (m, same) = put-set xs ys j v e in
    subst (λ zs. get_elem? zs n ≡ some v) same (keeps xs n m h)
  where
    keeps : (xs : List ℤ) (n m : ℕ) → get_elem? xs n ≡ some v → get_elem? (set xs m v) n ≡ some v
    keeps [] n m h = cc
    keeps (x ∷ xs) zero zero h = refl
    keeps (x ∷ xs) zero (suc m) h = h
    keeps (x ∷ xs) (suc n) zero h = h
    keeps (x ∷ xs) (suc n) (suc m) h = keeps xs n m h

at_in_range : (xs : List ℤ) (n : ℕ) (v : ℤ) → get_elem? xs n ≡ some v → n < length xs
at_in_range [] n v h = cc
at_in_range (x ∷ xs) zero v h = omega arith
at_in_range (x ∷ xs) (suc n) v h = omega (arith, at_in_range xs n v h)

pub at_same_length :
    (xs ys : List ℤ) (i v : ℤ)
    → length ys ≡ length xs
    → at xs i ≡ some v
    → (w : ℤ) × (at ys i ≡ some w)
unfolding at
at_same_length xs ys (negsuc n) v e h = cc
at_same_length xs ys (pos n) v e h =
    get_elem?-in_range ys n (omega (arith, e, at_in_range xs n v h))

pub at_positive : (xs : List ℤ) (i v : ℤ) → at xs i ≡ some v → 0 < length xs
unfolding at
at_positive xs (negsuc n) v h = cc
at_positive xs (pos n) v h = omega (arith, at_in_range xs n v h)
