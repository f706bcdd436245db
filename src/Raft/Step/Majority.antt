-- ===== src/Raft/Step/Majority.antt =====
-- Majorities of the numbers below the size of the cluster.
use shard_kv_raft.Base.{
  ℕ, zero, suc, ◌<◌, ◌*◌, Bool, true, false, ◌+◌, ◌≤◌, ◌≡◌, inl, inr, arith, Bool-cases,
}

-- How many of the first `n` numbers are in the set.
unfoldable pub count : ℕ → (ℕ → Bool) → ℕ
count zero p = 0
count (suc n) p = let rest = count n p in elim (p n) [ true ↦ suc rest | false ↦ rest ]

-- More than half of the cluster.
abbrev pub IsMajority : ℕ → (ℕ → Bool) → Type 0
IsMajority n p = n < 2 * count n p

count_in : (n : ℕ) (p : ℕ → Bool) → p n ≡ true → count (suc n) p ≡ suc (count n p)
unfolding count
count_in n p h = ground arith

count_out : (n : ℕ) (p : ℕ → Bool) → p n ≡ false → count (suc n) p ≡ count n p
unfolding count
count_out n p h = ground arith

count_le : (n : ℕ) (q : ℕ → Bool) → count (suc n) q ≤ suc (count n q)
unfolding count
count_le n q = ground arith

-- Some number below `n` is in both sets.
abbrev Meet : ℕ → (ℕ → Bool) → (ℕ → Bool) → Type 0
Meet n p q = (i : ℕ) × (i < n) × (p i ≡ true) × (q i ≡ true)

Meet-suc : (n : ℕ) (p q : ℕ → Bool) → Meet n p q → Meet (suc n) p q
Meet-suc n p q (i, lo, in_p, in_q) = (i, omega (arith, lo), in_p, in_q)

none_counted : (p q : ℕ → Bool) → ¬ (0 < count 0 p + count 0 q)
unfolding count
none_counted p q h = omega (arith, h)

both_count : (n : ℕ) (p q : ℕ → Bool) → n < count n p + count n q → Meet n p q
both_count zero p q h = absurd (none_counted p q h)
both_count (suc n) p q h = elim (Bool-cases (p n)) [
  | inl in_p ↦ elim (Bool-cases (q n)) [
    | inl in_q ↦ (n, omega arith, in_p, in_q)
    | inr out_q ↦
        Meet-suc n p q (both_count n p q (omega (arith, h, count_in n p in_p, count_out n q out_q)))
  ]
  | inr out_p ↦
      Meet-suc n p q (both_count n p q (omega (arith, h, count_out n p out_p, count_le n q)))
]

-- Two majorities share a member.
pub majorities_meet :
    (n : ℕ) (p q : ℕ → Bool)
    → IsMajority n p
    → IsMajority n q
    → (i : ℕ) × (i < n) × (p i ≡ true) × (q i ≡ true)
majorities_meet n p q hp hq = both_count n p q (omega (arith, hp, hq))
