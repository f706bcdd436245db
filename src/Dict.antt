-- ===== src/Dict.antt =====
-- `std::unordered_map` as an association list with one entry for a key. The order of its entries is
-- the order of insertion here; the program only looks keys up and copies whole maps.
use shard_kv_raft.Base.{
  ◌≡◌, ◌≢◌, refl, sym, ◌∙◌, ◌↔◌, inl, inr, Bool, true, false, List, [], ◌∷◌, Option, none, some, ℤ,
  ◌==ℤ◌, ==ℤ_iff, arith, Bool-cases, if◌then◌else◌,
}
use mathlib.Core.Path.{subst}
use shard_kv_raft.Text.{Bytes, same, same→eq, same_refl}

pub record Eq (K : Type 0) : Type 0 where
  pub beq : K → K → Bool
  pub beq_iff : (a b : K) → (beq a b ≡ true) ↔ (a ≡ b)

pub same_iff : (s t : Bytes) → (same s t ≡ true) ↔ (s ≡ t)
same_iff s t = (same→eq s t, λ e. subst (λ x. same s x ≡ true) e (same_refl s))

instance abbrev pub bytes_eq : Eq Bytes
bytes_eq = record { beq = same; beq_iff = same_iff }

instance abbrev pub int_eq : Eq ℤ
int_eq = record { beq = ◌==ℤ◌; beq_iff = ==ℤ_iff }

-- The first of two answers.
unfoldable pub either : {V : Type 0} → Option V → Option V → Option V
either none w = w
either (some v) w = some v

module _ {K : Type 0} ⦃e : Eq K⦄ where
  pub beq_refl : (k : K) → e.beq k k ≡ true
  beq_refl k = (e.beq_iff k k).1 refl

  pub beq-ne : (k j : K) → k ≢ j → e.beq k j ≡ false
  beq-ne k j h = elim (Bool-cases (e.beq k j)) [
    | inl t ↦ absurd (h ((e.beq_iff k j).0 t))
    | inr f ↦ f
  ]

module _ {K V : Type 0} ⦃e : Eq K⦄ where
  -- `m.count(k)` and `m[k]`
  unfoldable pub lookup : K → List (K × V) → Option V
  lookup k [] = none
  lookup k ((j, v) ∷ m) = if e.beq j k then some v else lookup k m

  -- `m[k] = v;`
  unfoldable pub insert : K → V → List (K × V) → List (K × V)
  insert k v [] = (k, v) ∷ []
  insert k v ((j, w) ∷ m) = if e.beq j k then (k, v) ∷ m else (j, w) ∷ insert k v m

  unfoldable pub erase : K → List (K × V) → List (K × V)
  erase k [] = []
  erase k ((j, v) ∷ m) = if e.beq j k then m else (j, v) ∷ erase k m

  -- every entry of the first map is written into the second
  unfoldable pub insert_all : List (K × V) → List (K × V) → List (K × V)
  insert_all [] m = m
  insert_all ((k, v) ∷ new) m = insert_all new (insert k v m)

  pub lookup-insert :
      (k j : K) (v : V) (m : List (K × V))
      → lookup j (insert k v m) ≡ (if e.beq k j then some v else lookup j m)
  unfolding lookup insert
  lookup-insert k j v [] = refl
  lookup-insert k j v ((i, w) ∷ m) =
      ground (arith, e.beq_iff k j, e.beq_iff i k, e.beq_iff i j, lookup-insert k j v m)

  -- no key twice
  abbrev pub IsUnique : List (K × V) → Type 0
  IsUnique [] = Unit {0}
  IsUnique ((k, v) ∷ m) = (lookup k m ≡ none) × IsUnique m

  pub insert-IsUnique : (k : K) (v : V) (m : List (K × V)) → IsUnique m → IsUnique (insert k v m)
  unfolding insert lookup
  insert-IsUnique k v [] h = (refl, tt)
  insert-IsUnique k v ((j, w) ∷ m) (fresh, rest) = elim (Bool-cases (e.beq j k)) [
    | inl hit ↦ rw hit (subst (λ x. lookup x m ≡ none) ((e.beq_iff j k).0 hit) fresh, rest)
    | inr miss ↦
        rw miss (lookup-insert k j v m ∙ rw (flip j k miss) fresh, insert-IsUnique k v m rest)
  ]
    where
      flip : (a b : K) → e.beq a b ≡ false → e.beq b a ≡ false
      flip a b f = beq-ne b a (λ p. cc ((e.beq_iff a b).1 (sym p), f))

  either-insert :
      (j k : K) (v : V) (new m : List (K × V))
      → lookup k new ≡ none
      → either (lookup j new) (lookup j (insert k v m))
        ≡ either (if e.beq k j then some v else lookup j new) (lookup j m)
  unfolding either
  either-insert j k v new m fresh = ground (arith, e.beq_iff k j, lookup-insert k j v m, fresh)

  -- A whole copy over a map: its own entries win.
  pub lookup-insert_all :
      (j : K) (new m : List (K × V))
      → IsUnique new
      → lookup j (insert_all new m) ≡ either (lookup j new) (lookup j m)
  unfolding insert_all lookup either
  lookup-insert_all j [] m h = refl
  lookup-insert_all j ((k, v) ∷ new) m (fresh, rest) =
      lookup-insert_all j new (insert k v m) rest ∙ either-insert j k v new m fresh

  pub lookup-erase :
      (k j : K) (m : List (K × V))
      → IsUnique m
      → lookup j (erase k m) ≡ (if e.beq k j then none else lookup j m)
  unfolding lookup erase
  lookup-erase k j [] h = ground arith
  lookup-erase k j ((i, w) ∷ m) (fresh, rest) =
      ground (arith, e.beq_iff k j, e.beq_iff i k, e.beq_iff i j, fresh, lookup-erase k j m rest)
