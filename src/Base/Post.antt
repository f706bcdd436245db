-- ===== src/Base/Post.antt =====
-- What holds of the result of a computation that may be undefined, one rule for each way to build
-- the computation.
use mathlib.Core.Path.{◌≡◌, refl, subst}
use mathlib.Core.Bool.{Bool, true, false}
use mathlib.Core.Option.{Option, none, some, some-injective}
use shard_kv_raft.Base.Tests.{◌>>=◌, if◌then◌else◌}

pub record Ensures {ℓ κ} {B : Type ℓ} (P : B → Type κ) (m : Option B) : Type (ℓ ⊔ κ) where
  pub result : (b : B) → m ≡ some b → P b

module _ {ℓ κ} {B : Type ℓ} {P : B → Type κ} where
  pub Ensures-some : (b : B) → P b → Ensures P (some b)
  Ensures-some b h = record { result = λ c e. subst P (some-injective b c e) h }

  pub Ensures-if :
      (t : Bool) (m n : Option B)
      → (t ≡ true → Ensures P m)
      → (t ≡ false → Ensures P n)
      → Ensures P (if t then m else n)
  Ensures-if true m n hm hn = hm refl
  Ensures-if false m n hm hn = hn refl

module _ {ℓ κ μ} {A : Type ℓ} {B : Type κ} {P : B → Type μ} where
  pub Ensures-bind :
      (m : Option A) (f : A → Option B)
      → ((a : A) → m ≡ some a → Ensures P (f a))
      → Ensures P (m >>= f)
  Ensures-bind none f h = record { result = λ b e. cc }
  Ensures-bind (some a) f h = h a refl
