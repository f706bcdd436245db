-- ===== src/Text/Decimal.antt =====
-- `atoi` reads back what `std::to_string` prints, and the print holds digits and a sign only.
use shard_kv_raft.Base.{
  ℕ, zero, suc, ◌+◌, ◌/◌, ◌%◌, ◌≤◌, ◌<◌, ◌≡◌, ◌≢◌, refl, ◌∙◌, [], ◌∷◌, ℤ, pos, negsuc, arith, ltb,
  All, sym, ap, Bool-cases, inl, inr,
}
use mathlib.Core.Path.{subst}
use mathlib.Core.List.{cons-ne-nil}
use shard_kv_raft.Text.{Bytes, digits, to_string, digits_value, negate, atoi, Lacks}

abbrev pub IsDigit : ℕ → Type 0
IsDigit c = (b'0' ≤ c) × (c ≤ b'9')

digits_value_step :
    (n : ℕ) (out : Bytes) → digits_value (n / 10) ((b'0' + n % 10) ∷ out) ≡ digits_value n out
unfolding digits_value
digits_value_step n out = ground arith

digits_value_last :
    (n : ℕ) (out : Bytes) → n < 10 → digits_value 0 ((b'0' + n) ∷ out) ≡ digits_value n out
unfolding digits_value
digits_value_last n out h = ground arith

digits_value-digits :
    (fuel n : ℕ) (out : Bytes) → n < fuel → digits_value 0 (digits fuel n out) ≡ digits_value n out
unfolding digits
digits_value-digits zero n out h = elim h [ ]
digits_value-digits (suc fuel) n out h = ground (
  arith,
  digits_value-digits fuel (n / 10) ((b'0' + n % 10) ∷ out),
  digits_value_step n out,
  digits_value_last n out,
)

digits-IsDigit :
    (fuel n : ℕ) (out : Bytes) → n < fuel → All IsDigit out → All IsDigit (digits fuel n out)
unfolding digits
digits-IsDigit zero n out h a = elim h [ ]
digits-IsDigit (suc fuel) n out h a =
    ground (arith, digits-IsDigit fuel (n / 10) ((b'0' + n % 10) ∷ out))

-- The print of a natural number starts with a digit.
digits_cons :
    (fuel n : ℕ) (out : Bytes) → n < fuel → (c : ℕ) × (s : Bytes) × (digits fuel n out ≡ c ∷ s)
unfolding digits
digits_cons zero n out h = elim h [ ]
digits_cons (suc fuel) n out h = elim (Bool-cases (ltb n 10)) [
  | inl e ↦ (b'0' + n, out, rw e)
  | inr e ↦ rw e (digits_cons fuel (n / 10) ((b'0' + n % 10) ∷ out) (ground arith))
]

atoi_digit : (c : ℕ) (s : Bytes) → IsDigit c → atoi (c ∷ s) ≡ pos (digits_value 0 (c ∷ s))
unfolding atoi
atoi_digit c s h = ground arith

atoi-digits : (n : ℕ) → atoi (digits (suc n) n []) ≡ pos n
atoi-digits n =
    let (c, s, e) = digits_cons (suc n) n [] (omega arith) in
    let value = digits_value-digits (suc n) n [] (omega arith) in
    let printed = digits-IsDigit (suc n) n [] (omega arith) tt in
    rw e (
      atoi_digit c s (subst (All IsDigit) e printed).0
      ∙ ap pos (sym (ap (digits_value 0) e) ∙ value ∙ unfold digits_value in refl))

atoi_minus : (s : Bytes) → atoi (b'-' ∷ s) ≡ negate (digits_value 0 s)
unfolding atoi
atoi_minus s = refl

-- Every `int` is read back from its decimal print.
pub atoi-to_string : (z : ℤ) → atoi (to_string z) ≡ z
unfolding to_string
atoi-to_string (pos n) = atoi-digits n
atoi-to_string (negsuc n) =
    atoi_minus _
    ∙ ap negate (digits_value-digits (suc (suc n)) (suc n) [] (omega arith))
    ∙ unfold digits_value negate in refl

digit-Lacks : (b : ℕ) (s : Bytes) → ¬ IsDigit b → All IsDigit s → Lacks b s
digit-Lacks b [] h a = tt
digit-Lacks b (c ∷ s) h a = ((λ e. h (subst IsDigit e a.0)), digit-Lacks b s h a.1)

-- A print holds none of the separators of the text formats.
pub to_string-Lacks : (b : ℕ) (z : ℤ) → ¬ IsDigit b → b ≢ b'-' → Lacks b (to_string z)
unfolding to_string
to_string-Lacks b (pos n) h m = digit-Lacks b _ h (digits-IsDigit (suc n) n [] (omega arith) tt)
to_string-Lacks b (negsuc n) h m =
    (λ e. m (sym e), digit-Lacks b _ h (digits-IsDigit (suc (suc n)) (suc n) [] (omega arith) tt))

pub to_string-ne-nil : (z : ℤ) → to_string z ≢ []
unfolding to_string
to_string-ne-nil (pos n) =
    let (c, s, e) = digits_cons (suc n) n [] (omega arith) in rw e (cons-ne-nil c s)
to_string-ne-nil (negsuc n) = cons-ne-nil b'-' _
