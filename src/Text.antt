-- ===== src/Text.antt =====
-- The parts of the C++ standard library that the program's text formats use: `std::to_string` and
-- `atoi` on `int`, and the loop that cuts a text at a separator (src/RaftServer.cpp writes that
-- loop four times). A `std::string` is its list of bytes.
pub mod Decimal
pub mod Cut
use Prim.Native.Char.{code}
use Prim.Native.String.{String}
use shard_kv_raft.Base.{
  ℕ, zero, suc, ◌+◌, ◌-◌, ◌*◌, ◌/◌, ◌%◌, Bool, true, false, ◌&&◌, ◌||◌, List, [], ◌∷◌, ◌++◌, Option,
  none, some, ltb, leb, ◌==◌, if◌then◌else◌, ℤ, pos, negsuc, ◌≢◌, All, ◌≡◌, refl, arith,
}

abbrev pub Bytes : Type 0
Bytes = List ℕ

-- the bytes of an ASCII literal
abbrev pub codes : String → Bytes
codes String.[] = []
codes (String.◌∷◌ c s) = code c ∷ codes s

abbrev pub is_digit : ℕ → Bool
is_digit c = leb b'0' c && leb c b'9'

-- `out` holds the digits already written; more than `n` fuel is enough.
pub digits : ℕ → ℕ → Bytes → Bytes
digits zero n out = out
digits (suc fuel) n out =
    let more = digits fuel (n / 10) ((b'0' + n % 10) ∷ out) in
    if ltb n 10 then (b'0' + n) ∷ out else more

unfoldable pub to_string : ℤ → Bytes
unfolding digits
to_string (pos n) = digits (suc n) n []
to_string (negsuc n) = b'-' ∷ digits (suc (suc n)) (suc n) []

-- the value of the digits in front of a text, behind the digits of `n`
pub digits_value : ℕ → Bytes → ℕ
digits_value n [] = n
digits_value n (c ∷ s) =
    let more = digits_value (n * 10 + (c - b'0')) s in if is_digit c then more else n

pub is_space : ℕ → Bool
is_space c = c == b' ' || (leb 9 c && leb c 13)

pub negate : ℕ → ℤ
negate zero = pos 0
negate (suc n) = negsuc n

pub signed : Bytes → ℤ
unfolding digits_value negate
signed [] = pos 0
signed (c ∷ s) =
    if c == b'-'
    then negate (digits_value 0 s)
    else if c == b'+'
    then pos (digits_value 0 s)
    else pos (digits_value 0 (c ∷ s))

unfoldable pub atoi : Bytes → ℤ
unfolding signed is_space
atoi [] = signed []
atoi (c ∷ s) = let rest = atoi s in if is_space c then rest else signed (c ∷ s)

-- `if(tmp.size() != 0) str.push_back(tmp);`
unfoldable pub push_nonempty : List Bytes → Bytes → List Bytes
push_nonempty str [] = str
push_nonempty str (c ∷ s) = str ++ (c ∷ s) ∷ []

-- The loop over the text: the parts so far and the current part.
unfoldable pub cut : ℕ → Bytes → List Bytes → Bytes → List Bytes × Bytes
unfolding push_nonempty
cut sep [] str tmp = (str, tmp)
cut sep (c ∷ s) str tmp =
    cut sep s (if c == sep then push_nonempty str tmp else str)
      (if c == sep then [] else tmp ++ c ∷ [])

-- The text before the first separator, and the text behind it if there is one.
unfoldable pub break_at : ℕ → Bytes → Bytes → Bytes × Option Bytes
break_at sep [] tmp = (tmp, none)
break_at sep (c ∷ s) tmp =
    let more = break_at sep s (tmp ++ c ∷ []) in if c == sep then (tmp, some s) else more

abbrev pub Lacks : ℕ → Bytes → Type 0
Lacks b = All (λ c. c ≢ b)

-- `==` on `std::string`
unfoldable pub same : Bytes → Bytes → Bool
same [] [] = true
same (a ∷ s) (b ∷ t) = (a == b) && same s t
same s t = false

pub same→eq : (s t : Bytes) → same s t ≡ true → s ≡ t
unfolding same
same→eq [] [] h = refl
same→eq [] (b ∷ t) h = cc
same→eq (a ∷ s) [] h = cc
same→eq (a ∷ s) (b ∷ t) h = ground (arith, same→eq s t)

pub same_refl : (s : Bytes) → same s s ≡ true
unfolding same
same_refl [] = refl
same_refl (a ∷ s) = ground (arith, same_refl s)
