-- ===== src/Raft/Cluster/Links.antt =====
-- A log as a chain: what the index and the term of an entry determine, if no two nodes disagree.
use shard_kv_raft.Base.{
  ℕ, zero, suc, ◌≡◌, sym, List, [], ◌∷◌, ◌++◌, Option, some, ℤ, pos, ◌+ℤ◌, int_laws, length, take,
  drop, get_elem?,
}
use mathlib.Core.Path.{subst}
use mathlib.Core.Option.{some-injective}
use shard_kv_raft.Text.{Bytes}
use shard_kv_raft.Raft.State.{LogEntry}
use shard_kv_raft.Raft.Log.{back_term}

-- The command of the entry with an index and a term, and the term of the entry before it.
abbrev pub History : Type 0
History = ℤ → ℤ → Option (Bytes × ℤ)

-- The entries behind index `i`, where an entry of term `t` stands, are as the history has them.
abbrev pub Linked : History → ℤ → ℤ → List LogEntry → Type 0
Linked h i t [] = Unit
Linked h i t (e ∷ es) = (h (i +ℤ pos 1) e.term ≡ some (e.cmd, t)) × Linked h (i +ℤ pos 1) e.term es

-- One history has all that another has.
abbrev pub Extends : History → History → Type 0
Extends h k = (i t : ℤ) (x : Bytes × ℤ) → h i t ≡ some x → k i t ≡ some x

pub Linked-Extends :
    {h k : History} (i t : ℤ) (es : List LogEntry) → Extends h k → Linked h i t es → Linked k i t es
Linked-Extends i t [] more l = tt
Linked-Extends i t (e ∷ es) more (here, rest) =
    (more (i +ℤ pos 1) e.term _ here, Linked-Extends (i +ℤ pos 1) e.term es more rest)

next_index : (i : ℤ) (n : ℕ) → i +ℤ pos 1 +ℤ pos n ≡ i +ℤ pos (suc n)
next_index i n = omega int_laws

at_once : (i : ℤ) → i +ℤ pos 0 ≡ i
at_once i = omega int_laws

module _ (h : History) where
  pub Linked-append :
      (i t : ℤ) (xs ys : List LogEntry)
      → Linked h i t xs
      → Linked h (i +ℤ pos (length xs)) (back_term t xs) ys
      → Linked h i t (xs ++ ys)
  unfolding back_term
  Linked-append i t [] ys lx ly = subst (λ z. Linked h z t ys) (at_once i) ly
  Linked-append i t (x ∷ xs) ys (here, rest) ly = (
    here,
    Linked-append (i +ℤ pos 1) x.term xs ys rest
        (subst (λ z. Linked h z (back_term x.term xs) ys) (sym (next_index i (length xs))) ly),
  )

  pub Linked-take :
      (i t : ℤ) (n : ℕ) (es : List LogEntry) → Linked h i t es → Linked h i t (take n es)
  Linked-take i t zero es l = tt
  Linked-take i t (suc n) [] l = tt
  Linked-take i t (suc n) (e ∷ es) (here, rest) = (here, Linked-take (i +ℤ pos 1) e.term n es rest)

  pub Linked-drop :
      (i t : ℤ) (n : ℕ) (es : List LogEntry)
      → Linked h i t es
      → Linked h (i +ℤ pos n) (back_term t (take n es)) (drop n es)
  unfolding back_term
  Linked-drop i t zero es l = subst (λ z. Linked h z t es) (sym (at_once i)) l
  Linked-drop i t (suc n) [] l = tt
  Linked-drop i t (suc n) (e ∷ es) (here, rest) =
      subst (λ z. Linked h z (back_term e.term (take n es)) (drop n es)) (next_index i n)
        (Linked-drop (i +ℤ pos 1) e.term n es rest)

  -- An entry at place `n` is in the history, and the entries before it end in the term it names.
  pub Linked-get :
      (i t : ℤ) (n : ℕ) (es : List LogEntry) (e : LogEntry)
      → Linked h i t es
      → get_elem? es n ≡ some e
      → h (i +ℤ pos (suc n)) e.term ≡ some (e.cmd, back_term t (take n es))
  unfolding back_term
  Linked-get i t n [] e l p = cc
  Linked-get i t zero (x ∷ es) e (here, rest) p =
      subst (λ (y : LogEntry). h (i +ℤ pos 1) y.term ≡ some (y.cmd, t)) (some-injective x e p) here
  Linked-get i t (suc n) (x ∷ es) e (here, rest) p =
      subst (λ z. h z e.term ≡ some (e.cmd, back_term x.term (take n es))) (next_index i (suc n))
        (Linked-get (i +ℤ pos 1) x.term n es e rest p)

pub back_term-take :
    (t : ℤ) (n : ℕ) (es : List LogEntry) (e : LogEntry)
    → get_elem? es n ≡ some e
    → back_term t (take (suc n) es) ≡ e.term
unfolding back_term
back_term-take t n [] e p = cc
back_term-take t zero (x ∷ es) e p = cc
back_term-take t (suc n) (x ∷ es) e p = back_term-take x.term n es e p
