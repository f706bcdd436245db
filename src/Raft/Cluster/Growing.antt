-- ===== src/Raft/Cluster/Growing.antt =====
-- A leader's new entry as a new fact of the history.
use shard_kv_raft.Base.{
  ◌≡◌, refl, sym, ap, ◌⊎◌, inl, inr, Bool, ◌&&◌, true, false, Bool-cases, List, [], ◌∷◌, ◌++◌, none,
  some, ℤ, pos, ◌+ℤ◌, ◌==ℤ◌, ==ℤ→eq, ==ℤ-refl, int_laws, length-append, All-append, if◌then◌else◌,
}
use mathlib.Core.Option.{some-injective}
use shard_kv_raft.Text.{Bytes}
use shard_kv_raft.Raft.State.{LogEntry, Raft}
use shard_kv_raft.Raft.Log.{last_index, last_term, back_term, push_back_log}
use shard_kv_raft.Raft.Wire.Entries.{IsClean}
use shard_kv_raft.Raft.Cluster.Links.{History, Extends, Linked-append}
use shard_kv_raft.Raft.Cluster.Chains.{IsChained, IsChained-Extends}

both : (a b : Bool) → (a && b) ≡ true → (a ≡ true) × (b ≡ true)
both true true e = (refl, refl)
both true false e = cc
both false b e = cc

-- The history with one more entry.
pub extend : History → ℤ → ℤ → Bytes × ℤ → History
extend h i t x j u = if (j ==ℤ i) && (u ==ℤ t) then some x else h j u

pub extend-here : (h : History) (i t : ℤ) (x : Bytes × ℤ) → extend h i t x i t ≡ some x
unfolding extend
extend-here h i t x = rw (==ℤ-refl i, ==ℤ-refl t)

pub extend-cases :
    (h : History) (i t : ℤ) (x : Bytes × ℤ) (j u : ℤ) (y : Bytes × ℤ)
    → extend h i t x j u ≡ some y
    → ((j ≡ i) × (u ≡ t) × (y ≡ x)) ⊎ (h j u ≡ some y)
unfolding extend
extend-cases h i t x j u y e = elim (Bool-cases ((j ==ℤ i) && (u ==ℤ t))) [
  | inl new ↦
      let (a, b) = both (j ==ℤ i) (u ==ℤ t) new in
      inl (==ℤ→eq j i a, ==ℤ→eq u t b, some-injective y x (sym (rw new at e)))
  | inr old ↦ inr (rw old at e)
]

pub extend-Extends :
    (h : History) (i t : ℤ) (x : Bytes × ℤ) → h i t ≡ none → Extends h (extend h i t x)
unfolding extend
extend-Extends h i t x free j u y e = elim (Bool-cases ((j ==ℤ i) && (u ==ℤ t))) [
  | inl new ↦
      let (a, b) = both (j ==ℤ i) (u ==ℤ t) new in absurd (clash (==ℤ→eq j i a) (==ℤ→eq u t b))
  | inr old ↦ rw old e
]
  where
    clash : j ≡ i → u ≡ t → ⊥
    clash p q = cc (e, free, ap (λ z. h z u) p, ap (h i) q)

pub back_term-append :
    (t : ℤ) (es : List LogEntry) (e : LogEntry) → back_term t (es ++ e ∷ []) ≡ e.term
unfolding back_term
back_term-append t [] e = refl
back_term-append t (x ∷ es) e = back_term-append x.term es e

module _ (h : History) (r : Raft) (e : LogEntry) where
  abbrev pub grown : History
  grown = extend h (last_index r +ℤ pos 1) e.term (e.cmd, last_term r)

  pub last_index-push : last_index (push_back_log e r) ≡ last_index r +ℤ pos 1
  unfolding last_index push_back_log
  last_index-push = omega (int_laws, length-append r.logs (e ∷ []))

  pub last_term-push : last_term (push_back_log e r) ≡ e.term
  unfolding last_term push_back_log
  last_term-push = back_term-append r.last_include_term r.logs e

  -- The log with the entry agrees with the history that has the entry.
  pub push-IsChained :
      h (last_index r +ℤ pos 1) e.term ≡ none
      → IsClean b';' e
      → IsChained h r
      → IsChained grown (push_back_log e r)
  unfolding push_back_log last_index last_term
  push-IsChained free clean chain =
      let (c, low) =
        IsChained-Extends r (extend-Extends h _ e.term (e.cmd, last_term r) free) chain in
      (
        record {
          linked =
              Linked-append grown r.last_included_index r.last_include_term r.logs (e ∷ []) c.linked
                (extend-here h (last_index r +ℤ pos 1) e.term (e.cmd, last_term r), tt);
          clean = All-append _ r.logs (e ∷ []) c.clean (clean, tt);
          based = c.based;
        },
        low,
      )
