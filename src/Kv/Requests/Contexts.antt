-- ===== src/Kv/Requests/Contexts.antt =====
-- The contexts of src/kvRaft.cpp over the life of a call: who still points to one when it ends.
use shard_kv_raft.Base.{
  ℕ, zero, suc, ◌≡◌, ◌≢◌, refl, sym, ap, ◌∙◌, true, false, List, [], ◌∷◌, none, some, ℤ, ◌==ℤ◌,
  ==ℤ_iff, set, get_elem?, Bool-cases, inl, inr, arith, if◌then◌else◌,
}
use shard_kv_raft.Text.{codes}
use shard_kv_raft.Dict.{lookup, erase, IsUnique, lookup-erase, int_eq}
use shard_kv_raft.Raft.State.{Operation}
use shard_kv_raft.Kv.{KvServer, OpContext, deref, context_at, waiting}
use shard_kv_raft.Kv.Refines.{IsLive}
use shard_kv_raft.Kv.Requests.{put_answer, Response, returned, destroy, finish_put}

pub get_elem?-set_same {ℓ} :
    {A : Type ℓ} (xs : List A) (i : ℕ) (x v : A)
    → get_elem? xs i ≡ some x
    → get_elem? (set xs i v) i ≡ some v
get_elem?-set_same [] i x v h = cc
get_elem?-set_same (y ∷ xs) zero x v h = refl
get_elem?-set_same (y ∷ xs) (suc i) x v h = get_elem?-set_same xs i x v h

pub get_elem?-set_other {ℓ} :
    {A : Type ℓ} (xs : List A) (i j : ℕ) (v : A) → i ≢ j → get_elem? (set xs i v) j ≡ get_elem? xs j
get_elem?-set_other [] i j v h = refl
get_elem?-set_other (y ∷ xs) zero zero v h = absurd (h refl)
get_elem?-set_other (y ∷ xs) zero (suc j) v h = refl
get_elem?-set_other (y ∷ xs) (suc i) zero v h = refl
get_elem?-set_other (y ∷ xs) (suc i) (suc j) v h = get_elem?-set_other xs i j v (λ e. h (ap suc e))

-- Let the map take the request's index to its context, and the context be answered and marked with
-- the wrong leader. Then PutImpl answers that the leader is wrong, and after it the ApplyLoop reads through a
-- pointer to a destroyed context as soon as an entry of that index is applied.
pub finish_put_dangles :
    (kv : KvServer) (op : Operation) (address : ℕ) (c : OpContext)
    → lookup op.op_index kv.request_map ≡ some address
    → get_elem? kv.contexts address ≡ some (some c)
    → c.is_ready ≡ true
    → c.flags.leader_wrong ≡ true
    → (kv' : KvServer) × (res : Response) × (finish_put kv op address ≡ some (returned kv' res))
      × (res.is_wrong_leader ≡ true)
      × (waiting kv' op.op_index ≡ none)
unfolding finish_put deref destroy waiting context_at
finish_put_dangles kv op address c here alive ready wrong =
    let marked : waiting (destroy kv address) op.op_index ≡ none =
      rw here rw (get_elem?-set_same kv.contexts address (some c) none alive) refl in
    (
      destroy kv address,
      record { kind = codes "set"; is_wrong_leader = true; answer = put_answer false },
      rw alive rw ready rw wrong refl,
      refl,
      marked,
    )

-- No two requests wait on one context.
abbrev pub IsSole : KvServer → Type 0
IsSole kv =
    (i j : ℤ) (address : ℕ)
    → lookup i kv.request_map ≡ some address
    → lookup j kv.request_map ≡ some address
    → i ≡ j

erase-live :
    (kv : KvServer) (op : Operation) (address : ℕ)
    → IsLive kv
    → IsSole kv
    → IsUnique kv.request_map
    → lookup op.op_index kv.request_map ≡ some address
    → (index : ℤ) (b : ℕ)
    → (if op.op_index ==ℤ index then none else lookup index kv.request_map) ≡ some b
    → (c : OpContext) × (get_elem? (set kv.contexts address none) b ≡ some (some c))
erase-live kv op address live sole unique here index b h =
    elim (Bool-cases (op.op_index ==ℤ index)) [
      | inl own ↦ absurd (kept_other own h)
      | inr other ↦
          let kept = kept_lookup other h in
          let (c, e) = live index b kept in
          (c, get_elem?-set_other kv.contexts address b none (λ p. apart other (sym p) kept) ∙ e)
    ]
  where
    kept_other :
        op.op_index ==ℤ index ≡ true
        → (if op.op_index ==ℤ index then none else lookup index kv.request_map) ≢ some b
    kept_other own = ground arith

    kept_lookup :
        op.op_index ==ℤ index ≡ false
        → (if op.op_index ==ℤ index then none else lookup index kv.request_map) ≡ some b
        → lookup index kv.request_map ≡ some b
    kept_lookup other = ground arith

    apart : op.op_index ==ℤ index ≡ false → b ≡ address → lookup index kv.request_map ≢ some b
    apart other p kept =
        let same_index = sole op.op_index index address here (kept ∙ ap some p) in
        ground (arith, ==ℤ_iff op.op_index index, same_index)

-- Let every context in the map be alive, no two requests share one, and the map take the request's
-- index to its context, which is answered and not marked with the wrong leader. Then PutImpl answers that the
-- value is set, takes the index out of the map, and every context in the map is alive again.
pub finish_put-IsLive :
    (kv : KvServer) (op : Operation) (address : ℕ) (c : OpContext)
    → IsLive kv
    → IsSole kv
    → IsUnique kv.request_map
    → lookup op.op_index kv.request_map ≡ some address
    → get_elem? kv.contexts address ≡ some (some c)
    → c.is_ready ≡ true
    → c.flags.leader_wrong ≡ false
    → (kv' : KvServer) × (res : Response) × (finish_put kv op address ≡ some (returned kv' res))
      × (res.answer ≡ put_answer true)
      × (lookup op.op_index kv'.request_map ≡ none)
      × IsLive kv'
unfolding finish_put deref destroy
finish_put-IsLive kv op address c live sole unique here alive ready right = (
  destroy (record kv { request_map = erase op.op_index kv.request_map }) address,
  record { kind = codes "set"; is_wrong_leader = false; answer = put_answer true },
  rw alive rw ready rw right refl,
  refl,
  ground (
    arith,
    lookup-erase op.op_index op.op_index kv.request_map unique,
    ==ℤ_iff op.op_index op.op_index,
  ),
  λ index b h.
      erase-live kv op address live sole unique here index b
        (sym (lookup-erase op.op_index index kv.request_map unique) ∙ h),
)
