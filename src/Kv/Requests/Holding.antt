-- ===== src/Kv/Requests/Holding.antt =====
-- A context of src/kvRaft.cpp whose request waits while ApplyLoop handles other messages.
use shard_kv_raft.Base.{
  ℕ, ◌≡◌, ◌≢◌, refl, sym, ap, ◌∙◌, Bool, List, [], ◌∷◌, Option, none, some, >>=-eq-some, ℤ, pos,
  ◌-ℤ◌, All, get_elem?,
}
use mathlib.Core.Path.{subst}
use mathlib.Core.Option.{some-injective}
use shard_kv_raft.Text.{Bytes, same}
use shard_kv_raft.Dict.{lookup, bytes_eq, int_eq}
use shard_kv_raft.Raft.State.{Operation, ApplyMsg, command, snap}
use shard_kv_raft.Raft.Wire.{get_operation}
use shard_kv_raft.Kv.{
  KvServer, SnapShotInfo, OpContext, deref, context_at, waiting, is_fresh, notify, apply_command,
  apply_snapshot, recover, apply_msg, apply_msgs, write,
}
use shard_kv_raft.Kv.Requests.Contexts.{get_elem?-set_other}

-- The map takes one index to the address, where the context stands as it was made.
pub record Held (i : ℤ) (a : ℕ) (c : OpContext) (kv : KvServer) : Type 0 where
  pub mapped : lookup i kv.request_map ≡ some a
  pub sole : (j : ℤ) → lookup j kv.request_map ≡ some a → j ≡ i
  pub slot : get_elem? kv.contexts a ≡ some (some c)

-- A message that is not the entry of the index.
abbrev pub IsElsewhere : ℤ → ApplyMsg → Type 0
IsElsewhere i (command cmd index term) = index -ℤ pos 1 ≢ i
IsElsewhere i (snap bytes index term) = Unit

found_mapped :
    (kv : KvServer) (o : Option ℕ) (b : ℕ) (d : OpContext)
    → context_at kv o ≡ some (some (b, d))
    → o ≡ some b
unfolding context_at
found_mapped kv none b d e = cc
found_mapped kv (some a) b d e =
    let (x, _, same) = >>=-eq-some (deref kv a) _ e in
    let pair = some-injective _ _ (some-injective _ _ same) in
    ap (λ (p : ℕ × OpContext). some p.0) pair

module _ (i : ℤ) (a : ℕ) (c : OpContext) where
  notify-Held :
      (kv moved : KvServer) (fresh : Bool) (op : Operation) (j : ℤ) (found : Option (ℕ × OpContext))
      → moved.request_map ≡ kv.request_map
      → moved.contexts ≡ kv.contexts
      → waiting kv j ≡ some found
      → j ≢ i
      → Held i a c kv
      → Held i a c (notify moved fresh op found)
  unfolding notify write waiting
  notify-Held kv moved fresh op j none map slots e other held = record {
    mapped = ap (lookup i) map ∙ held.mapped;
    sole = λ k h. held.sole k (ap (lookup k) (sym map) ∙ h);
    slot = ap (λ l. get_elem? l a) slots ∙ held.slot;
  }
  notify-Held kv moved fresh op j (some (b, d)) map slots e other held =
      let apart : b ≢ a = λ same.
        other (held.sole j (found_mapped kv (lookup j kv.request_map) b d e ∙ ap some same)) in
      record {
        mapped = ap (lookup i) map ∙ held.mapped;
        sole = λ k h. held.sole k (ap (lookup k) (sym map) ∙ h);
        slot =
            get_elem?-set_other moved.contexts b a _ apart
            ∙ ap (λ l. get_elem? l a) slots
            ∙ held.slot;
      }

  apply_command-Held :
      (kv : KvServer) (op : Operation) (j : ℤ) (kv' : KvServer)
      → apply_command kv op j ≡ some kv'
      → j ≢ i
      → Held i a c kv
      → Held i a c kv'
  unfolding apply_command
  apply_command-Held kv op j kv' run other held =
      let (found, e, run') = >>=-eq-some (waiting kv j) _ run in
      subst (Held i a c) (some-injective _ _ run')
        (notify-Held kv _ (is_fresh kv.client_seq op) op j found refl refl e other held)

  module _ (parse_info : Bytes → SnapShotInfo) where
    apply_msg-Held :
        (kv : KvServer) (m : ApplyMsg) (kv' : KvServer)
        → apply_msg parse_info kv m ≡ some kv'
        → IsElsewhere i m
        → Held i a c kv
        → Held i a c kv'
    unfolding apply_msg apply_snapshot recover
    apply_msg-Held kv (snap [] index term) kv' run other held =
        subst (Held i a c) (some-injective _ _ run)
          (record { mapped = held.mapped; sole = held.sole; slot = held.slot })
    apply_msg-Held kv (snap (b ∷ bytes) index term) kv' run other held =
        subst (Held i a c) (some-injective _ _ run)
          (record { mapped = held.mapped; sole = held.sole; slot = held.slot })
    apply_msg-Held kv (command cmd index term) kv' run other held =
        let (op, _, run') = >>=-eq-some (get_operation cmd term index) _ run in
        apply_command-Held kv op (index -ℤ pos 1) kv' run' other held

    pub apply_msgs-Held :
        (ms : List ApplyMsg) (kv kv' : KvServer)
        → apply_msgs parse_info ms kv ≡ some kv'
        → All (IsElsewhere i) ms
        → Held i a c kv
        → Held i a c kv'
    unfolding apply_msgs
    apply_msgs-Held [] kv kv' run others held = subst (Held i a c) (some-injective _ _ run) held
    apply_msgs-Held (m ∷ ms) kv kv' run (other, others) held =
        let (kv1, first, rest) = >>=-eq-some (apply_msg parse_info kv m) _ run in
        apply_msgs-Held ms kv1 kv' rest others (apply_msg-Held kv m kv1 first other held)
