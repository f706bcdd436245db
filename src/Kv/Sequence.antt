-- ===== src/Kv/Sequence.antt =====
-- The request ids of ApplyLoop in src/kvRaft.cpp, on the store machine: which operations of a
-- client write, and which are taken for repetitions.
use shard_kv_raft.Base.{
  ◌≡◌, ◌≢◌, refl, ap, ◌∙◌, true, List, [], ◌∷◌, some, ℤ, ◌≤ℤ◌, ◌<ℤ◌, Bool-cases, inl, inr, ◌⊎◌,
  arith, All, ◌==ℤ◌, ==ℤ_iff, if◌then◌else◌,
}
use shard_kv_raft.Text.{Bytes, codes, same, same_refl}
use shard_kv_raft.Dict.{lookup, insert, lookup-insert, int_eq, bytes_eq}
use shard_kv_raft.Raft.State.{Operation}
use shard_kv_raft.Kv.Machine.{Store, execute}

-- Committed operations one after the other, with their indices.
unfoldable pub executes : Store → List (Operation × ℤ) → Store
executes s [] = s
executes s ((op, index) ∷ ops) = executes (execute s op index) ops

-- The last request that the store knows of the client is at least this one.
pub record HasSeen (s : Store) (client request : ℤ) : Type 0 where
  pub last : ℤ
  pub seen : lookup client s.seqs ≡ some last
  pub reached : request ≤ℤ last

-- No operation takes the client back behind the request.
abbrev pub NotBefore : ℤ → ℤ → Operation × ℤ → Type 0
NotBefore client request (op, index) = (op.client_id ≢ client) ⊎ (request ≤ℤ op.request_id)

seqs-execute :
    (s : Store) (op : Operation) (index client : ℤ)
    → lookup client (execute s op index).seqs
      ≡ (if op.client_id ==ℤ client then some op.request_id else lookup client s.seqs)
unfolding execute
seqs-execute s op index client = lookup-insert op.client_id client op.request_id s.seqs

seqs-execute_own :
    (s : Store) (op : Operation) (index client : ℤ)
    → op.client_id ≡ client
    → lookup client (execute s op index).seqs ≡ some op.request_id
seqs-execute_own s op index client e =
    ground (arith, seqs-execute s op index client, ==ℤ_iff op.client_id client)

-- A `set` that is newer than the last request of its client writes.
execute_newer :
    (s : Store) (op : Operation) (index last : ℤ)
    → same op.op (codes "set") ≡ true
    → lookup op.client_id s.seqs ≡ some last
    → last <ℤ op.request_id
    → (execute s op index).values ≡ insert op.key op.value s.values
unfolding execute
execute_newer s op index last set seen newer = ground arith

lookup-insert_same : (k v : Bytes) (m : List (Bytes × Bytes)) → lookup k (insert k v m) ≡ some v
lookup-insert_same k v m = ground (arith, lookup-insert k k v m, same_refl k)

execute-HasSeen :
    (s : Store) (client request : ℤ) (op : Operation) (index : ℤ)
    → NotBefore client request (op, index)
    → HasSeen s client request
    → HasSeen (execute s op index) client request
execute-HasSeen s client request op index h seen = elim (Bool-cases (op.client_id ==ℤ client)) [
  | inl own ↦ record {
    last = op.request_id;
    seen = seqs-execute s op index client ∙ rw own refl;
    reached = own_id h ((==ℤ_iff op.client_id client).0 own);
  }
  | inr other ↦ record {
    last = seen.last;
    seen = seqs-execute s op index client ∙ rw other seen.seen;
    reached = seen.reached;
  }
]
  where
    own_id : NotBefore client request (op, index) → op.client_id ≡ client → request ≤ℤ op.request_id
    own_id (inl ne) e = absurd (ne e)
    own_id (inr le) e = le

executes-HasSeen :
    (ops : List (Operation × ℤ)) (s : Store) (client request : ℤ)
    → All (NotBefore client request) ops
    → HasSeen s client request
    → HasSeen (executes s ops) client request
unfolding executes
executes-HasSeen [] s client request h seen = seen
executes-HasSeen ((op, index) ∷ ops) s client request (h, hs) seen =
    executes-HasSeen ops (execute s op index) client request hs
      (execute-HasSeen s client request op index h seen)

-- An operation whose request the store has seen writes nothing.
execute-seen :
    (s : Store) (op : Operation) (index : ℤ)
    → HasSeen s op.client_id op.request_id
    → (execute s op index).values ≡ s.values
unfolding execute
execute-seen s op index seen = ground (arith, seen.seen, seen.reached)

seen-execute :
    (s : Store) (op : Operation) (index : ℤ)
    → HasSeen (execute s op index) op.client_id op.request_id
seen-execute s op index = record {
  last = op.request_id;
  seen = seqs-execute_own s op index op.client_id refl;
  reached = omega arith;
}

-- An operation is executed, and then others, none of which is of the same client with a smaller
-- request id. If it comes again it leaves the values as they are.
pub execute_again :
    (s : Store) (op : Operation) (first again : ℤ) (ops : List (Operation × ℤ))
    → All (NotBefore op.client_id op.request_id) ops
    → (execute (executes (execute s op first) ops) op again).values
      ≡ (executes (execute s op first) ops).values
execute_again s op first again ops h = execute-seen (executes (execute s op first) ops) op again (
    executes-HasSeen ops (execute s op first) op.client_id op.request_id h
      (seen-execute s op first))

-- A `set` whose request the store has seen changes no value. If an older request of the same client
-- comes in between, the same `set` is written again.
pub execute_reopens :
    (s : Store) (op old : Operation) (first again : ℤ)
    → same op.op (codes "set") ≡ true
    → HasSeen s op.client_id op.request_id
    → old.client_id ≡ op.client_id
    → old.request_id <ℤ op.request_id
    → ((execute s op again).values ≡ s.values)
      × (lookup op.key (execute (execute s old first) op again).values ≡ some op.value)
execute_reopens s op old first again set seen client older = (
  execute-seen s op again seen,
  ap (lookup op.key) (
        execute_newer (execute s old first) op again old.request_id set
          (seqs-execute_own s old first op.client_id client) older)
      ∙ lookup-insert_same op.key op.value (execute s old first).values,
)
