-- ===== src/Raft/Wire/Operations.antt =====
-- The operation of a log entry comes back from the command that was logged for it.
use shard_kv_raft.Base.{
  ◌≡◌, ◌≢◌, refl, sym, ap, ◌∙◌, true, false, List, [], ◌∷◌, ◌++◌, append_assoc, some, ℤ, arith,
}
use mathlib.Core.Path.{subst}
use mathlib.Core.List.{cons-ne-nil}
use shard_kv_raft.Text.{Bytes, codes, to_string, atoi, push_nonempty, same, same_refl, Lacks}
use shard_kv_raft.Text.Decimal.{atoi-to_string, to_string-Lacks, to_string-ne-nil}
use shard_kv_raft.Text.Cut.{terminated, cut-terminated, pushes, pushes-append, push_nonempty-append}
use shard_kv_raft.Raft.State.{Operation}
use shard_kv_raft.Raft.Wire.{get_cmd, parts, read_operation, get_operation}

-- A word of the command: not empty, and with no space.
abbrev pub IsWord : Bytes → Type 0
IsWord s = (s ≢ []) × Lacks b' ' s

number-IsWord : (z : ℤ) → IsWord (to_string z)
number-IsWord z = (to_string-ne-nil z, to_string-Lacks b' ' z (omega arith) (omega arith))

-- what `get_cmd` joins by spaces
abbrev pub words : Operation → List Bytes
words o = o.op ∷ o.key ∷ o.value ∷ to_string o.client_id ∷ to_string o.request_id ∷ []

front : Operation → List Bytes
front o = o.op ∷ o.key ∷ o.value ∷ to_string o.client_id ∷ []

get_cmd-terminated :
    (o : Operation) → get_cmd o ≡ terminated b' ' (front o) ++ to_string o.request_id
unfolding get_cmd terminated front
get_cmd-terminated o = simp append_assoc

parts-get_cmd :
    (o : Operation)
    → Lacks b' ' o.op
    → Lacks b' ' o.key
    → Lacks b' ' o.value
    → parts (get_cmd o) ≡ pushes b' ' [] (words o)
unfolding parts pushes front
parts-get_cmd o ho hk hv = rw (get_cmd-terminated o) (
    rw
      (cut-terminated b' ' (front o) [] (to_string o.request_id)
        (ho, (hk, (hv, ((number-IsWord o.client_id).1, tt)))) (number-IsWord o.request_id).1)
      refl)

parts_write :
    (o : Operation) → IsWord o.op → IsWord o.key → IsWord o.value → parts (get_cmd o) ≡ words o
parts_write o ho hk hv =
    parts-get_cmd o ho.1 hk.1 hv.1
    ∙ pushes-append b' ' (words o) [] (
      ho.0,
      (hk.0, (hv.0, ((number-IsWord o.client_id).0, ((number-IsWord o.request_id).0, tt)))),
    )

-- The commands that come back: a `get` with no value, and any other operation with a value; the
-- operation's name, the key and the value are words.
pub data IsLoggable (o : Operation) : Type 0 where
  reads : o.op ≡ codes "get" → IsWord o.key → o.value ≡ [] → IsLoggable o
  writes :
      same o.op (codes "get") ≡ false → IsWord o.op → IsWord o.key → IsWord o.value → IsLoggable o

read_set :
    (op key value client request : Bytes) (term index : ℤ)
    → same op (codes "get") ≡ false
    → read_operation (op ∷ key ∷ value ∷ client ∷ request ∷ []) term index
      ≡ some (record {
        op = op;
        key = key;
        value = value;
        client_id = atoi client;
        request_id = atoi request;
        op_term = term;
        op_index = index;
      })
unfolding read_operation
read_set op key value client request term index e = rw e

read_get :
    (op key client request : Bytes) (term index : ℤ)
    → same op (codes "get") ≡ true
    → read_operation (op ∷ key ∷ client ∷ request ∷ []) term index
      ≡ some (record {
        op = op;
        key = key;
        value = [];
        client_id = atoi client;
        request_id = atoi request;
        op_term = term;
        op_index = index;
      })
unfolding read_operation
read_get op key client request term index e = rw e

parts_read :
    (o : Operation)
    → IsWord o.op
    → IsWord o.key
    → o.value ≡ []
    → parts (get_cmd o) ≡ o.op ∷ o.key ∷ to_string o.client_id ∷ to_string o.request_id ∷ []
parts_read o ho hk hv =
    parts-get_cmd o ho.1 hk.1 (subst (Lacks b' ') (sym hv) tt)
    ∙ unfold pushes push_nonempty in
      rw (hv, push_nonempty-append b' ' [] o.op ho.0)
        (rw (push_nonempty-append b' ' (o.op ∷ []) o.key hk.0) (
          pushes-append b' ' (to_string o.client_id ∷ to_string o.request_id ∷ [])
            (o.op ∷ o.key ∷ [])
            ((number-IsWord o.client_id).0, ((number-IsWord o.request_id).0, tt))))

get-IsWord : IsWord (codes "get")
get-IsWord = (cons-ne-nil _ _, omega arith)

-- A `get` without a value, or an operation of another name with one, whose name, key and value are
-- not empty and hold no space, is read back from the log as it was submitted, with the term and the
-- index of its entry.
pub get_operation-get_cmd :
    (o : Operation) (term index : ℤ)
    → IsLoggable o
    → get_operation (get_cmd o) term index ≡ some (record o { op_term = term; op_index = index })
unfolding get_operation
get_operation-get_cmd o term index (writes e ho hk hv) =
    ap (λ p. read_operation p term index) (parts_write o ho hk hv)
    ∙ read_set o.op o.key o.value _ _ term index e
    ∙ rw (atoi-to_string o.client_id, atoi-to_string o.request_id)
get_operation-get_cmd o term index (reads ho hk hv) =
    ap (λ p. read_operation p term index) (parts_read o (subst IsWord (sym ho) get-IsWord) hk hv)
    ∙ read_get o.op o.key _ _ term index (rw ho (same_refl (codes "get")))
    ∙ rw (atoi-to_string o.client_id, atoi-to_string o.request_id)
        (ap (λ v. some (record o { value = v; op_term = term; op_index = index })) (sym hv))
