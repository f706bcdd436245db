-- ===== src/Kv/Requests/Served.antt =====
-- The pieces of a put request of src/kvRaft.cpp: PutImpl, Start, the context, ApplyLoop and PutImpl again.
use shard_kv_raft.Base.{
  ℕ, ◌+◌, ◌≡◌, refl, ap, ◌∙◌, true, false, List, [], ◌∷◌, ◌++◌, some, pos, length-append,
  eq_of_parts, ◌+ℤ◌, ◌-ℤ◌, ==ℤ-refl, int_laws, int_signs, arith, length, get_elem?,
  get_elem?-append_right,
}
use shard_kv_raft.Text.{Bytes, codes, same, same_refl}
use shard_kv_raft.Dict.{lookup, insert, erase, lookup-insert, bytes_eq, int_eq}
use shard_kv_raft.Raft.State.{LogEntry, Operation, Raft, leader, command}
use shard_kv_raft.Raft.Log.{last_index, log_at, push_back_log}
use shard_kv_raft.Raft.Log.Index.{place, log_at-place}
use shard_kv_raft.Raft.Wire.{get_cmd}
use shard_kv_raft.Raft.Wire.Operations.{IsLoggable, get_operation-get_cmd}
use shard_kv_raft.Raft.Replicate.{start}
use shard_kv_raft.Kv.{
  KvServer, Flags, SnapShotInfo, deref, new_context, waiting, is_fresh, write_database, notify,
  apply_command, apply_msg, OpContext, write, check_term, answer_context, context_at,
}
use shard_kv_raft.Kv.Requests.Contexts.{get_elem?-set_same}
use shard_kv_raft.Kv.Requests.{
  Response, put_answer, started, returned, begin_put, submit, enter, destroy, finish_put,
}

-- The operation, with the term and index that its context has.
abbrev pub submitted : Raft → Operation → Operation
submitted r op = record op { op_term = r.cur_term; op_index = last_index r }

-- The server behind Start.
abbrev pub begun : KvServer → Operation → KvServer
begun kv op = record kv {
  raft = push_back_log (record { cmd = get_cmd op; term = kv.raft.cur_term }) kv.raft;
}

-- The server that has the call's context.
abbrev pub entered : Flags → KvServer → Operation → KvServer
entered garbage kv op = (enter garbage kv op).0

abbrev pub put_response : Response
put_response = record { kind = codes "set"; is_wrong_leader = false; answer = put_answer false }

pub begin_put-started :
    (kv : KvServer) (op : Operation)
    → kv.raft.state ≡ leader
    → begin_put kv op ≡ started (begun kv op) (submitted kv.raft op) put_response
unfolding begin_put submit start
begin_put-started kv op leads = rw leads refl

pushed : (r : Raft) (e : LogEntry) → log_at (push_back_log e r) (last_index r +ℤ pos 1) ≡ some e
unfolding push_back_log last_index
pushed r e =
    log_at-place (push_back_log e r) (last_index r +ℤ pos 1) (omega int_laws)
    ∙ ap (get_elem? (r.logs ++ e ∷ [])) here
    ∙ get_elem?-append_right r.logs (e ∷ []) 0
  where
    here : place (push_back_log e r) (last_index r +ℤ pos 1) ≡ length r.logs + 0
    here = omega int_signs

-- What is put last stands behind the others.
pub at_end : {A : Type 0} (xs : List A) (x : A) → get_elem? (xs ++ x ∷ []) (length xs) ≡ some x
at_end xs x =
    let e : length xs ≡ length xs + 0 = omega arith in
    ap (get_elem? (xs ++ x ∷ [])) e ∙ get_elem?-append_right xs (x ∷ []) 0

pub entered_mapped :
    (garbage : Flags) (kv : KvServer) (op : Operation)
    → lookup op.op_index (entered garbage kv op).request_map ≡ some (length kv.contexts)
unfolding enter
entered_mapped garbage kv op =
    let i = op.op_index in
    lookup-insert i i (length kv.contexts) kv.request_map ∙ rw (==ℤ-refl i) refl

pub entered_slot :
    (garbage : Flags) (kv : KvServer) (op : Operation)
    → get_elem? (entered garbage kv op).contexts (length kv.contexts)
      ≡ some (some (new_context op garbage))
unfolding enter
entered_slot garbage kv op = at_end kv.contexts (some (new_context op garbage))

-- The context behind the application of its operation.
abbrev answered : Flags → Raft → Operation → OpContext
answered garbage r op = record (new_context (submitted r op) garbage) { is_ready = true }

abbrev pub read_back : Raft → Operation → Operation
read_back r op = record op { op_term = r.cur_term; op_index = last_index r +ℤ pos 1 }

is_set : (op : Operation) → op.op ≡ codes "set" → same op.op (codes "set") ≡ true
is_set op named = ap (λ x. same x (codes "set")) named ∙ same_refl (codes "set")

pub begun_log :
    (kv : KvServer) (op : Operation)
    → (last_index (begun kv op).raft ≡ last_index kv.raft +ℤ pos 1)
      × (log_at (begun kv op).raft (last_index kv.raft +ℤ pos 1)
          ≡ some (record { cmd = get_cmd op; term = kv.raft.cur_term }))
unfolding last_index push_back_log
begun_log kv op =
    let e : LogEntry = record { cmd = get_cmd op; term = kv.raft.cur_term } in
    let size = length-append kv.raft.logs (e ∷ []) in
    (eq_of_parts _ _ (omega (int_laws, size)), pushed kv.raft e)

-- The server behind the application of the operation.
abbrev pub done : Flags → Raft → KvServer → Operation → ℕ → KvServer
done garbage r kv op a =
    write
      (record kv {
        last_applied_index = last_index r;
        client_seq = insert op.client_id op.request_id kv.client_seq;
        database = insert op.key op.value kv.database;
      })
      a (answered garbage r op)

-- The server behind the call.
abbrev pub over : Flags → Raft → KvServer → Operation → ℕ → KvServer
over garbage r kv op a =
    let kv2 = done garbage r kv op a in
    destroy (record kv2 { request_map = erase (last_index r) kv2.request_map }) a

module _ (garbage : Flags) (r : Raft) (kv : KvServer) (op : Operation) (a : ℕ)
    (mapped : lookup (last_index r) kv.request_map ≡ some a)
    (slot : get_elem? kv.contexts a ≡ some (some (new_context (submitted r op) garbage))) where
  pub waiting_held :
      waiting kv (last_index r) ≡ some (some (a, new_context (submitted r op) garbage))
  unfolding waiting context_at deref
  waiting_held = rw mapped (rw slot refl)

  apply_held :
      op.op ≡ codes "set"
      → is_fresh kv.client_seq op ≡ true
      → apply_command kv (read_back r op) (last_index r) ≡ some (done garbage r kv op a)
  unfolding apply_command notify check_term answer_context write_database is_fresh new_context
  apply_held named fresh = rw waiting_held (rw (fresh, is_set op named, ==ℤ-refl r.cur_term) refl)

  pub apply_own :
      (parse_info : Bytes → SnapShotInfo)
      → op.op ≡ codes "set"
      → IsLoggable op
      → is_fresh kv.client_seq op ≡ true
      → apply_msg parse_info kv (command (get_cmd op) (last_index r +ℤ pos 1) r.cur_term)
        ≡ some (done garbage r kv op a)
  unfolding apply_msg
  apply_own parse_info named loggable fresh =
      let back : last_index r +ℤ pos 1 -ℤ pos 1 ≡ last_index r = omega int_laws in
      rw (get_operation-get_cmd op r.cur_term (last_index r +ℤ pos 1) loggable)
        (rw back (apply_held named fresh))

  pub finish_own :
      garbage.leader_wrong ≡ false
      → finish_put (done garbage r kv op a) (submitted r op) a
        ≡ some
            (returned (over garbage r kv op a) (record put_response { answer = put_answer true }))
  unfolding finish_put deref write new_context
  finish_own sane =
      rw
        (get_elem?-set_same kv.contexts a (some (new_context (submitted r op) garbage))
          (some (answered garbage r op)) slot)
        (rw sane refl)

  pub own_value : lookup op.key (done garbage r kv op a).database ≡ some op.value
  unfolding write
  own_value = lookup-insert op.key op.key op.value kv.database ∙ rw (same_refl op.key) refl
