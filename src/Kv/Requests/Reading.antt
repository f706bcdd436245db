-- ===== src/Kv/Requests/Reading.antt =====
-- A get request of src/kvRaft.cpp, from its submission to its answer, with other messages before its
-- own entry: GetImpl, Start, ApplyLoop and GetImpl again.
use shard_kv_raft.Base.{
  ℕ, ◌≡◌, refl, ap, ◌∙◌, Bool, true, false, List, Option, none, some, pos, ◌+ℤ◌, ◌-ℤ◌, ==ℤ-refl,
  int_laws, All, length, get_elem?, ℤ, [],
}
use shard_kv_raft.Text.{Bytes, codes, same, same_refl}
use shard_kv_raft.Dict.{lookup, insert, erase, bytes_eq, int_eq}
use shard_kv_raft.Raft.State.{Operation, Raft, ApplyMsg, leader, command}
use shard_kv_raft.Raft.Log.{last_index, log_at}
use shard_kv_raft.Raft.Wire.{get_cmd}
use shard_kv_raft.Raft.Wire.Operations.{IsLoggable, get_operation-get_cmd}
use shard_kv_raft.Kv.{
  Database, KvServer, Flags, SnapShotInfo, OpContext, deref, new_context, is_fresh, write_database,
  notify, apply_command, apply_msg, apply_msgs, write, check_term, answer_context,
}
use shard_kv_raft.Kv.Machine.{Store, store_of, replay}
use shard_kv_raft.Kv.Refines.{IsLive}
use shard_kv_raft.Kv.Requests.{
  Response, Answer, enter, get_answer, found_answer, set_exist, set_value, begin_get, submit,
  destroy, finish_get, look_up, started, still_waits, returned,
}
use shard_kv_raft.Raft.Replicate.{start}
use shard_kv_raft.Kv.Requests.Contexts.{get_elem?-set_same}
use shard_kv_raft.Kv.Requests.Served.{submitted, begun, entered, begun_log, read_back, waiting_held}
use shard_kv_raft.Kv.Requests.Holding.{Held, IsElsewhere}
use shard_kv_raft.Kv.Requests.Waiting.{started-Waits}

-- What a client is told of a key, from what the server had for it at the submission and has for it
-- when the entry is applied.
abbrev pub told : Option Bytes → Option Bytes → Answer
told none none = get_answer false []
told none (some v) = get_answer false v
told (some u) none = get_answer false u
told (some u) (some v) = get_answer true v

abbrev pub get_response : Answer → Response
get_response answer = record { kind = codes "get"; is_wrong_leader = false; answer = answer }

begin_get-started :
    (seen kv : KvServer) (op : Operation)
    → kv.raft.state ≡ leader
    → begin_get (look_up seen op) kv op
      ≡ started
          (begun kv op)
          (submitted kv.raft op)
          (get_response (found_answer (lookup op.key seen.database)))
unfolding begin_get look_up submit start
begin_get-started seen kv op leads = rw leads refl

is_get : (op : Operation) → op.op ≡ codes "get" → same op.op (codes "get") ≡ true
is_get op named = ap (λ x. same x (codes "get")) named ∙ same_refl (codes "get")

is_not_set : (op : Operation) → op.op ≡ codes "get" → same op.op (codes "set") ≡ false
unfolding same
is_not_set op named = ap (λ x. same x (codes "set")) named

-- The context behind the application of its operation.
abbrev read_context : Flags → Raft → Operation → Option Bytes → OpContext
read_context garbage r op none =
    record (new_context (submitted r op) (record garbage { key_wrong = true })) { is_ready = true }
read_context garbage r op (some v) =
    record (new_context (record (submitted r op) { value = v }) garbage) { is_ready = true }

-- The server behind the application of the operation.
abbrev read_done : Flags → Raft → KvServer → Operation → ℕ → Option Bytes → KvServer
read_done garbage r kv op a found =
    write
      (record kv {
        last_applied_index = last_index r;
        client_seq = insert op.client_id op.request_id kv.client_seq;
      })
      a (read_context garbage r op found)

-- The server behind the call.
abbrev read_over : Flags → Raft → KvServer → Operation → ℕ → Option Bytes → KvServer
read_over garbage r kv op a found =
    let kv2 = read_done garbage r kv op a found in
    destroy (record kv2 { request_map = erase (last_index r) kv2.request_map }) a

-- The answer that GetImpl makes of the context.
answer_of : Option Bytes → Answer → Answer
unfolding set_exist set_value
answer_of none a = set_exist false a
answer_of (some v) a = set_value v a

answer_of-told : (old found : Option Bytes) → answer_of found (found_answer old) ≡ told old found
unfolding answer_of found_answer set_exist set_value
answer_of-told none none = refl
answer_of-told none (some v) = refl
answer_of-told (some u) none = refl
answer_of-told (some u) (some v) = refl

module _ (garbage : Flags) (r : Raft) (kv : KvServer) (op : Operation) (a : ℕ)
    (mapped : lookup (last_index r) kv.request_map ≡ some a)
    (slot : get_elem? kv.contexts a ≡ some (some (new_context (submitted r op) garbage)))
    (named : op.op ≡ codes "get") where
  same_term :
      check_term (read_back r op) (new_context (submitted r op) garbage)
      ≡ new_context (submitted r op) garbage
  unfolding check_term new_context
  same_term = rw (==ℤ-refl r.cur_term) refl

  answered_read :
      (fresh : Bool) (found : Option Bytes)
      → lookup op.key kv.database ≡ found
      → record (answer_context kv.database fresh
          (read_back r op)
          (check_term (read_back r op) (new_context (submitted r op) garbage))) { is_ready = true }
        ≡ read_context garbage r op found
  unfolding answer_context new_context
  answered_read fresh none there =
      ap (λ c. record (answer_context kv.database fresh (read_back r op) c) { is_ready = true })
        same_term
      ∙ rw (is_not_set op named, is_get op named) (rw there refl)
  answered_read fresh (some v) there =
      ap (λ c. record (answer_context kv.database fresh (read_back r op) c) { is_ready = true })
        same_term
      ∙ rw (is_not_set op named, is_get op named) (rw there refl)

  kept : (fresh : Bool) → write_database kv.database fresh (read_back r op) ≡ kv.database
  unfolding write_database
  kept fresh = rw (is_not_set op named) refl

  apply_read :
      (found : Option Bytes)
      → lookup op.key kv.database ≡ found
      → apply_command kv (read_back r op) (last_index r) ≡ some (read_done garbage r kv op a found)
  unfolding apply_command notify
  apply_read found there =
      let fresh = is_fresh kv.client_seq op in
      let moved : Database → KvServer = λ db. record kv {
        last_applied_index = last_index r;
        client_seq = insert op.client_id op.request_id kv.client_seq;
        database = db;
      } in
      let c = new_context (submitted r op) garbage in
      rw (waiting_held garbage r kv op a mapped slot) (
        ap (λ db. some (notify (moved db) fresh (read_back r op) (some (a, c)))) (kept fresh)
        ∙ ap (λ c. some (write (moved kv.database) a c)) (answered_read fresh found there))

  apply_own_read :
      (parse_info : Bytes → SnapShotInfo) (found : Option Bytes)
      → IsLoggable op
      → lookup op.key kv.database ≡ found
      → apply_msg parse_info kv (command (get_cmd op) (last_index r +ℤ pos 1) r.cur_term)
        ≡ some (read_done garbage r kv op a found)
  unfolding apply_msg
  apply_own_read parse_info found loggable there =
      let back : last_index r +ℤ pos 1 -ℤ pos 1 ≡ last_index r = omega int_laws in
      rw (get_operation-get_cmd op r.cur_term (last_index r +ℤ pos 1) loggable)
        (rw back (apply_read found there))

  finish_read :
      (found : Option Bytes) (so_far : Answer)
      → garbage.leader_wrong ≡ false
      → garbage.key_wrong ≡ false
      → finish_get (read_done garbage r kv op a found) (submitted r op) a (get_response so_far)
        ≡ some
            (returned (read_over garbage r kv op a found) (get_response (answer_of found so_far)))
  unfolding finish_get deref write new_context answer_of
  finish_read none so_far sane clean =
      rw
        (get_elem?-set_same kv.contexts a (some (new_context (submitted r op) garbage))
          (some (read_context garbage r op none)) slot)
        (rw sane refl)
  finish_read (some v) so_far sane clean =
      rw
        (get_elem?-set_same kv.contexts a (some (new_context (submitted r op) garbage))
          (some (read_context garbage r op (some v))) slot)
        (rw (sane, clean) refl)

finish_get-waits :
    (i : ℤ) (a : ℕ) (garbage : Flags) (kv : KvServer) (op : Operation) (so_far : Response)
    → Held i a (new_context op garbage) kv
    → finish_get kv op a so_far ≡ some still_waits
unfolding finish_get deref new_context
finish_get-waits i a garbage kv op so_far held = rw (held.slot) refl

-- Let the key of a `get` that can be written to the log be looked up in a server, and let the node
-- of the server, then or later, be the leader and every context that its map points to be alive; let
-- the memory of the new context hold no wrong leader and no wrong key. Then Start puts the operation
-- at the end of the leader's log. Let ApplyLoop handle any messages before the call enters its
-- context, and then any but the entry of that index, which the machine takes to a store. Then they
-- are handled without undefined behaviour, and the call still waits. When the entry comes back
-- committed, it is applied without undefined behaviour and leaves the values, and the call, whose
-- context is now answered, goes on and answers. The answer is that the key exists only if it was
-- there both at the look-up and when the entry is applied. Its value is that of the application, or
-- without one that of the look-up, if any.
pub get_waits_and_answers :
    (parse_info : Bytes → SnapShotInfo) (garbage : Flags) (seen kv : KvServer) (op : Operation)
    (before behind : List ApplyMsg) (s1 s : Store)
    → kv.raft.state ≡ leader
    → IsLive kv
    → op.op ≡ codes "get"
    → IsLoggable op
    → garbage.leader_wrong ≡ false
    → garbage.key_wrong ≡ false
    → All (IsElsewhere (last_index kv.raft)) behind
    → replay parse_info before (store_of kv) ≡ some s1
    → replay parse_info behind s1 ≡ some s
    → (kv1 : KvServer) × (op1 : Operation) × (so_far : Response) × (kv2 : KvServer)
      × (kv3 : KvServer) × (address : ℕ) × (kv4 : KvServer) × (kv5 : KvServer) × (kv6 : KvServer)
      × (begin_get (look_up seen op) kv op ≡ started kv1 op1 so_far)
      × (last_index kv1.raft ≡ last_index kv.raft +ℤ pos 1)
      × (log_at kv1.raft (last_index kv.raft +ℤ pos 1)
          ≡ some (record { cmd = get_cmd op; term = kv.raft.cur_term }))
      × (apply_msgs parse_info before kv1 ≡ some kv2)
      × (enter garbage kv2 op1 ≡ (kv3, address))
      × (apply_msgs parse_info behind kv3 ≡ some kv4)
      × (store_of kv4 ≡ s)
      × (finish_get kv4 op1 address so_far ≡ some still_waits)
      × (apply_msg parse_info kv4
            (command (get_cmd op) (last_index kv.raft +ℤ pos 1) kv.raft.cur_term)
          ≡ some kv5)
      × (kv5.database ≡ s.values)
      × (finish_get kv5 op1 address so_far
          ≡ some (
              returned kv6
                (get_response (told (lookup op.key seen.database) (lookup op.key s.values)))))
unfolding write enter
get_waits_and_answers parse_info garbage seen kv op before behind s1 s leads live named loggable
      sane clean others run1 run2 =
    let r = kv.raft in
    let old = lookup op.key seen.database in
    let found = lookup op.key s.values in
    let kv1 = begun kv op in
    let op1 = submitted r op in
    let (last, entry) = begun_log kv op in
    let w = started-Waits parse_info garbage kv1 op1 before behind s1 s live others run1 run2 in
    let a = length w.server.contexts in
    let mapped = w.held.mapped in
    let slot = w.held.slot in
    let there = ap (λ (t : Store). lookup op.key t.values) w.store in
    let over = read_over garbage r w.now op a found in
    (
      kv1,
      op1,
      get_response (found_answer old),
      w.server,
      entered garbage w.server op1,
      a,
      w.now,
      read_done garbage r w.now op a found,
      over,
      begin_get-started seen kv op leads,
      last,
      entry,
      w.ran_before,
      refl,
      w.ran_behind,
      w.store,
      finish_get-waits (last_index r) a garbage w.now op1 _ w.held,
      apply_own_read garbage r w.now op a mapped slot named parse_info found loggable there,
      ap (λ (t : Store). t.values) w.store,
      finish_read garbage r w.now op a mapped slot named found (found_answer old) sane clean
          ∙ ap (λ x. some (returned over (get_response x))) (answer_of-told old found),
    )
