-- ===== src/Kv/Requests/Waiting.antt =====
-- A put request of src/kvRaft.cpp, from its submission to its answer: PutImpl, Start, the context, the
-- wait and PutImpl again, with ApplyLoop between any two of them.
use shard_kv_raft.Base.{
  ℕ, ◌≡◌, refl, sym, ap, ◌∙◌, inl, inr, true, false, List, [], ◌∷◌, ◌++◌, some, Bool-cases, ℤ, pos,
  ◌+ℤ◌, ◌==ℤ◌, ==ℤ→eq, arith, All, length, get_elem?, get_elem?-lt, get_elem?-append_left,
  if◌then◌else◌,
}
use mathlib.Core.Option.{some-injective}
use shard_kv_raft.Text.{Bytes, codes}
use shard_kv_raft.Dict.{lookup, lookup-insert, bytes_eq, int_eq}
use shard_kv_raft.Raft.State.{Operation, ApplyMsg, leader, command}
use shard_kv_raft.Raft.Log.{last_index, log_at}
use shard_kv_raft.Raft.Wire.{get_cmd}
use shard_kv_raft.Raft.Wire.Operations.{IsLoggable}
use shard_kv_raft.Kv.{
  deref, KvServer, Flags, SnapShotInfo, OpContext, new_context, is_fresh, apply_msg, apply_msgs,
}
use shard_kv_raft.Kv.Machine.{Store, store_of, replay}
use shard_kv_raft.Kv.Refines.{IsLive, apply_msgs-replay}
use shard_kv_raft.Kv.Requests.{
  Response, put_answer, started, still_waits, returned, begin_put, enter, finish_put,
}
use shard_kv_raft.Kv.Requests.Served.{
  submitted, begun, entered, put_response, begin_put-started, at_end, entered_mapped, entered_slot,
  begun_log, done, over, apply_own, own_value, finish_own,
}
use shard_kv_raft.Kv.Requests.Holding.{Held, IsElsewhere, apply_msgs-Held}

pub entered-Held :
    (garbage : Flags) (kv : KvServer) (op : Operation)
    → IsLive kv
    → Held op.op_index (length kv.contexts) (new_context op garbage) (entered garbage kv op)
unfolding enter
entered-Held garbage kv op live = record {
  mapped = entered_mapped garbage kv op;
  sole = λ j h. only j (sym (lookup-insert op.op_index j (length kv.contexts) kv.request_map) ∙ h);
  slot = entered_slot garbage kv op;
}
  where
    only :
        (j : ℤ)
        → (if op.op_index ==ℤ j then some (length kv.contexts) else lookup j kv.request_map)
          ≡ some (length kv.contexts)
        → j ≡ op.op_index
    only j h = elim (Bool-cases (op.op_index ==ℤ j)) [
      | inl here ↦ sym (==ℤ→eq op.op_index j here)
      | inr other ↦
          let (c, slot) = live j (length kv.contexts) (rw other at h) in
          absurd (omega (arith, get_elem?-lt kv.contexts (length kv.contexts) (some c) slot))
    ]

pub entered-IsLive :
    (garbage : Flags) (kv : KvServer) (op : Operation) → IsLive kv → IsLive (entered garbage kv op)
unfolding enter
entered-IsLive garbage kv op live j b h =
    either (sym (lookup-insert op.op_index j (length kv.contexts) kv.request_map) ∙ h)
  where
    new : OpContext
    new = new_context op garbage

    either :
        (if op.op_index ==ℤ j then some (length kv.contexts) else lookup j kv.request_map) ≡ some b
        → (c : OpContext) × (get_elem? (kv.contexts ++ some new ∷ []) b ≡ some (some c))
    either h = elim (Bool-cases (op.op_index ==ℤ j)) [
      | inl here ↦ (
        new,
        ap (get_elem? (kv.contexts ++ some new ∷ []))
              (sym (some-injective (length kv.contexts) b (rw here at h)))
            ∙ at_end kv.contexts (some new),
      )
      | inr other ↦
          let (c, slot) = live j b (rw other at h) in
          (
            c,
            get_elem?-append_left kv.contexts (some new ∷ []) b
                  (get_elem?-lt kv.contexts b (some c) slot)
                ∙ slot,
          )
    ]

entered_store :
    (garbage : Flags) (kv : KvServer) (op : Operation)
    → store_of (entered garbage kv op) ≡ store_of kv
unfolding enter
entered_store garbage kv op = refl

-- A server that ApplyLoop runs on from Start to a moment of the wait, through the two lists of
-- messages before and behind the entry of the call's context.
pub record Waits (parse_info : Bytes → SnapShotInfo) (garbage : Flags) (kv1 : KvServer)
    (op : Operation) (before behind : List ApplyMsg) (s : Store) : Type 0 where
  pub server : KvServer
  pub now : KvServer
  pub ran_before : apply_msgs parse_info before kv1 ≡ some server
  pub ran_behind : apply_msgs parse_info behind (entered garbage server op) ≡ some now
  pub store : store_of now ≡ s
  pub held : Held op.op_index (length server.contexts) (new_context op garbage) now

-- Until the entry of the call's index is applied behind the context's own entry in the map, its context
-- stands there as it was made.
pub started-Waits :
    (parse_info : Bytes → SnapShotInfo) (garbage : Flags) (kv1 : KvServer) (op : Operation)
    (before behind : List ApplyMsg) (s1 s : Store)
    → IsLive kv1
    → All (IsElsewhere op.op_index) behind
    → replay parse_info before (store_of kv1) ≡ some s1
    → replay parse_info behind s1 ≡ some s
    → Waits parse_info garbage kv1 op before behind s
started-Waits parse_info garbage kv1 op before behind s1 s live others run1 run2 =
    let (kv2, ran1, store1, live2) = apply_msgs-replay parse_info before kv1 s1 live run1 in
    let kv3 = entered garbage kv2 op in
    let (kv4, ran2, store2, _) =
      apply_msgs-replay parse_info behind kv3 s (entered-IsLive garbage kv2 op live2)
        (ap (replay parse_info behind) (entered_store garbage kv2 op ∙ store1) ∙ run2) in
    record {
      server = kv2;
      now = kv4;
      ran_before = ran1;
      ran_behind = ran2;
      store = store2;
      held =
          apply_msgs-Held op.op_index (length kv2.contexts) (new_context op garbage) parse_info
            behind kv3 kv4 ran2 others (entered-Held garbage kv2 op live2);
    }

finish_put-waits :
    (i : ℤ) (a : ℕ) (garbage : Flags) (kv : KvServer) (op : Operation)
    → Held i a (new_context op garbage) kv
    → finish_put kv op a ≡ some still_waits
unfolding finish_put deref new_context
finish_put-waits i a garbage kv op held = rw (held.slot) refl

-- Let a server's node be the leader, and let every context that its map points to be alive. Let the
-- server be asked for a `set` that can be written to the log; let the memory of the new context hold
-- no wrong leader. Then Start puts the operation at the end of the leader's log. Let ApplyLoop handle
-- any messages before the call enters its context, and then any but the entry of that index, which
-- the machine takes to a store where the request is newer than the client's last one, or the
-- client's first. Then they are handled without undefined behaviour, and the call still waits. When
-- the entry comes back committed, it is applied without undefined behaviour, the key has the value,
-- and the call, whose context is now answered, goes on and answers that the value is set.
pub put_waits_and_serves :
    (parse_info : Bytes → SnapShotInfo) (garbage : Flags) (kv : KvServer) (op : Operation)
    (before behind : List ApplyMsg) (s1 s : Store)
    → kv.raft.state ≡ leader
    → IsLive kv
    → op.op ≡ codes "set"
    → IsLoggable op
    → garbage.leader_wrong ≡ false
    → All (IsElsewhere (last_index kv.raft)) behind
    → replay parse_info before (store_of kv) ≡ some s1
    → replay parse_info behind s1 ≡ some s
    → is_fresh s.seqs op ≡ true
    → (kv1 : KvServer) × (op1 : Operation) × (so_far : Response) × (kv2 : KvServer)
      × (kv3 : KvServer) × (address : ℕ) × (kv4 : KvServer) × (kv5 : KvServer) × (kv6 : KvServer)
      × (begin_put kv op ≡ started kv1 op1 so_far)
      × (last_index kv1.raft ≡ last_index kv.raft +ℤ pos 1)
      × (log_at kv1.raft (last_index kv.raft +ℤ pos 1)
          ≡ some (record { cmd = get_cmd op; term = kv.raft.cur_term }))
      × (apply_msgs parse_info before kv1 ≡ some kv2)
      × (enter garbage kv2 op1 ≡ (kv3, address))
      × (apply_msgs parse_info behind kv3 ≡ some kv4)
      × (store_of kv4 ≡ s)
      × (finish_put kv4 op1 address ≡ some still_waits)
      × (apply_msg parse_info kv4
            (command (get_cmd op) (last_index kv.raft +ℤ pos 1) kv.raft.cur_term)
          ≡ some kv5)
      × (lookup op.key kv5.database ≡ some op.value)
      × (finish_put kv5 op1 address
          ≡ some (returned kv6 (record put_response { answer = put_answer true })))
unfolding enter
put_waits_and_serves parse_info garbage kv op before behind s1 s leads live named loggable sane
      others run1 run2 fresh =
    let r = kv.raft in
    let kv1 = begun kv op in
    let op1 = submitted r op in
    let (last, entry) = begun_log kv op in
    let w = started-Waits parse_info garbage kv1 op1 before behind s1 s live others run1 run2 in
    let a = length w.server.contexts in
    let mapped = w.held.mapped in
    let slot = w.held.slot in
    let newer = ap (λ (t : Store). is_fresh t.seqs op) w.store ∙ fresh in
    (
      kv1,
      op1,
      put_response,
      w.server,
      entered garbage w.server op1,
      a,
      w.now,
      done garbage r w.now op a,
      over garbage r w.now op a,
      begin_put-started kv op leads,
      last,
      entry,
      w.ran_before,
      refl,
      w.ran_behind,
      w.store,
      finish_put-waits (last_index r) a garbage w.now op1 w.held,
      apply_own garbage r w.now op a mapped slot parse_info named loggable newer,
      own_value garbage r w.now op a mapped slot,
      finish_own garbage r w.now op a mapped slot sane,
    )

-- Let a server's node be the leader, and let every context that its map points to be alive. Let the
-- entry of a put come back committed after Start and before the call enters its context, and let the
-- machine take it, and then any further messages but an entry of its index, to a store. Then the
-- server handles all of them without undefined behaviour and has that store, and the call, whose
-- operation is done, still waits.
pub early_entry_strands :
    (parse_info : Bytes → SnapShotInfo) (garbage : Flags) (kv : KvServer) (op : Operation)
    (behind : List ApplyMsg) (s1 s : Store)
    → kv.raft.state ≡ leader
    → IsLive kv
    → All (IsElsewhere (last_index kv.raft)) behind
    → replay parse_info
        (command (get_cmd op) (last_index kv.raft +ℤ pos 1) kv.raft.cur_term ∷ [])
        (store_of kv)
      ≡ some s1
    → replay parse_info behind s1 ≡ some s
    → (kv1 : KvServer) × (op1 : Operation) × (so_far : Response) × (kv2 : KvServer)
      × (kv3 : KvServer) × (address : ℕ) × (kv4 : KvServer) × (begin_put kv op
          ≡ started kv1 op1 so_far)
      × (log_at kv1.raft (last_index kv.raft +ℤ pos 1)
          ≡ some (record { cmd = get_cmd op; term = kv.raft.cur_term }))
      × (apply_msgs parse_info
            (command (get_cmd op) (last_index kv.raft +ℤ pos 1) kv.raft.cur_term ∷ [])
            kv1
          ≡ some kv2)
      × (enter garbage kv2 op1 ≡ (kv3, address))
      × (apply_msgs parse_info behind kv3 ≡ some kv4)
      × (store_of kv4 ≡ s)
      × (finish_put kv4 op1 address ≡ some still_waits)
unfolding enter
early_entry_strands parse_info garbage kv op behind s1 s leads live others run1 run2 =
    let kv1 = begun kv op in
    let op1 = submitted kv.raft op in
    let w = started-Waits parse_info garbage kv1 op1 _ behind s1 s live others run1 run2 in
    (
      kv1,
      op1,
      put_response,
      w.server,
      entered garbage w.server op1,
      length w.server.contexts,
      w.now,
      begin_put-started kv op leads,
      (begun_log kv op).1,
      w.ran_before,
      refl,
      w.ran_behind,
      w.store,
      finish_put-waits op1.op_index (length w.server.contexts) garbage w.now op1 w.held,
    )
