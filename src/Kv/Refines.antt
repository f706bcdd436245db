-- ===== src/Kv/Refines.antt =====
-- ApplyLoop of src/kvRaft.cpp against the store machine: the requests that wait do not show in it.
use shard_kv_raft.Base.{
  ℕ, ◌≡◌, refl, ap, ◌∙◌, Bool, List, [], ◌∷◌, Option, none, some, >>=-eq-some, ℤ, pos, ◌-ℤ◌, zero,
  suc, get_elem?, set, arith,
}
use mathlib.Core.Option.{some-injective}
use shard_kv_raft.Text.{Bytes}
use shard_kv_raft.Dict.{lookup, insert, int_eq}
use shard_kv_raft.Raft.State.{Operation, ApplyMsg, command, snap}
use shard_kv_raft.Raft.Wire.{get_operation}
use shard_kv_raft.Kv.{
  Database, KvServer, OpContext, SnapShotInfo, deref, write, context_at, waiting, is_fresh,
  write_database, notify, apply_command, recover, apply_snapshot, apply_msg, apply_msgs,
}
use shard_kv_raft.Kv.Machine.{Store, store_of, execute, receive, replay}

-- Every context that the map points to is alive.
abbrev pub IsLive : KvServer → Type 0
IsLive kv =
    (index : ℤ) (address : ℕ)
    → lookup index kv.request_map ≡ some address
    → (c : OpContext) × (get_elem? kv.contexts address ≡ some (some c))

set-live :
    (slots : List (Option OpContext)) (a b : ℕ) (c d : OpContext)
    → get_elem? slots b ≡ some (some d)
    → (e : OpContext) × (get_elem? (set slots a (some c)) b ≡ some (some e))
set-live [] a b c d h = (d, h)
set-live (s ∷ slots) zero zero c d h = (c, refl)
set-live (s ∷ slots) zero (suc b) c d h = (d, h)
set-live (s ∷ slots) (suc a) zero c d h = (d, h)
set-live (s ∷ slots) (suc a) (suc b) c d h = set-live slots a b c d h

context_at-live :
    (kv : KvServer) (o : Option ℕ)
    → ((a : ℕ) → o ≡ some a → (c : OpContext) × (get_elem? kv.contexts a ≡ some (some c)))
    → (found : Option (ℕ × OpContext)) × (context_at kv o ≡ some found)
unfolding context_at deref
context_at-live kv none h = (none, refl)
context_at-live kv (some a) h = let (c, e) = h a refl in (some (a, c), rw e refl)

pub waiting-IsLive :
    (kv : KvServer) (index : ℤ)
    → IsLive kv
    → (found : Option (ℕ × OpContext)) × (waiting kv index ≡ some found)
unfolding waiting
waiting-IsLive kv index live = context_at-live kv (lookup index kv.request_map) (λ a. live index a)

notify-IsLive :
    (kv : KvServer) (fresh : Bool) (op : Operation) (found : Option (ℕ × OpContext))
    → IsLive kv
    → IsLive (notify kv fresh op found)
unfolding notify write
notify-IsLive kv fresh op none live = live
notify-IsLive kv fresh op (some (address, c)) live =
    λ i a h. let (d, e) = live i a h in set-live kv.contexts address a _ d e

notify-store_of :
    (kv : KvServer) (fresh : Bool) (op : Operation) (found : Option (ℕ × OpContext))
    → store_of (notify kv fresh op found) ≡ store_of kv
unfolding notify write
notify-store_of kv fresh op none = refl
notify-store_of kv fresh op (some (address, c)) = refl

written :
    (kv : KvServer) (op : Operation) (index : ℤ)
    → write_database kv.database (is_fresh kv.client_seq op) op
      ≡ (execute (store_of kv) op index).values
unfolding write_database is_fresh execute
written kv op index = ground arith

moved_store :
    (kv : KvServer) (op : Operation) (index : ℤ)
    → store_of (record kv {
      last_applied_index = index;
      client_seq = insert op.client_id op.request_id kv.client_seq;
      database = write_database kv.database (is_fresh kv.client_seq op) op;
    })
      ≡ execute (store_of kv) op index
unfolding execute
moved_store kv op index =
    ap
      (λ (v : Database). record {
        applied = index;
        seqs = insert op.client_id op.request_id kv.client_seq;
        values = v;
      })
      (written kv op index)

-- A command moves the store the way the machine does, whoever waits for it.
pub apply_command-execute :
    (kv : KvServer) (op : Operation) (index : ℤ)
    → IsLive kv
    → (kv' : KvServer) × (apply_command kv op index ≡ some kv')
      × (store_of kv' ≡ execute (store_of kv) op index)
      × IsLive kv'
unfolding apply_command
apply_command-execute kv op index live =
    let (found, e) = waiting-IsLive kv index live in
    let fresh = is_fresh kv.client_seq op in
    let moved = record kv {
      last_applied_index = index;
      client_seq = insert op.client_id op.request_id kv.client_seq;
      database = write_database kv.database fresh op;
    } in
    (
      notify moved fresh op found,
      rw e refl,
      notify-store_of moved fresh op found ∙ moved_store kv op index,
      notify-IsLive moved fresh op found live,
    )

module _ (parse_info : Bytes → SnapShotInfo) where
  apply_msg-receive :
      (kv : KvServer) (m : ApplyMsg) (s : Store)
      → IsLive kv
      → receive parse_info (store_of kv) m ≡ some s
      → (kv' : KvServer) × (apply_msg parse_info kv m ≡ some kv') × (store_of kv' ≡ s) × IsLive kv'
  unfolding receive apply_msg apply_snapshot recover
  apply_msg-receive kv (snap [] index term) s live h =
      (apply_snapshot parse_info kv [] index, refl, some-injective _ _ h, live)
  apply_msg-receive kv (snap (b ∷ bytes) index term) s live h =
      (apply_snapshot parse_info kv (b ∷ bytes) index, refl, some-injective _ _ h, live)
  apply_msg-receive kv (command cmd index term) s live h =
      let (op, read, done) = >>=-eq-some (get_operation cmd term index) _ h in
      let (kv', run, moved, live') = apply_command-execute kv op (index -ℤ pos 1) live in
      (kv', rw read run, moved ∙ some-injective _ _ done, live')

  -- Let every context the request map points to be alive. If the machine takes a list of messages
  -- from the server's store to a store, then ApplyLoop handles the messages without undefined
  -- behaviour, its store is then that store, and every context in the map is alive again.
  pub apply_msgs-replay :
      (ms : List ApplyMsg) (kv : KvServer) (s : Store)
      → IsLive kv
      → replay parse_info ms (store_of kv) ≡ some s
      → (kv' : KvServer) × (apply_msgs parse_info ms kv ≡ some kv')
        × (store_of kv' ≡ s)
        × IsLive kv'
  unfolding replay apply_msgs
  apply_msgs-replay [] kv s live h = (kv, refl, some-injective _ _ h, live)
  apply_msgs-replay (m ∷ ms) kv s live h =
      let (s', first, rest) = >>=-eq-some (receive parse_info (store_of kv) m) _ h in
      let (kv', run, moved, live') = apply_msg-receive kv m s' live first in
      let (kv'', runs, moved', live'') = apply_msgs-replay ms kv' s live' (rw moved rest) in
      (kv'', rw run runs, moved', live'')
