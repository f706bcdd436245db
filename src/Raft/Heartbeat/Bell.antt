-- ===== src/Raft/Heartbeat/Bell.antt =====
-- SetBellTime in src/RaftServer.cpp moves the last broadcast back so far that the next round of
-- ProcessEntriesLoop is due.
use shard_kv_raft.Base.{
  ℕ, zero, suc, ◌+◌, ◌*◌, ◌<◌, ◌≡◌, refl, sym, ap, ◌∙◌, inl, inr, false, List, [], ◌∷◌, some, ℤ,
  pos, ◌+ℤ◌, ◌-ℤ◌, ◌≤ℤ◌, ◌==ℤ◌, ltb_ℤ, leb_ℤ, sub_ℕ, pos_part, neg_part, int_laws, eq_of_parts,
  arith, length, get_elem?, All, Bool-cases, map, Ensures, Ensures-some, Ensures-bind, +ℤ_parts,
}
use mathlib.Core.Path.{subst}
use shard_kv_raft.Raft.State.{PeersInfo, Raft, Timeval, leader, at}
use shard_kv_raft.Raft.Log.{last_index}
use shard_kv_raft.Raft.Election.{
  to_int, micros, get_duration, set_bell_time, fill, become_leader, others,
}
use shard_kv_raft.Raft.Replicate.{is_leader}
use shard_kv_raft.Raft.Heartbeat.{send_append_entries, task_for, tasks_for, heartbeat}

-- The microseconds from one time to another.
abbrev pub elapsed : Timeval → Timeval → ℤ
elapsed from to = micros (to.tv_sec -ℤ from.tv_sec) +ℤ (to.tv_usec -ℤ from.tv_usec)

to_int_small : (n : ℕ) → n < 2147483648 → to_int (pos n) ≡ pos n
unfolding to_int
to_int_small n h = ground arith

sub_ℕ_parts : (a b : ℕ) → pos_part (sub_ℕ a b) + b ≡ neg_part (sub_ℕ a b) + a
sub_ℕ_parts a b = ground arith

micros_parts :
    (s : ℤ)
    → pos_part (micros s) + neg_part s * 1000000 ≡ neg_part (micros s) + pos_part s * 1000000
unfolding micros
micros_parts s = sub_ℕ_parts (pos_part s * 1000000) (neg_part s * 1000000)

-- Moving one second back is a million microseconds more.
micros_second : (a b : ℤ) → micros (a -ℤ (b -ℤ pos 1)) ≡ micros (a -ℤ b) +ℤ pos 1000000
micros_second a b =
    eq_of_parts _ _ (omega (int_laws, micros_parts (a -ℤ (b -ℤ pos 1)), micros_parts (a -ℤ b)))

bell_elapsed :
    (now later : Timeval) (r : Raft)
    → elapsed (set_bell_time now r).last_broadcast_time later ≡ elapsed now later +ℤ pos 200000
unfolding set_bell_time
bell_elapsed now later r = elim (Bool-cases (leb_ℤ (pos 200000) now.tv_usec)) [
  | inl late ↦ rw late (eq_of_parts _ _ (omega int_laws))
  | inr early ↦ rw early (
      ap (λ z. z +ℤ (later.tv_usec -ℤ (now.tv_usec +ℤ pos 800000)))
        (micros_second later.tv_sec now.tv_sec)
      ∙ eq_of_parts _ _ (omega int_laws))
]

-- The first `n` places hold the value.
abbrev IsFilled : ℕ → ℤ → List ℤ → Type 0
IsFilled n a ys = (i : ℕ) → i < n → get_elem? ys i ≡ some a

fill-IsFilled : (n : ℕ) (a : ℤ) (xs : List ℤ) → Ensures (IsFilled n a) (fill n a xs)
unfolding fill
fill-IsFilled zero a xs = Ensures-some xs (λ i h. absurd (omega (arith, h)))
fill-IsFilled (suc n) a [] = record { result = λ ys run. cc }
fill-IsFilled (suc n) a (x ∷ xs) = Ensures-bind (fill n a xs) _ λ rest run.
    Ensures-some (a ∷ rest) λ i h. more rest i ((fill-IsFilled n a xs).result rest run) h
  where
    more : (rest : List ℤ) (i : ℕ) → IsFilled n a rest → i < suc n → get_elem? (a ∷ rest) i ≡ some a
    more rest zero filled h = refl
    more rest (suc i) filled h = filled i (omega (arith, h))

-- The number of a peer is a place in the vectors.
abbrev pub IsNumbered : ℕ → PeersInfo → Type 0
IsNumbered n p = (i : ℕ) × (p.peer_id ≡ pos i) × (i < n)

-- A node whose next index for each of its peers is the one behind its log.
record Ready (s : Raft) : Type 0 where
  leads : s.state ≡ leader
  next_at : (i : ℕ) → i < length s.peers → get_elem? s.next_index i ≡ some (last_index s +ℤ pos 1)

task_ready :
    (s : Raft) (p : PeersInfo)
    → Ready s
    → IsNumbered (length s.peers) p
    → task_for s p.peer_id ≡ some (send_append_entries p.peer_id)
unfolding task_for at
task_ready s p h (i, e, lo) =
    rw (e, h.next_at i lo, behind (last_index s) s.last_included_index (at_base s)) refl
  where
    behind : (last base : ℤ) → base ≤ℤ last → leb_ℤ (last +ℤ pos 1) base ≡ false
    behind last base le = ground (arith, +ℤ_parts last (pos 1))

    at_base : (s : Raft) → s.last_included_index ≤ℤ last_index s
    at_base s = unfold last_index in omega int_laws

tasks_ready :
    (s : Raft) (me : ℤ) (ps : List PeersInfo)
    → Ready s
    → All (IsNumbered (length s.peers)) ps
    → tasks_for s (others me ps) ≡ some (map send_append_entries (others me ps))
unfolding tasks_for others
tasks_ready s me [] h hs = refl
tasks_ready s me (p ∷ ps) h (hp, hs) = elim (Bool-cases (p.peer_id ==ℤ me)) [
  | inl same ↦ rw same (tasks_ready s me ps h hs)
  | inr other ↦ rw other (rw (task_ready s p h hp) (rw (tasks_ready s me ps h hs) refl))
]

-- What a new leader is, beside its vectors.
record Became (now : Timeval) (r s : Raft) : Type 0 where
  ready : Ready s
  peers : s.peers ≡ r.peers
  me : s.peer_id ≡ r.peer_id
  bell : s.last_broadcast_time ≡ (set_bell_time now r).last_broadcast_time

become_leader-Became : (now : Timeval) (r : Raft) → Ensures (Became now r) (become_leader now r)
unfolding become_leader set_bell_time last_index
become_leader-Became now r =
    Ensures-bind (fill (length r.peers) (last_index r +ℤ pos 1) r.next_index) _ λ next filled.
      Ensures-bind (fill (length r.peers) (pos 0) r.match_index) _ λ matches _.
        Ensures-some _ (record {
          ready = record {
            leads = refl;
            next_at =
                (fill-IsFilled (length r.peers) (last_index r +ℤ pos 1) r.next_index).result next
                  filled;
          };
          peers = refl;
          me = refl;
          bell = refl;
        })

rung : (later : Timeval) (s : Raft) → Ready s → Ready (record s { last_broadcast_time = later })
unfolding last_index
rung later s h = record { leads = h.leads; next_at = h.next_at }

-- The time since the last broadcast, with what SetBellTime has added.
due :
    (now later : Timeval) (r s : Raft) (d : ℕ)
    → Became now r s
    → elapsed now later ≡ pos d
    → d < 2147283648
    → get_duration later s.last_broadcast_time ≡ pos (d + 200000)
unfolding get_duration
due now later r s d b time small =
    ap (λ t. to_int (elapsed t later)) b.bell
    ∙ ap to_int (
        bell_elapsed now later r
        ∙ ap (λ z. z +ℤ pos 200000) time
        ∙ eq_of_parts (pos d +ℤ pos 200000) (pos (d + 200000)) (omega int_laws))
    ∙ to_int_small (d + 200000) (omega (arith, small))

-- Let a node become the leader, and let the bell be rung for it at a time that is not before that and
-- less than 2147283648 microseconds later, the number of each peer being a place in the vectors.
-- Then the round asks for an append to every other peer, in their order, and for no snapshot.
pub heartbeat_at_once :
    (now later : Timeval) (r s : Raft) (d : ℕ)
    → become_leader now r ≡ some s
    → elapsed now later ≡ pos d
    → d < 2147283648
    → All (IsNumbered (length r.peers)) r.peers
    → heartbeat later s
      ≡ some (
        record s { last_broadcast_time = later },
        map send_append_entries (others r.peer_id r.peers),
      )
unfolding heartbeat is_leader
heartbeat_at_once now later r s d run time small numbered =
    let b = (become_leader-Became now r).result s run in
    let asked =
      tasks_ready (record s { last_broadcast_time = later }) r.peer_id r.peers
        (rung later s b.ready)
        (subst (λ ps. All (IsNumbered (length ps)) r.peers) (sym b.peers) numbered) in
    rw (b.ready.leads, due now later r s d b time small, late d, b.me, b.peers) (rw asked refl)
  where
    late : (d : ℕ) → ltb_ℤ (pos (d + 200000)) (pos 100000) ≡ false
    late d = ground arith
