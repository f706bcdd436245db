-- ===== src/Raft/Election.antt =====
-- The election timer of src/RaftServer.cpp: GetDuration, SetBellTime, and one round of the inner
-- loop of ElectionLoop, split where it waits for the votes. `rand()` enters as the timeout, and
-- the clock as arguments.
pub mod Recount
use Prim.Native.Nat.{◌-◌, ◌%◌, ◌^◌, ◌*◌, ◌/◌}
use shard_kv_raft.Base.{
  ℕ, zero, suc, Bool, true, false, ◌&&◌, ◌||◌, List, [], ◌∷◌, Option, none, some, ◌>>=◌, ℤ, pos,
  negsuc, ◌+ℤ◌, ◌-ℤ◌, ◌==ℤ◌, ltb_ℤ, leb_ℤ, ltb, sub_ℕ, pos_part, neg_part, if◌then◌else◌, length,
}
use shard_kv_raft.Raft.State.{PeersInfo, Raft, RaftState, leader, candidate, follower, Timeval}
use shard_kv_raft.Raft.Log.{last_index}
use shard_kv_raft.Raft.Persist.{save_raft_state}

-- the conversion of a `long` to an `int`
unfoldable pub to_int : ℤ → ℤ
to_int (pos n) =
    if ltb (n % 2 ^ 32) (2 ^ 31) then pos (n % 2 ^ 32) else negsuc (2 ^ 32 - 1 - n % 2 ^ 32)
to_int (negsuc n) =
    if ltb (n % 2 ^ 32) (2 ^ 31) then negsuc (n % 2 ^ 32) else pos (2 ^ 32 - 1 - n % 2 ^ 32)

unfoldable pub micros : ℤ → ℤ
micros s = sub_ℕ (pos_part s * 1000000) (neg_part s * 1000000)

-- GetDuration: microseconds from `last` to `now`, cut to an `int`
unfoldable pub get_duration : Timeval → Timeval → ℤ
unfolding to_int micros
get_duration now last = to_int (micros (now.tv_sec -ℤ last.tv_sec) +ℤ (now.tv_usec -ℤ last.tv_usec))

-- SetBellTime: 200000 microseconds before now
unfoldable pub set_bell_time : Timeval → Raft → Raft
set_bell_time now r = record r {
  last_broadcast_time =
      if leb_ℤ (pos 200000) now.tv_usec
      then record now { tv_usec = now.tv_usec -ℤ pos 200000 }
      else record { tv_sec = now.tv_sec -ℤ pos 1; tv_usec = now.tv_usec +ℤ pos (1000000 - 200000) };
}

unfoldable pub is_follower : RaftState → Bool
is_follower follower = true
is_follower leader = false
is_follower candidate = false

unfoldable pub is_candidate : RaftState → Bool
is_candidate candidate = true
is_candidate leader = false
is_candidate follower = false

-- A follower whose timer has run out is a candidate.
unfoldable pub time_out : ℤ → ℤ → Raft → Raft
unfolding is_follower
time_out during_time timeout r =
    if is_follower r.state && ltb_ℤ timeout during_time then record r { state = candidate } else r

-- The candidate votes for itself, in its old term, and writes it down.
unfoldable pub stand : Timeval → Raft → Raft
stand now r = record (save_raft_state (record r { last_wake_time = now; vote_for = r.peer_id })) {
  recv_votes = pos 1;
  finished_vote = pos 1;
}

-- One round up to the wait; the flag says that vote requests are out and the thread waits.
unfoldable pub election_round : Timeval → ℤ → Raft → Raft × Bool
unfolding time_out is_candidate stand
election_round now timeout r =
    let during_time = get_duration now r.last_wake_time in
    let r' = time_out during_time timeout r in
    if is_candidate r'.state && ltb_ℤ timeout during_time then (stand now r', true) else (r', false)

-- The peers that the requests go to.
unfoldable pub others : ℤ → List PeersInfo → List ℤ
others me [] = []
others me (p ∷ ps) = let rest = others me ps in if p.peer_id ==ℤ me then rest else p.peer_id ∷ rest

-- `votes > m_peers.size() / 2`; the counter is not negative
unfoldable pub is_majority : ℤ → List PeersInfo → Bool
is_majority votes peers = ltb_ℤ (pos (length peers / 2)) votes

-- what the thread waits for
unfoldable pub vote_over : Raft → Bool
unfolding is_majority
vote_over r = is_majority r.recv_votes r.peers || (r.finished_vote ==ℤ pos (length r.peers))

-- `v[i] = a` for every `i < n`
unfoldable pub fill : ℕ → ℤ → List ℤ → Option (List ℤ)
fill zero a xs = some xs
fill (suc n) a [] = none
fill (suc n) a (x ∷ xs) = do rest ← fill n a xs; some (a ∷ rest)

-- The new leader's term is one above its old one.
unfoldable pub become_leader : Timeval → Raft → Option Raft
unfolding fill
become_leader now r = do
  next ← fill (length r.peers) (last_index r +ℤ pos 1) r.next_index
  matched ← fill (length r.peers) (pos 0) r.match_index
  some (
      set_bell_time now (record r {
        state = leader;
        cur_term = r.cur_term +ℤ pos 1;
        next_index = next;
        match_index = matched;
      }))

-- The round behind the wait.
unfoldable pub after_vote : Timeval → Raft → Option Raft
unfolding is_candidate is_majority
after_vote now r =
    let won = become_leader now r in
    if is_candidate r.state
    then (if is_majority r.recv_votes r.peers then won else some r)
    else some r
