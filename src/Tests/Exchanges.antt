-- ===== src/Tests/Exchanges.antt =====
-- Exchanges behind a conflict at concrete nodes.
use shard_kv_raft.Base.{
  ◌⊎◌, ℕ, zero, suc, true, none, Option, ◌+◌, ◌/◌, ◌≤◌, ◌≡◌, ◌↔◌, inr, length, refl, List, [], ◌∷◌,
  ◌++◌, some, pos, minus_one, ◌+ℤ◌, ◌-ℤ◌, ◌≤ℤ◌, arith,
}
use shard_kv_raft.Raft.State.{Raft, Timeval, AppendEntriesResponse, at}
use shard_kv_raft.Raft.Log.{last_index, log_at, compress_log_idx}
use shard_kv_raft.Raft.Replicate.{prev_term}
use shard_kv_raft.Raft.Replicate.Exchange.{exchange, exchanges}
use shard_kv_raft.Raft.Replicate.Stuck.{Stuck, exchanges-Stuck}
use shard_kv_raft.Raft.Replicate.Facing.{Facing, Obstacle}
use shard_kv_raft.Raft.Replicate.Catching.{CaughtUp, exchanges_catch_up}
use shard_kv_raft.Raft.Replicate.Matched.{Books, UpToDate}
use shard_kv_raft.Raft.Replicate.Agree.{Meets, Copied, exchange_replicates}
use shard_kv_raft.Raft.Replicate.{majority_match_index}
use shard_kv_raft.Raft.Replicate.Quorum.{reached}
use shard_kv_raft.Raft.Replicate.Greatest.{majority_greatest}
use shard_kv_raft.Tests.Nodes.{midnight, follower_node, leader_node, entry}

-- The leader of term 3, with two entries from term 1.
abbrev old_leader : Raft
old_leader = record leader_node { cur_term = pos 3 }

-- The follower kept an entry of a leader of term 2 that is gone.
abbrev ahead : Raft
ahead = follower_node 1 2 (entry "set a 1 7 0" 1 ∷ entry "set c 3 8 0" 2 ∷ [])

stuck : Stuck (pos 1) old_leader ahead
unfolding at last_index log_at compress_log_idx prev_term ◌+ℤ◌ ◌-ℤ◌
stuck = record {
  clash = record {
    ready = record {
      next = pos 3;
      has_next = refl;
      from_base = omega arith;
      in_log = omega arith;
      clean = omega arith;
    };
    term_at = pos 1;
    has_term = refl;
    entry = entry "set c 3 8 0" 2;
    differs = record { inside = omega arith; within = omega arith; here = refl; other = λ e. cc };
    fresh = omega arith;
    known = λ e. cc;
    base = omega arith;
  };
  above_base = omega arith;
  low = omega arith;
}

exchanges-Stuck_example :
    (l : Raft) × (f : Raft) × (exchanges (midnight ∷ midnight ∷ []) (pos 1) (old_leader, ahead)
      ≡ some (l, f))
    × Stuck (pos 1) l f
    × (f.logs ≡ ahead.logs)
    × (f.commit_index ≡ pos 0)
exchanges-Stuck_example = exchanges-Stuck (midnight ∷ midnight ∷ []) (pos 1) old_leader ahead stuck

-- The leader's second entry is of term 3.
abbrev new_leader : Raft
new_leader = record old_leader { logs = entry "set a 1 7 0" 1 ∷ entry "set b 2 7 1" 3 ∷ [] }

facing : Facing (pos 1) new_leader ahead
unfolding at last_index ◌+ℤ◌ ◌-ℤ◌
facing = record {
  ready = record {
    next = pos 3;
    has_next = refl;
    from_base = omega arith;
    in_log = omega arith;
    clean = omega arith;
  };
  within = omega arith;
  fresh = omega arith;
  base = omega arith;
  known = (λ e. cc, (λ e. cc, tt));
}

abbrev four_times : List Timeval
four_times = midnight ∷ midnight ∷ midnight ∷ midnight ∷ []

new-Books : Books (pos 1) new_leader
unfolding at last_index ◌+ℤ◌
new-Books = record {
  of_peer = pos 0;
  has_peer = refl;
  of_own = pos 0;
  has_own = refl;
  bounded = omega arith;
}

exchanges_catch_up_example :
    (before after : List Timeval) × (l : Raft) × (f : Raft) × (four_times ≡ before ++ after)
    × (exchanges before (pos 1) (new_leader, ahead) ≡ some (l, f))
    × (CaughtUp (pos 1) new_leader l f ⊎ (Obstacle (pos 1) l f × (f.logs ≡ ahead.logs)))
unfolding facing ◌+ℤ◌
exchanges_catch_up_example =
    exchanges_catch_up four_times (pos 1) new_leader ahead facing new-Books (omega arith)

-- The leader has gone back to the entry that both have.
abbrev met_leader : Raft
met_leader = record new_leader { next_index = pos 3 ∷ pos 2 ∷ pos 3 ∷ [] }

meets : Meets (pos 1) met_leader ahead
unfolding at last_index log_at compress_log_idx prev_term ◌+ℤ◌ ◌-ℤ◌
meets = record {
  ready = record {
    next = pos 2;
    has_next = refl;
    from_base = omega arith;
    in_log = omega arith;
    clean = omega arith;
  };
  books = record {
    of_peer = pos 0;
    has_peer = refl;
    of_own = pos 0;
    has_own = refl;
    bounded = omega arith;
  };
  fresh = omega arith;
  term_at = pos 1;
  has_term = refl;
  has_prev = inr (omega arith, omega arith, (entry "set a 1 7 0" 1, refl, refl));
}

exchange_replicates_example :
    (l : Raft) × (f : Raft) × (exchange midnight (pos 1) (met_leader, ahead) ≡ some (l, f))
    × Copied met_leader ahead f (pos 1)
    × UpToDate (pos 1) met_leader l
unfolding meets ◌-ℤ◌
exchange_replicates_example = exchange_replicates midnight (pos 1) met_leader ahead meets

majority_greatest_example :
    (length (pos 5 ∷ pos 2 ∷ pos 5 ∷ [])
      ≤ reached (pos 4) (pos 5 ∷ pos 2 ∷ pos 5 ∷ []) + length (pos 5 ∷ pos 2 ∷ pos 5 ∷ []) / 2)
    ↔ (pos 4 ≤ℤ pos 5)
unfolding majority_match_index
majority_greatest_example = majority_greatest (pos 5 ∷ pos 2 ∷ pos 5 ∷ []) (pos 5) (pos 4) refl

-- Two calls fail, the third is answered.
abbrev accepted : AppendEntriesResponse
accepted = record {
  term = pos 2;
  success = true;
  conflict_term = minus_one;
  conflict_index = minus_one;
}

third_answers : ℕ → Option AppendEntriesResponse
third_answers zero = none
third_answers (suc zero) = none
third_answers (suc (suc k)) = some accepted
