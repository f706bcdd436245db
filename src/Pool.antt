-- ===== src/Pool.antt =====
-- src/ThreadPool.cpp and include/ThreadPool.h: the queue of tasks and what a worker finds when it
-- has the mutex. A task is whatever add_task bound.
pub mod Order
use shard_kv_raft.Base.{Bool, true, false, List, [], ◌∷◌, ◌++◌, if◌then◌else◌}

pub record Pool (A : Type 0) : Type 0 where
  pub task_queue : List A
  pub stopping : Bool

-- A worker under the mutex goes on waiting, returns, or takes a task out of the queue. It runs the
-- task later, without the mutex.
pub data Turn (A : Type 0) : Type 0 where
  waits : Turn A
  exits : Turn A
  takes : A → Pool A → Turn A

module _ {A : Type 0} where
  unfoldable pub add_task : A → Pool A → Pool A
  add_task task pool = record pool { task_queue = pool.task_queue ++ task ∷ [] }

  -- `cond_.wait`, the test behind it, and the front of the queue.
  unfoldable pub next_turn : List A → Bool → Turn A
  next_turn [] stopping = if stopping then exits else waits
  next_turn (task ∷ tasks) stopping =
      takes task (record { task_queue = tasks; stopping = stopping })

  unfoldable pub take_turn : Pool A → Turn A
  unfolding next_turn
  take_turn pool = next_turn pool.task_queue pool.stopping

  -- stop, up to the joins
  unfoldable pub stop : Pool A → Pool A
  stop pool = if pool.stopping then pool else record pool { stopping = true }
