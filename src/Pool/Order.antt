-- ===== src/Pool/Order.antt =====
-- The tasks of src/ThreadPool.cpp under any interleaving of callers and workers, up to the moment
-- that a worker takes them.
use shard_kv_raft.Base.{
  ◌≡◌, refl, sym, ap, ◌∙◌, Bool, true, false, List, [], ◌∷◌, ◌++◌, append-nil, append_assoc,
  if◌then◌else◌,
}
use shard_kv_raft.Pool.{Pool, Turn, waits, exits, takes, add_task, next_turn, take_turn, stop}

module _ {A : Type 0} where
  -- From one pool to another: the tasks that were added on the way, and those that workers took out of
  -- the queue, in their orders. When a worker runs a task that it took is left open.
  pub data Runs (p : Pool A) : (added taken : List A) → Pool A → Type 0 where
    begin : Runs p [] [] p
    adds :
        {added taken : List A} {q : Pool A} (task : A)
        → Runs p added taken q
        → Runs p (added ++ task ∷ []) taken (add_task task q)
    takes_task :
        {added taken : List A} {q q' : Pool A} {task : A}
        → Runs p added taken q
        → take_turn q ≡ takes task q'
        → Runs p added (taken ++ task ∷ []) q'
    stops : {added taken : List A} {q : Pool A} → Runs p added taken q → Runs p added taken (stop q)

  stop_tasks : (p : Pool A) → (stop p).task_queue ≡ p.task_queue
  unfolding stop
  stop_tasks p = halted p.stopping
    where
      halted :
          (b : Bool) → (if b then p else record p { stopping = true }).task_queue ≡ p.task_queue
      halted true = refl
      halted false = refl

  -- The tasks of a worker's turn: the one to run, and those behind it.
  abbrev turn_tasks : Turn A → List A
  turn_tasks waits = []
  turn_tasks exits = []
  turn_tasks (takes task q) = task ∷ q.task_queue

  next_turn_tasks : (tasks : List A) (b : Bool) → turn_tasks (next_turn tasks b) ≡ tasks
  unfolding next_turn
  next_turn_tasks [] true = refl
  next_turn_tasks [] false = refl
  next_turn_tasks (task ∷ tasks) b = refl

  take_turn_tasks : (p : Pool A) → turn_tasks (take_turn p) ≡ p.task_queue
  unfolding take_turn
  take_turn_tasks p = next_turn_tasks p.task_queue p.stopping

  -- Those that were taken, and then those in the queue, are those that were in the queue at first, and
  -- then those added.
  Runs-order :
      {p q : Pool A} {added taken : List A}
      → Runs p added taken q
      → taken ++ q.task_queue ≡ p.task_queue ++ added
  unfolding add_task
  Runs-order {p} begin = sym (append-nil p.task_queue)
  Runs-order {p} (adds {added} {taken} {q} task rs) =
      sym (append_assoc taken q.task_queue (task ∷ []))
      ∙ ap (λ ts. ts ++ task ∷ []) (Runs-order rs)
      ∙ append_assoc p.task_queue added (task ∷ [])
  Runs-order {p} (takes_task {added} {taken} {q} {q'} {task} rs e) =
      append_assoc taken (task ∷ []) q'.task_queue
      ∙ ap (λ ts. taken ++ ts) (sym (ap turn_tasks e) ∙ take_turn_tasks q)
      ∙ Runs-order rs
  Runs-order {p} (stops {added} {taken} {q} rs) =
      ap (λ ts. taken ++ ts) (stop_tasks q) ∙ Runs-order rs

  exits-last : (tasks : List A) (b : Bool) → next_turn tasks b ≡ exits → (b ≡ true) × (tasks ≡ [])
  unfolding next_turn
  exits-last [] true e = (refl, refl)
  exits-last [] false e = cc
  exits-last (task ∷ tasks) b e = cc

  -- A worker returns, whatever callers and workers did before and in which order, only when the pool
  -- is stopped and the workers have taken every task that was in the queue at first or has been
  -- added since, each once and in the order of the queue; a stop loses no task that is queued.
  pub exits_after_all :
      {p q : Pool A} {added taken : List A}
      → Runs p added taken q
      → take_turn q ≡ exits
      → (q.stopping ≡ true) × (taken ≡ p.task_queue ++ added)
  unfolding take_turn
  exits_after_all {p} {q} {added} {taken} rs e =
      let (stopped, empty) = exits-last q.task_queue q.stopping e in
      (stopped, sym (append-nil taken) ∙ ap (λ ts. taken ++ ts) (sym empty) ∙ Runs-order rs)
