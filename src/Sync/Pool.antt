-- ===== src/Sync/Pool.antt =====
-- synchronization/infrastructure/worker_pool.py. The threads are a count; which worker takes which
-- task, and when, is a step relation (`Sync.Pool.Steps`). `execute` is what running a task does.
pub mod Steps
pub mod Moves
pub mod Restarts
pub mod Fair
use backend_business_intelli.Prelude.{
  ℕ, zero, suc, ◌+◌, Bool, true, false, not, ◌&&◌, Option, none, some, List, [], ◌∷◌, ◌++◌, ltb,
  if◌then◌else◌, length,
}
use backend_business_intelli.Sync.Base.{Result, ok, err, pool_shut_down}
use backend_business_intelli.Sync.World.{Task, WorkerPool}

-- The loop of `start`: each round starts one thread and appends it to the workers.
unfoldable pub spawn : ℕ → WorkerPool → WorkerPool
spawn zero p = p
spawn (suc n) p = spawn n (record p { workers = p.workers + 1 })

-- `start`. Nothing happens where workers are running already.
unfoldable pub start_workers : WorkerPool → WorkerPool
unfolding spawn
start_workers p =
    if ltb 0 p.workers then p else spawn p.max_workers (record p { is_shutdown = false })

unfoldable pub submit : Task → WorkerPool → Result WorkerPool
submit t p =
    if p.is_shutdown then err pool_shut_down else ok (record p { queue = p.queue ++ some t ∷ [] })

-- One sentinel for each worker.
abbrev pub sentinels : ℕ → List (Option Task)
sentinels zero = []
sentinels (suc n) = none ∷ sentinels n

unfoldable pub shutdown : WorkerPool → WorkerPool
shutdown p =
    if p.is_shutdown
    then p
    else record p { is_shutdown = true; queue = p.queue ++ sentinels p.workers; workers = 0 }

unfoldable pub queue_size : WorkerPool → ℕ
queue_size p = length p.queue

unfoldable pub is_running : WorkerPool → Bool
is_running p = not p.is_shutdown && ltb 0 p.workers

-- What a worker's `get` hands out: the head of the queue, and the queue without it.
unfoldable pub take_task : WorkerPool → Option (Option Task × WorkerPool)
take_task p = elim p.queue [ [] ↦ none | t ∷ rest ↦ some (t, record p { queue = rest }) ]
