-- ===== src/Sync/Pool/Steps.antt =====
-- `_worker_loop`: the threads of one pool, as steps in any order, the pool
-- being started and shut down at any time. A thread polls the queue
-- or runs a task; it goes on polling after a task unless the pool is shut down, and leaves at a
-- sentinel or at a poll that ends after the shutdown. What a task does is not looked at, and
-- whether it raises makes no difference here (the loop logs it).
use backend_business_intelli.Prelude.{
  ℕ, suc, ◌+◌, ◌-◌, ◌≡◌, Bool, true, false, none, some, List, [], ◌∷◌, ◌++◌, if◌then◌else◌,
}
use backend_business_intelli.Sync.Base.{ok}
use backend_business_intelli.Sync.World.{Task, WorkerPool}
use backend_business_intelli.Sync.Pool.{submit, shutdown, take_task, start_workers}

-- `polling` threads wait in `get`; `before` and `after` is what other threads run. The last three
-- fields are a record of what happened: how many threads the pool has had when it was shut down, all
-- together; all tasks submitted, and all handed to a worker, in order.
pub record Workshop : Type 0 where
  pub pool : WorkerPool
  pub polling : ℕ
  pub running : List Task
  pub retired : ℕ
  pub submitted : List Task
  pub taken : List Task

abbrev pub after_task : Bool → ℕ → ℕ
after_task is_shutdown polling = if is_shutdown then polling else suc polling

-- The workers that a shutdown takes off the pool's list.
abbrev pub new_retired : WorkerPool → ℕ
new_retired p = p.workers - (shutdown p).workers

pub data Step : Workshop → Workshop → Type 0 where
  starts :
      (s : Workshop)
      → Step s (record s {
        pool = start_workers s.pool;
        polling = s.polling + ((start_workers s.pool).workers - s.pool.workers);
      })
  submits :
      (s : Workshop) (t : Task) (p : WorkerPool)
      → submit t s.pool ≡ ok p
      → Step s (record s { pool = p; submitted = s.submitted ++ t ∷ [] })
  takes :
      (s : Workshop) (n : ℕ) (t : Task) (p : WorkerPool)
      → s.polling ≡ suc n
      → take_task s.pool ≡ some (some t, p)
      → Step s
          (record s { pool = p; polling = n; running = t ∷ s.running; taken = s.taken ++ t ∷ [] })
  leaves :
      (s : Workshop) (n : ℕ) (p : WorkerPool)
      → s.polling ≡ suc n
      → take_task s.pool ≡ some (none, p)
      → Step s (record s { pool = p; polling = n })
  times_out :
      (s : Workshop) (n : ℕ)
      → s.polling ≡ suc n
      → s.pool.is_shutdown ≡ true
      → Step s (record s { polling = n })
  finishes :
      (s : Workshop) (before after : List Task) (t : Task)
      → s.running ≡ before ++ t ∷ after
      → Step s (record s {
        polling = after_task s.pool.is_shutdown s.polling;
        running = before ++ after;
      })
  shuts_down :
      (s : Workshop)
      → Step s (record s { pool = shutdown s.pool; retired = s.retired + new_retired s.pool })

pub data Reach (s : Workshop) : Workshop → Type 0 where
  here : Reach s s
  next : {t u : Workshop} → Reach s t → Step t u → Reach s u

-- The pool as it is constructed, before `start`.
abbrev pub created : ℕ → Workshop
created max_workers = record {
  pool = record { max_workers = max_workers; workers = 0; queue = []; is_shutdown = false };
  polling = 0;
  running = [];
  retired = 0;
  submitted = [];
  taken = [];
}
