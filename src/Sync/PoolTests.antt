-- ===== src/Sync/PoolTests.antt =====
-- The pool, started, shut down and started again, on concrete inputs.
use backend_business_intelli.Prelude.{◌≡◌, refl, true, false, none, some, [], ◌∷◌}
use backend_business_intelli.Sync.Base.{normal, sales}
use backend_business_intelli.Sync.Job.{SyncJob, create}
use backend_business_intelli.Sync.World.{Task, WorkerPool}
use backend_business_intelli.Sync.Pool.{submit, take_task, start_workers, shutdown, is_running}
use backend_business_intelli.Sync.Pool.Steps.{
  Workshop, Reach, here, next, starts, submits, takes, leaves, finishes, shuts_down, created,
}
use backend_business_intelli.Sync.Pool.Restarts.{IsFair}
use backend_business_intelli.Sync.Pool.Fair.{pool-IsFair}

abbrev job_7 : SyncJob
job_7 = create 7 100 1 2 sales normal none "incremental" (some 3)

abbrev first_task : Task
first_task = record { job = job_7; credentials = 9 }

abbrev two_threads : WorkerPool
two_threads = record { max_workers = 2; workers = 2; queue = []; is_shutdown = false }

abbrev started : Workshop
started = record (created 2) { pool = two_threads; polling = 2 }

abbrev one_queued : Workshop
one_queued = record started {
  pool = record two_threads { queue = some first_task ∷ [] };
  submitted = first_task ∷ [];
}

abbrev one_taken : Workshop
one_taken = record one_queued {
  pool = two_threads;
  polling = 1;
  running = first_task ∷ [];
  taken = first_task ∷ [];
}

one_taken_reached : Reach (created 2) one_taken
unfolding submit start_workers take_task
one_taken_reached =
    next (next (next here (starts (created 2))) (submits started first_task one_queued.pool refl))
      (takes one_queued 1 first_task two_threads refl refl)

-- Shut down while a task runs and started again: the old thread goes on beside the two new ones,
-- and one of the sentinels that were put for the old threads is left for a new one.
abbrev restarted : Workshop
restarted = record one_taken {
  pool = record two_threads { queue = none ∷ none ∷ [] };
  polling = 3;
  retired = 2;
}

restarted_reached : Reach (created 2) restarted
unfolding start_workers shutdown
restarted_reached = next (next one_taken_reached (shuts_down one_taken)) (
    starts (record one_taken {
      pool = record { max_workers = 2; workers = 0; queue = none ∷ none ∷ []; is_shutdown = true };
      retired = 2;
    }))

pool-IsFair_example : IsFair 2 restarted
pool-IsFair_example = pool-IsFair 2 restarted restarted_reached

-- One thread, which is running a task when the pool is shut down: it leaves by the flag. After a
-- new start its sentinel ends the new thread. The pool then runs by its own account, a start does
-- nothing, and no thread is there to take a task.
abbrev one_thread : WorkerPool
one_thread = record { max_workers = 1; workers = 1; queue = []; is_shutdown = false }

abbrev lone : Workshop
lone = record (created 1) { pool = one_thread; polling = 1 }

abbrev lone_queued : Workshop
lone_queued = record lone {
  pool = record one_thread { queue = some first_task ∷ [] };
  submitted = first_task ∷ [];
}

abbrev lone_busy : Workshop
lone_busy = record lone {
  polling = 0;
  running = first_task ∷ [];
  submitted = first_task ∷ [];
  taken = first_task ∷ [];
}

abbrev lone_shut : Workshop
lone_shut = record lone_busy {
  pool = record { max_workers = 1; workers = 0; queue = none ∷ []; is_shutdown = true };
  retired = 1;
}

abbrev lone_left : Workshop
lone_left = record lone_shut { running = [] }

abbrev lone_again : Workshop
lone_again = record lone_left { pool = record one_thread { queue = none ∷ [] }; polling = 1 }

abbrev starved : Workshop
starved = record lone_left { pool = one_thread; polling = 0 }

starved_reached : Reach (created 1) starved
unfolding submit start_workers take_task shutdown
starved_reached =
    let busy : Reach (created 1) lone_busy =
      next (next (next here (starts (created 1))) (submits lone first_task lone_queued.pool refl))
        (takes lone_queued 0 first_task one_thread refl refl) in
    let left : Reach (created 1) lone_left =
      next (next busy (shuts_down lone_busy)) (finishes lone_shut [] [] first_task refl) in
    next (next left (starts lone_left)) (leaves lone_again 0 one_thread refl refl)

starved_runs : (is_running starved.pool ≡ true) × (start_workers starved.pool ≡ starved.pool)
unfolding is_running start_workers
starved_runs = (refl, refl)
