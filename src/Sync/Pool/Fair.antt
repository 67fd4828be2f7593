-- ===== src/Sync/Pool/Fair.antt =====
-- Every step of the threads of the pool keeps it.
use backend_business_intelli.Prelude.{
  ℕ, suc, ◌+◌, ◌≡◌, sym, ◌∙◌, refl, ap, true, none, some, List, [], ◌∷◌, ◌++◌, arith, length,
  length-append, inl,
}
use mathlib.Core.List.{append_assoc}
use backend_business_intelli.Sync.World.{Task, WorkerPool}
use backend_business_intelli.Sync.Pool.{shutdown, start_workers}
use backend_business_intelli.Sync.Pool.Steps.{
  Workshop, after_task, Step, submits, takes, leaves, times_out, finishes, starts, shuts_down,
  Reach, here, next, created,
}
use backend_business_intelli.Sync.Pool.Moves.{
  waiting-append, stoppers, stoppers-append, start_workers_lem, shutdown_lem, submit_lem,
  take_task_lem,
}
use backend_business_intelli.Sync.Pool.Restarts.{IsFair, Holds, starts-Holds, shuts_down-Holds}

module _ {m : ℕ} (s : Workshop) (h : Holds m s) where
  submits-Holds :
      (t : Task) (q : WorkerPool)
      → q ≡ record s.pool { queue = s.pool.queue ++ some t ∷ [] }
      → Holds m (record s { pool = q; submitted = s.submitted ++ t ∷ [] })
  submits-Holds t q e =
      let queue : q.queue ≡ s.pool.queue ++ some t ∷ [] = rw e refl in
      record {
        fair = record {
          in_order = rw (queue, waiting-append) (rw (← append_assoc) (rw h.fair.in_order));
          sized = rw e h.fair.sized;
          bounded = rw e h.fair.bounded;
          steady = rw e h.fair.steady;
        };
        same_max = rw e h.same_max;
        stopped = rw e h.stopped;
        for_retired =
            let k : stoppers q.queue ≡ stoppers s.pool.queue + 0 =
              rw queue (stoppers-append s.pool.queue (some t ∷ [])) in
            omega (arith, k, h.for_retired);
      }

  takes-Holds :
      (n : ℕ) (t : Task) (q : WorkerPool)
      → s.polling ≡ suc n
      → s.pool.queue ≡ some t ∷ q.queue
      → q ≡ record s.pool { queue = q.queue }
      → Holds m
          (record s { pool = q; polling = n; running = t ∷ s.running; taken = s.taken ++ t ∷ [] })
  takes-Holds n t q p queue e =
      let w : q.workers ≡ s.pool.workers = ap (λ x. x.workers) e in
      record {
        fair = record {
          in_order = rw append_assoc (rw queue at h.fair.in_order);
          sized = rw w h.fair.sized;
          bounded = omega (arith, w, h.fair.bounded);
          steady = λ r. omega (arith, w, h.fair.steady r);
        };
        same_max = ap (λ x. x.max_workers) e ∙ h.same_max;
        stopped = λ r. w ∙ h.stopped (sym (ap (λ x. x.is_shutdown) e) ∙ r);
        for_retired = rw queue at h.for_retired;
      }

  leaves-Holds :
      (n : ℕ) (q : WorkerPool)
      → s.polling ≡ suc n
      → s.pool.queue ≡ none ∷ q.queue
      → q ≡ record s.pool { queue = q.queue }
      → Holds m (record s { pool = q; polling = n })
  leaves-Holds n q p queue e =
      let w : q.workers ≡ s.pool.workers = ap (λ x. x.workers) e in
      let k : stoppers s.pool.queue ≡ suc (stoppers q.queue) = ap stoppers queue in
      record {
        fair = record {
          in_order = rw queue at h.fair.in_order;
          sized = rw w h.fair.sized;
          bounded = omega (arith, w, h.fair.bounded);
          steady = λ r. absurd (omega (arith, k, h.for_retired));
        };
        same_max = ap (λ x. x.max_workers) e ∙ h.same_max;
        stopped = λ r. w ∙ h.stopped (sym (ap (λ x. x.is_shutdown) e) ∙ r);
        for_retired = omega (arith, k, h.for_retired);
      }

  times_out-Holds :
      (n : ℕ) → s.polling ≡ suc n → s.pool.is_shutdown ≡ true → Holds m (record s { polling = n })
  times_out-Holds n p shut = record {
    fair = record {
      in_order = h.fair.in_order;
      sized = h.fair.sized;
      bounded = omega (arith, h.fair.bounded);
      steady = λ r. absurd (omega (arith, h.fair.steady r, h.stopped shut));
    };
    same_max = h.same_max;
    stopped = h.stopped;
    for_retired = h.for_retired;
  }

  finishes-Holds :
      (before after : List Task) (t : Task)
      → s.running ≡ before ++ t ∷ after
      → Holds m (record s {
        polling = after_task s.pool.is_shutdown s.polling;
        running = before ++ after;
      })
  finishes-Holds before after t e =
      let l : length s.running ≡ suc (length (before ++ after)) =
        omega (arith, length-append before after, length-append before (t ∷ after), ap length e) in
      record {
        fair = record {
          in_order = h.fair.in_order;
          sized = h.fair.sized;
          bounded = ground (arith, l, h.fair.bounded);
          steady = λ r. ground (arith, l, h.fair.steady r, h.stopped);
        };
        same_max = h.same_max;
        stopped = h.stopped;
        for_retired = h.for_retired;
      }

Step-Holds : {m : ℕ} {s t : Workshop} → Step s t → Holds m s → Holds m t
Step-Holds (starts s) h = starts-Holds s h (start_workers s.pool) (start_workers_lem s.pool)
Step-Holds (submits s t q e) h = submits-Holds s h t q (submit_lem t s.pool q e)
Step-Holds (takes s n t q p e) h =
    let (queue, same) = take_task_lem s.pool q (some t) e in takes-Holds s h n t q p queue same
Step-Holds (leaves s n q p e) h =
    let (queue, same) = take_task_lem s.pool q none e in leaves-Holds s h n q p queue same
Step-Holds (times_out s n p shut) h = times_out-Holds s h n p shut
Step-Holds (finishes s before after t e) h = finishes-Holds s h before after t e
Step-Holds (shuts_down s) h = shuts_down-Holds s h (shutdown s.pool) (shutdown_lem s.pool)

Reach-Holds : {m : ℕ} {s t : Workshop} → Holds m s → Reach s t → Holds m t
Reach-Holds h here = h
Reach-Holds h (next r st) = Step-Holds st (Reach-Holds h r)

created-Holds : (m : ℕ) → Holds m (created m)
created-Holds m = record {
  fair = record { in_order = refl; sized = inl refl; bounded = omega arith; steady = λ r. refl };
  same_max = refl;
  stopped = λ r. refl;
  for_retired = omega arith;
}

-- In every run of a pool from its construction on, started and shut down at any time, whatever its
-- threads do and in whatever order: the tasks handed to workers, followed by those still in the
-- queue, are the tasks submitted, in the order of submission; the pool has no threads or
-- `max_workers`; those that poll or run a task are never more than its own and those that it had
-- when it was shut down; and until a shutdown has taken threads off they are exactly its own.
pub pool-IsFair : (m : ℕ) (s : Workshop) → Reach (created m) s → IsFair m s
pool-IsFair m s r = (Reach-Holds (created-Holds m) r).fair
