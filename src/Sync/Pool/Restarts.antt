-- ===== src/Sync/Pool/Restarts.antt =====
-- What the threads of the pool keep, and a start and a shutdown keep it.
use backend_business_intelli.Prelude.{
  ℕ, ◌+◌, ◌≤◌, ◌<◌, ◌-◌, ◌⊎◌, ◌≡◌, ◌∙◌, refl, ap, true, false, ◌++◌, arith, length, inl, inr,
}
use mathlib.Core.List.{append-nil}
use backend_business_intelli.Sync.World.{WorkerPool}
use backend_business_intelli.Sync.Pool.{sentinels}
use backend_business_intelli.Sync.Pool.Steps.{Workshop}
use backend_business_intelli.Sync.Pool.Moves.{
  waiting, waiting-append, waiting-sentinels, stoppers, stoppers-append, stoppers-sentinels,
}

-- Nothing is lost, doubled or overtaken. The pool has no threads or `max_workers` of them; those
-- that work are its own and, after a shutdown, some of the earlier ones; and before that they are
-- exactly its own.
pub record IsFair (max_workers : ℕ) (s : Workshop) : Type 0 where
  pub in_order : s.taken ++ waiting s.pool.queue ≡ s.submitted
  pub sized : (s.pool.workers ≡ 0) ⊎ (s.pool.workers ≡ max_workers)
  pub bounded : s.polling + length s.running ≤ s.pool.workers + s.retired
  pub steady : s.retired ≡ 0 → s.polling + length s.running ≡ s.pool.workers

-- With it: a pool that is shut down has no threads, and each sentinel is for a retired one.
pub record Holds (max_workers : ℕ) (s : Workshop) : Type 0 where
  pub fair : IsFair max_workers s
  pub same_max : s.pool.max_workers ≡ max_workers
  pub stopped : s.pool.is_shutdown ≡ true → s.pool.workers ≡ 0
  pub for_retired : stoppers s.pool.queue ≤ s.retired

module _ {m : ℕ} (s : Workshop) (h : Holds m s) where
  pub starts-Holds :
      (q : WorkerPool)
      → ((0 < s.pool.workers) × (q ≡ s.pool))
        ⊎ ((s.pool.workers ≡ 0)
            × (q ≡ record s.pool { workers = s.pool.max_workers; is_shutdown = false }))
      → Holds m (record s { pool = q; polling = s.polling + (q.workers - s.pool.workers) })
  starts-Holds q (inl (some_run, e)) =
      let w : q.workers ≡ s.pool.workers = rw e refl in
      record {
        fair = record {
          in_order = rw e h.fair.in_order;
          sized = rw e h.fair.sized;
          bounded = omega (arith, w, h.fair.bounded);
          steady = λ r. omega (arith, w, h.fair.steady r);
        };
        same_max = rw e h.same_max;
        stopped = rw e h.stopped;
        for_retired = rw e h.for_retired;
      }
  starts-Holds q (inr (none_run, e)) =
      let w : q.workers ≡ s.pool.max_workers = rw e refl in
      record {
        fair = record {
          in_order = rw e h.fair.in_order;
          sized = inr (w ∙ h.same_max);
          bounded = omega (arith, w, none_run, h.fair.bounded);
          steady = λ r. omega (arith, w, none_run, h.fair.steady r);
        };
        same_max = rw e h.same_max;
        stopped = λ r. absurd (cc (rw e at r));
        for_retired = rw e h.for_retired;
      }

  pub shuts_down-Holds :
      (q : WorkerPool)
      → ((s.pool.is_shutdown ≡ true) × (q ≡ s.pool))
        ⊎ ((s.pool.is_shutdown ≡ false)
            × (q ≡ record s.pool {
              is_shutdown = true;
              queue = s.pool.queue ++ sentinels s.pool.workers;
              workers = 0;
            }))
      → Holds m (record s { pool = q; retired = s.retired + (s.pool.workers - q.workers) })
  shuts_down-Holds q (inl (shut, e)) =
      let w : q.workers ≡ s.pool.workers = rw e refl in
      record {
        fair = record {
          in_order = rw e h.fair.in_order;
          sized = rw e h.fair.sized;
          bounded = omega (arith, w, h.fair.bounded);
          steady = λ r.
              let none_retired : s.retired ≡ 0 = omega arith in
              omega (arith, w, h.fair.steady none_retired);
        };
        same_max = rw e h.same_max;
        stopped = rw e h.stopped;
        for_retired =
            let k : stoppers q.queue ≡ stoppers s.pool.queue = rw e refl in
            omega (arith, k, h.for_retired);
      }
  shuts_down-Holds q (inr (up, e)) =
      let w : q.workers ≡ 0 = rw e refl in
      let queue : q.queue ≡ s.pool.queue ++ sentinels s.pool.workers = rw e refl in
      record {
        fair = record {
          in_order =
              rw (queue, waiting-append, waiting-sentinels)
                (rw (append-nil (waiting s.pool.queue)) h.fair.in_order);
          sized = inl w;
          bounded = omega (arith, w, h.fair.bounded);
          steady = λ r.
              let none_retired : s.retired ≡ 0 = omega arith in
              omega (arith, w, h.fair.steady none_retired);
        };
        same_max = rw e h.same_max;
        stopped = λ _. w;
        for_retired =
            let k : stoppers q.queue ≡ stoppers s.pool.queue + s.pool.workers = rw queue (
              stoppers-append s.pool.queue (sentinels s.pool.workers)
              ∙ ap (λ n. stoppers s.pool.queue + n) (stoppers-sentinels s.pool.workers)) in
            omega (arith, k, w, h.for_retired);
      }
