-- ===== src/Sync/Pool/Moves.antt =====
-- The queue's tasks and sentinels, and what each method makes of the pool.
use backend_business_intelli.Prelude.{
  ℕ, zero, suc, ◌+◌, ◌<◌, ◌⊎◌, ◌≡◌, ◌∙◌, ltb, refl, ap, true, false, Option, none, some, List, [],
  ◌∷◌, ◌++◌, arith, inl, inr, Bool-cases,
}
use backend_business_intelli.Sync.Base.{ok}
use backend_business_intelli.Sync.World.{Task, WorkerPool}
use backend_business_intelli.Sync.Pool.{
  submit, shutdown, sentinels, take_task, start_workers, spawn,
}

-- The tasks of a queue, without the sentinels.
abbrev pub waiting : List (Option Task) → List Task
waiting [] = []
waiting (none ∷ q) = waiting q
waiting (some t ∷ q) = t ∷ waiting q

pub waiting-append : (q r : List (Option Task)) → waiting (q ++ r) ≡ waiting q ++ waiting r
waiting-append [] r = refl
waiting-append (none ∷ q) r = waiting-append q r
waiting-append (some t ∷ q) r = ap (λ x. t ∷ x) (waiting-append q r)

pub waiting-sentinels : (n : ℕ) → waiting (sentinels n) ≡ []
waiting-sentinels zero = refl
waiting-sentinels (suc n) = waiting-sentinels n

-- The sentinels of a queue.
abbrev pub stoppers : List (Option Task) → ℕ
stoppers [] = 0
stoppers (none ∷ q) = suc (stoppers q)
stoppers (some t ∷ q) = stoppers q

pub stoppers-append : (q r : List (Option Task)) → stoppers (q ++ r) ≡ stoppers q + stoppers r
stoppers-append [] r = omega arith
stoppers-append (none ∷ q) r = omega (arith, stoppers-append q r)
stoppers-append (some t ∷ q) r = stoppers-append q r

pub stoppers-sentinels : (n : ℕ) → stoppers (sentinels n) ≡ n
stoppers-sentinels zero = refl
stoppers-sentinels (suc n) = ap suc (stoppers-sentinels n)

pub spawn_lem : (n : ℕ) (p : WorkerPool) → spawn n p ≡ record p { workers = p.workers + n }
unfolding spawn
spawn_lem zero p = let same : p.workers + 0 ≡ p.workers = omega arith in rw same refl
spawn_lem (suc n) p =
    let same : p.workers + 1 + n ≡ p.workers + suc n = omega arith in
    spawn_lem n (record p { workers = p.workers + 1 }) ∙ rw same refl

-- A pool with threads stays as it is; one without gets all of them.
pub start_workers_lem :
    (p : WorkerPool)
    → ((0 < p.workers) × (start_workers p ≡ p))
      ⊎ ((p.workers ≡ 0)
          × (start_workers p ≡ record p { workers = p.max_workers; is_shutdown = false }))
unfolding start_workers
start_workers_lem p = elim (Bool-cases (ltb 0 p.workers)) [
  | inl e ↦ inl (ground arith, rw e refl)
  | inr e ↦
      let none_yet : p.workers ≡ 0 = ground arith in
      let all : p.workers + p.max_workers ≡ p.max_workers = omega arith in
      inr
        (none_yet, rw e (spawn_lem p.max_workers (record p { is_shutdown = false }) ∙ rw all refl))
]

pub shutdown_lem :
    (p : WorkerPool)
    → ((p.is_shutdown ≡ true) × (shutdown p ≡ p))
      ⊎ ((p.is_shutdown ≡ false)
          × (shutdown p ≡ record p {
            is_shutdown = true;
            queue = p.queue ++ sentinels p.workers;
            workers = 0;
          }))
unfolding shutdown
shutdown_lem p = elim (Bool-cases p.is_shutdown) [
  | inl e ↦ inl (e, rw e refl)
  | inr e ↦ inr (e, rw e refl)
]

pub submit_lem :
    (t : Task) (p q : WorkerPool)
    → submit t p ≡ ok q
    → q ≡ record p { queue = p.queue ++ some t ∷ [] }
unfolding submit
submit_lem t p q h = ground arith

pub take_task_lem :
    (p q : WorkerPool) (t : Option Task)
    → take_task p ≡ some (t, q)
    → (p.queue ≡ t ∷ q.queue) × (q ≡ record p { queue = q.queue })
unfolding take_task
take_task_lem p q t h = ground arith
