-- ===== src/Sync/Orchestrator/Schedule.antt =====
-- What a full sync of a domain puts into the table, the batch and the queue.
use backend_business_intelli.Prelude.{
  ℕ, suc, ◌+◌, ◌≡◌, false, Option, some, List, [], ◌∷◌, ◌++◌, ◌∙◌, arith, length,
}
use mathlib.Core.List.{append_assoc, append-nil}
use native.Mathlib.Nat.{add-zero, add-suc, suc-add}
use native.Mathlib.Numerals.{add-one}
use backend_business_intelli.Sync.Base.{SyncDomain, JobPriority, ok}
use backend_business_intelli.Sync.Window.{TimeWindow}
use backend_business_intelli.Sync.Job.{SyncJob, create}
use backend_business_intelli.Sync.Jobs.{SyncBatch, create_job, add_job}
use backend_business_intelli.Sync.World.{World, Task}
use backend_business_intelli.Sync.Orchestrator.{enqueue, make_job, full_windows}

module _ (company provider credentials : ℕ) (d : SyncDomain) (p : JobPriority) (checkpoint : ℕ)
    (now : ℕ) where
  -- One pending job for each window, in order, with consecutive numbers from `id` on.
  unfoldable pub planned_jobs : ℕ → List TimeWindow → List SyncJob
  planned_jobs id [] = []
  planned_jobs id (w ∷ ws) =
      create id now company provider d p (some w) "full" (some checkpoint)
      ∷ planned_jobs (suc id) ws

abbrev pub tasks : ℕ → List SyncJob → List (Option Task)
tasks credentials [] = []
tasks credentials (j ∷ js) =
    some (record { job = j; credentials = credentials }) ∷ tasks credentials js

-- The world with the jobs stored, numbered and submitted.
abbrev pub with_jobs : ℕ → List SyncJob → World → World
with_jobs credentials js w = record w {
  jobs = w.jobs ++ js;
  pool = record (w.pool) { queue = w.pool.queue ++ tasks credentials js };
  next_id = w.next_id + length js;
}

abbrev pub with_batch : List SyncJob → SyncBatch → SyncBatch
with_batch js b = record b { jobs = b.jobs ++ js }

module _ (company provider credentials : ℕ) (d : SyncDomain) (p : JobPriority) (checkpoint : ℕ)
    (x : TimeWindow) (b : SyncBatch) (w : World) (up : w.pool.is_shutdown ≡ false)
    (same_company : b.company_id ≡ company) (same_provider : b.provider ≡ provider) where
  abbrev planned : SyncJob
  planned = create w.next_id w.clock company provider d p (some x) "full" (some checkpoint)

  abbrev numbered : World
  numbered = record w { next_id = suc w.next_id }

  enqueue-planned :
      enqueue credentials planned b numbered
      ≡ (ok (with_batch (planned ∷ []) b), with_jobs credentials (planned ∷ []) w)
  unfolding enqueue create create_job add_job
  enqueue-planned = ground arith

  full_windows-cons :
      (ws : List TimeWindow)
      → full_windows company provider credentials d p checkpoint (x ∷ ws) b w
        ≡ full_windows company provider credentials d p checkpoint ws
            (with_batch (planned ∷ []) b)
            (with_jobs credentials (planned ∷ []) w)
  unfolding full_windows make_job
  full_windows-cons ws = ground (arith, enqueue-planned)

-- With the pool open and a batch of the same company and provider, the loop over the windows
-- succeeds, and stores, adds to the batch and submits one pending job for each window, in order.
pub full_windows-planned_jobs :
    (company provider credentials : ℕ) (d : SyncDomain) (p : JobPriority) (checkpoint : ℕ)
    (ws : List TimeWindow) (b : SyncBatch) (w : World)
    → w.pool.is_shutdown ≡ false
    → b.company_id ≡ company
    → b.provider ≡ provider
    → let js = planned_jobs company provider credentials d p checkpoint w.clock w.next_id ws in
      full_windows company provider credentials d p checkpoint ws b w
      ≡ (ok (with_batch js b), with_jobs credentials js w)
unfolding full_windows planned_jobs
full_windows-planned_jobs company provider credentials d p checkpoint [] b w up c q =
    simp (append-nil, add-zero)
full_windows-planned_jobs company provider credentials d p checkpoint (x ∷ ws) b w up c q =
    rw (full_windows-cons company provider credentials d p checkpoint x b w up c q ws) (
      full_windows-planned_jobs company provider credentials d p checkpoint ws
        (with_batch (planned company provider credentials d p checkpoint x b w up c q ∷ []) b)
        (with_jobs credentials
          (planned company provider credentials d p checkpoint x b w up c q ∷ []) w)
        up c q
      ∙ simp (append_assoc, add-one, add-suc, suc-add))
