-- ===== src/Sync/Orchestrator.antt =====
-- synchronization/application/orchestrator.py. The text logging is left out. The configuration
-- dictionaries are functions: `none` where the key is missing. `today` is `date.today()`.
pub mod Schedule
pub mod Control
use backend_business_intelli.Prelude.{
  ℕ, suc, ◌+◌, Bool, true, false, Option, none, some, List, [], ◌∷◌, ◌++◌, String, if◌then◌else◌,
}
use backend_business_intelli.Prelude.Int.{ℤ, pos}
use backend_business_intelli.Calendar.{Date}
use backend_business_intelli.Sync.Base.{
  SyncDomain, JobPriority, normal, JobStatus, pending, running, paused, cancelled, Error, Result,
  ok, err, job_not_found, already_running, or_raise,
}
use backend_business_intelli.Sync.Window.{TimeWindow, calculate_windows_for_domain}
use backend_business_intelli.Sync.Job.{SyncJob, create, pause, resume, cancel}
use backend_business_intelli.Sync.Runtime.{register_checkpoint_created, register_job_cancelled}
use backend_business_intelli.Sync.Checkpoint.{
  SyncCheckpoint, new_checkpoint, find_active_checkpoint,
}
use backend_business_intelli.Sync.Jobs.{
  SyncBatch, create_batch, add_job, create_job, get_job, update_job_status, list_jobs,
  has_running_jobs,
}
use backend_business_intelli.Sync.World.{
  World, Task, Action, ◌>>=◌, ◌>>◌, pure, raise, gets, lift, on_jobs, on_checkpoints, on_runtime,
  fresh,
}
use backend_business_intelli.Sync.Pool.{submit}

-- `_submit_job_to_worker_pool`
unfoldable pub submit_job : ℕ → SyncJob → Action (Unit {0})
unfolding submit
submit_job credentials job w =
    elim (submit (record { job = job; credentials = credentials }) w.pool) [
      | err e ↦ (err e, w)
      | ok p ↦ (ok tt, record w { pool = p })
    ]

-- `create_checkpoint` of the repository, and its registration.
unfoldable pub make_checkpoint :
    (company_id provider : ℕ) → SyncDomain → Option Date → Option Date → Action SyncCheckpoint
make_checkpoint company_id provider domain window_start window_end = do
  id ← fresh
  now ← gets (λ w. w.clock)
  let c = new_checkpoint id now company_id provider domain window_start window_end
  on_checkpoints (λ cs. cs ++ c ∷ [])
  on_runtime (register_checkpoint_created domain)
  pure c

abbrev or_make : Option SyncCheckpoint → Action SyncCheckpoint → Action SyncCheckpoint
or_make none m = m
or_make (some c) m = pure c

abbrev window_start : Option TimeWindow → Option Date
window_start none = none
window_start (some w) = some w.start_date

abbrev window_end : Option TimeWindow → Option Date
window_end none = none
window_end (some w) = some w.end_date

unfoldable pub find_or_make_checkpoint :
    (company_id provider : ℕ) → SyncDomain → Option TimeWindow → Action SyncCheckpoint
unfolding make_checkpoint
find_or_make_checkpoint company_id provider domain window = do
  found ← gets (λ w. find_active_checkpoint company_id provider domain w.checkpoints)
  or_make found
      (make_checkpoint company_id provider domain (window_start window) (window_end window))

-- `SyncJob.create`, with the fresh number and the time.
unfoldable pub make_job :
    (company_id provider : ℕ)
    → SyncDomain
    → JobPriority
    → Option TimeWindow
    → String
    → ℕ
    → Action SyncJob
make_job company_id provider domain priority window mode checkpoint_id = do
  id ← fresh
  now ← gets (λ w. w.clock)
  pure (create id now company_id provider domain priority window mode (some checkpoint_id))

-- A job of a batch: stored, added and submitted.
unfoldable pub enqueue : ℕ → SyncJob → SyncBatch → Action SyncBatch
unfolding submit_job
enqueue credentials job batch = do
  on_jobs (create_job job)
  batch' ← lift (add_job job batch)
  submit_job credentials job
  pure batch'

-- The loop over the windows of a domain in `schedule_full_sync`.
unfoldable pub full_windows :
    (company_id provider credentials : ℕ)
    → SyncDomain
    → JobPriority
    → (checkpoint_id : ℕ) → List TimeWindow
    → SyncBatch
    → Action SyncBatch
full_windows company_id provider credentials domain priority checkpoint_id [] batch = pure batch
full_windows company_id provider credentials domain priority checkpoint_id (window ∷ rest) batch =
    make_job company_id provider domain priority (some window) "full" checkpoint_id >>= λ job.
    enqueue credentials job batch >>= λ batch'.
    full_windows company_id provider credentials domain priority checkpoint_id rest batch'

abbrev get_or {ℓ} : {A : Type ℓ} → A → Option A → A
get_or d none = d
get_or d (some a) = a

-- The loop over the domains in `schedule_full_sync`.
unfoldable pub full_domains :
    (company_id provider credentials : ℕ)
    → Date
    → (SyncDomain → Option ℤ)
    → (SyncDomain → Option JobPriority)
    → List SyncDomain
    → SyncBatch
    → Action SyncBatch
unfolding full_windows make_checkpoint
full_domains company_id provider credentials today window_config priority_config [] batch =
    pure batch
full_domains company_id provider credentials today window_config priority_config (d ∷ ds) batch =
    make_checkpoint company_id provider d none none >>= λ checkpoint.
    lift (calculate_windows_for_domain today (get_or (pos 30) (window_config d)) none none)
    >>= λ windows.
        full_windows company_id provider credentials d (get_or normal (priority_config d))
          checkpoint.checkpoint_id windows batch
        >>= λ batch'.
            full_domains company_id provider credentials today window_config priority_config ds
              batch'

unfoldable pub schedule_full_sync :
    (company_id provider credentials : ℕ)
    → Date
    → List SyncDomain
    → (SyncDomain → Option ℤ)
    → (SyncDomain → Option JobPriority)
    → Action SyncBatch
unfolding full_domains
schedule_full_sync company_id provider credentials today domains window_config priority_config = do
  id ← fresh
  now ← gets (λ w. w.clock)
  full_domains company_id provider credentials today window_config priority_config domains
      (create_batch id now company_id provider)

-- The loop of `schedule_incremental_sync`.
unfoldable pub incremental_domains :
    (company_id provider credentials : ℕ)
    → (SyncDomain → Option JobPriority)
    → List SyncDomain
    → SyncBatch
    → Action SyncBatch
unfolding find_or_make_checkpoint make_job enqueue
incremental_domains company_id provider credentials priority_config [] batch = pure batch
incremental_domains company_id provider credentials priority_config (d ∷ ds) batch =
    find_or_make_checkpoint company_id provider d none >>= λ checkpoint.
    make_job company_id provider d (get_or normal (priority_config d)) none "incremental"
      checkpoint.checkpoint_id
    >>= λ job. enqueue credentials job batch >>= λ batch'.
        incremental_domains company_id provider credentials priority_config ds batch'

unfoldable pub schedule_incremental_sync :
    (company_id provider credentials : ℕ)
    → List SyncDomain
    → (SyncDomain → Option JobPriority)
    → Action SyncBatch
unfolding incremental_domains
schedule_incremental_sync company_id provider credentials domains priority_config = do
  id ← fresh
  now ← gets (λ w. w.clock)
  incremental_domains company_id provider credentials priority_config domains
      (create_batch id now company_id provider)

-- What `schedule_domain_sync` does once no job of the domain is running.
unfoldable pub start_domain_sync :
    (company_id provider credentials : ℕ)
    → SyncDomain
    → String
    → Option TimeWindow
    → JobPriority
    → Action SyncJob
unfolding find_or_make_checkpoint make_job submit_job
start_domain_sync company_id provider credentials domain mode window priority = do
  checkpoint ← find_or_make_checkpoint company_id provider domain window
  job ← make_job company_id provider domain priority window mode checkpoint.checkpoint_id
  on_jobs (create_job job)
  submit_job credentials job
  pure job

unfoldable pub schedule_domain_sync :
    (company_id provider credentials : ℕ)
    → SyncDomain
    → String
    → Option TimeWindow
    → JobPriority
    → Action SyncJob
unfolding start_domain_sync
schedule_domain_sync company_id provider credentials domain mode window priority w =
    if has_running_jobs company_id provider domain w.jobs
    then (err (already_running domain), w)
    else start_domain_sync company_id provider credentials domain mode window priority w

-- The job as the repository has it, or the error.
abbrev load_job : ℕ → Action SyncJob
load_job id w = (or_raise (get_job id w.jobs) job_not_found, w)

unfoldable pub pause_job : ℕ → Action (Unit {0})
pause_job id = do
  job ← load_job id
  now ← gets (λ w. w.clock)
  _ ← lift (pause now job)
  on_jobs (update_job_status now id paused [])

unfoldable pub resume_job : ℕ → ℕ → Action (Unit {0})
unfolding submit_job
resume_job id credentials = do
  job ← load_job id
  now ← gets (λ w. w.clock)
  job' ← lift (resume now job)
  on_jobs (update_job_status now id pending [])
  submit_job credentials job'

unfoldable pub cancel_job : ℕ → Action (Unit {0})
cancel_job id = do
  job ← load_job id
  now ← gets (λ w. w.clock)
  _ ← lift (cancel now job)
  on_jobs (update_job_status now id cancelled [])
  on_runtime (register_job_cancelled id job.domain)

-- `list_active_jobs`, before the rows are turned into dictionaries.
unfoldable pub list_active_jobs : Option ℕ → World → List SyncJob
list_active_jobs company_id w =
    list_jobs company_id none (some running) 100 w.jobs
    ++ list_jobs company_id none (some pending) 100 w.jobs
