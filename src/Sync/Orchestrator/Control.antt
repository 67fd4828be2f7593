-- ===== src/Sync/Orchestrator/Control.antt =====
-- Pausing, resuming and cancelling a job, and what they do not reach: the object that the worker
-- runs is not the row.
use backend_business_intelli.Prelude.{
  ℕ, ◌≡◌, ◌≢◌, ◌⊎◌, true, Option, none, some, [], ◌∷◌, ◌==◌, arith, String, inl, inr, Bool-cases,
  if◌then◌else◌,
}
use backend_business_intelli.Prelude.Sort.{count_row-append}
use backend_business_intelli.Sync.Base.{
  SyncDomain, JobPriority, pending, running, completed, cancelled, ok, err, job_not_found,
  already_running, cannot_cancel, domain_eq_refl,
}
use backend_business_intelli.Sync.Window.{TimeWindow}
use backend_business_intelli.Sync.Job.{SyncJob, cancel, create}
use backend_business_intelli.Sync.Jobs.{
  JobTable, create_job, get_job, update_job_status, set_status, has_running_jobs, is_live_for,
}
use backend_business_intelli.Sync.Jobs.Rows.{map_row, get_job-update_job_status}
use backend_business_intelli.Sync.World.{World}
use backend_business_intelli.Sync.Dispatcher.{Services, execute_job}
use backend_business_intelli.Sync.Dispatcher.Outcome.{Settled, execute_job-Settled}
use backend_business_intelli.Sync.Orchestrator.{cancel_job, start_domain_sync, schedule_domain_sync}

-- How a cancellation may go, by the row of the job: it raises and changes nothing if there is no
-- row, or a completed or a cancelled one; else it sets that row to cancelled, and no other row.
abbrev pub CancelOutcome : ℕ → World → Option SyncJob → Type 0
CancelOutcome id w none = cancel_job id w ≡ (err job_not_found, w)
CancelOutcome id w (some row) =
    (((row.status ≡ completed) ⊎ (row.status ≡ cancelled))
      → cancel_job id w ≡ (err (cannot_cancel row.status), w))
    × (row.status ≢ completed
        → row.status ≢ cancelled
        → ((cancel_job id w).0 ≡ ok tt)
          × ((other : ℕ)
              → get_job other (cancel_job id w).1.jobs ≡ (
                  if id == other
                  then map_row (set_status w.clock cancelled []) (get_job other w.jobs)
                  else get_job other w.jobs)))

cancel_job_ok :
    (id : ℕ) (row : SyncJob) (w : World)
    → get_job id w.jobs ≡ some row
    → row.status ≢ completed
    → row.status ≢ cancelled
    → ((cancel_job id w).0 ≡ ok tt)
      × ((cancel_job id w).1.jobs ≡ update_job_status w.clock id cancelled [] w.jobs)
unfolding cancel_job cancel
cancel_job_ok id row w g h k = ground arith

-- A job that waits in the queue and is cancelled there runs all the same: the cancellation
-- succeeds, and when a worker then runs the job its row ends completed or failed.
pub cancel_does_not_stop :
    (s : Services) (encrypted : ℕ) (job row : SyncJob) (w : World)
    → job.status ≡ pending
    → get_job job.job_id w.jobs ≡ some row
    → row.status ≢ completed
    → row.status ≢ cancelled
    → ((cancel_job job.job_id w).0 ≡ ok tt)
      × Settled job (execute_job s encrypted job (cancel_job job.job_id w).1)
cancel_does_not_stop s encrypted job row w queued stored h k =
    let c = cancel_job_ok job.job_id row w stored h k in
    (
      c.0,
      execute_job-Settled s encrypted job (set_status w.clock cancelled [] row)
          (cancel_job job.job_id w).1 queued
          (rw (c.1) (
            ground (
              arith,
              get_job-update_job_status w.clock job.job_id job.job_id cancelled [] w.jobs,
            ))),
    )

has_running_jobs-create_job :
    (company provider : ℕ) (d : SyncDomain) (job : SyncJob) (rows : JobTable)
    → job.company_id ≡ company
    → job.provider ≡ provider
    → job.domain ≡ d
    → job.status ≡ pending
    → has_running_jobs company provider d (create_job job rows) ≡ true
unfolding has_running_jobs create_job
has_running_jobs-create_job company provider d job rows a b c e =
    rw count_row-append (ground (arith, domain_eq_refl d))

start_domain_sync-jobs :
    (company provider credentials : ℕ) (d : SyncDomain) (mode : String) (window : Option TimeWindow)
    (p : JobPriority) (w w' : World) (job : SyncJob)
    → start_domain_sync company provider credentials d mode window p w ≡ (ok job, w')
    → (job.company_id ≡ company)
      × (job.provider ≡ provider)
      × (job.domain ≡ d)
      × (job.status ≡ pending)
      × (w'.jobs ≡ create_job job w.jobs)
unfolding start_domain_sync create
start_domain_sync-jobs company provider credentials d mode window p w w' job h = ground arith

-- A row of the table that keeps a domain of a company and provider busy.
abbrev pub IsLive : (company provider : ℕ) → SyncDomain → SyncJob → Type 0
IsLive company provider d row =
    (row.company_id ≡ company)
    × (row.provider ≡ provider)
    × (row.domain ≡ d)
    × ((row.status ≡ pending) ⊎ (row.status ≡ running))

is_live_for-IsLive :
    (company provider : ℕ) (d : SyncDomain) (row : SyncJob)
    → IsLive company provider d row
    → is_live_for company provider d row ≡ true
is_live_for-IsLive company provider d row (a, b, c, e) =
    rw (a, b, c) (ground (arith, domain_eq_refl d))

has_running_jobs-live :
    (id company provider : ℕ) (d : SyncDomain) (row : SyncJob) (rows : JobTable)
    → get_job id rows ≡ some row
    → IsLive company provider d row
    → has_running_jobs company provider d rows ≡ true
unfolding has_running_jobs get_job
has_running_jobs-live id company provider d row [] g live = cc
has_running_jobs-live id company provider d row (j ∷ js) g live =
    elim (Bool-cases (j.job_id == id)) [
      | inl e ↦
          let found : some j ≡ some row = rw e at g in
          let same : j ≡ row = cc found in
          rw (same, is_live_for-IsLive company provider d row live) (ground arith)
      | inr e ↦ ground (arith, has_running_jobs-live id company provider d row js (rw e at g) live)
    ]

schedule_domain_sync_busy :
    (id company provider credentials : ℕ) (d : SyncDomain) (mode : String)
    (window : Option TimeWindow) (p : JobPriority) (w : World) (row : SyncJob)
    → get_job id w.jobs ≡ some row
    → IsLive company provider d row
    → schedule_domain_sync company provider credentials d mode window p w
      ≡ (err (already_running d), w)
unfolding schedule_domain_sync
schedule_domain_sync_busy id company provider credentials d mode window p w row g live =
    rw (has_running_jobs-live id company provider d row w.jobs g live)

-- When a domain sync has been scheduled, a second one for the same company, provider and domain is
-- refused and changes nothing, in the state that the first one left, and in any later state in
-- which the job's row still has that company, provider and domain and is pending or running.
pub schedule_domain_sync_twice :
    (company provider credentials : ℕ) (d : SyncDomain) (mode mode' : String)
    (window window' : Option TimeWindow) (p p' : JobPriority) (w w' : World) (job : SyncJob)
    → schedule_domain_sync company provider credentials d mode window p w ≡ (ok job, w')
    → (schedule_domain_sync company provider credentials d mode' window' p' w'
        ≡ (err (already_running d), w'))
      × ((later : World) (row : SyncJob)
          → get_job job.job_id later.jobs ≡ some row
          → IsLive company provider d row
          → schedule_domain_sync company provider credentials d mode' window' p' later
            ≡ (err (already_running d), later))
unfolding schedule_domain_sync
schedule_domain_sync_twice company provider credentials d mode mode' window window' p p' w w' job
      h =
    (
      elim (Bool-cases (has_running_jobs company provider d w.jobs)) [
        | inl e ↦ absurd (cc (rw e at h))
        | inr e ↦
            let s =
              start_domain_sync-jobs company provider credentials d mode window p w w' job
                (rw e at h) in
            let live : has_running_jobs company provider d w'.jobs ≡ true =
              rw (s.4)
                (has_running_jobs-create_job company provider d job w.jobs s.0 s.1 s.2 s.3) in
            rw live
      ],
      λ later row g live.
          schedule_domain_sync_busy job.job_id company provider credentials d mode' window' p' later
            row g live,
    )
