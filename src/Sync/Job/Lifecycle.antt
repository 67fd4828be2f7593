-- ===== src/Sync/Job/Lifecycle.antt =====
-- The life of a job: which method takes which status to which, and what follows for any sequence
-- of calls.
use backend_business_intelli.Prelude.{
  ℕ, ◌≤◌, ◌≡◌, refl, ◌≢◌, ◌⊎◌, true, Option, none, List, [], ◌∷◌, ◌∙◌, arith, String,
}
use backend_business_intelli.Sync.Base.{
  JobStatus, pending, running, paused, completed, failed, cancelled, Result, ok, err, Error,
  cannot_start, cannot_complete, cannot_fail, cannot_pause, cannot_resume, cannot_cancel,
  SyncDomain, JobPriority,
}
use backend_business_intelli.Sync.Window.{TimeWindow}
use backend_business_intelli.Sync.Job.{
  SyncJob, create, can_retry, start, complete, fail, pause, resume, cancel,
}

-- A call of one of the methods, with its arguments.
pub data Call : Type 0 where
  start_call pause_call resume_call cancel_call : ℕ → Call
  complete_call : (now read imported failed pages : ℕ) → Call
  fail_call : (now : ℕ) → Error → Call

unfoldable pub perform : Call → SyncJob → Result SyncJob
perform (start_call now) job = start now job
perform (pause_call now) job = pause now job
perform (resume_call now) job = resume now job
perform (cancel_call now) job = cancel now job
perform (complete_call now r i f p) job = complete now r i f p job
perform (fail_call now message) job = fail now message job

-- The edges between the statuses: where a job may go from each one.
infix 40 ◌⟶◌
pub data ◌⟶◌ : JobStatus → JobStatus → Type 0 where
  starts : pending ⟶ running
  completes : running ⟶ completed
  fails_early : pending ⟶ failed
  fails : running ⟶ failed
  pauses : running ⟶ paused
  resumes : paused ⟶ pending
  cancels : {s : JobStatus} → s ≢ completed → s ≢ cancelled → s ⟶ cancelled

ruleset edges = (starts, completes, fails_early, fails, pauses, resumes, cancels)

-- A call that does not raise follows an edge between statuses.
pub perform-⟶ : (c : Call) (job job' : SyncJob) → perform c job ≡ ok job' → job.status ⟶ job'.status
unfolding perform start complete fail pause resume cancel
perform-⟶ (start_call now) job job' h = grind (arith, edges)
perform-⟶ c job job' h = grind (arith, edges)

-- Python's statements after an exception that is caught: the job stays as it was.
abbrev pub apply : Call → SyncJob → SyncJob
apply c job = elim (perform c job) [ ok job' ↦ job' | err e ↦ job ]

abbrev pub apply_all : List Call → SyncJob → SyncJob
apply_all [] job = job
apply_all (c ∷ cs) job = apply_all cs (apply c job)

-- What holds of a job between two calls.
pub record IsConsistent (job : SyncJob) : Type 0 where
  pub completed_timed : job.status ≡ completed → (job.completed_at ≢ none) × (job.started_at ≢ none)
  pub not_completed : job.status ≢ completed → job.completed_at ≡ none
  pub failed_timed : job.status ≡ failed → (job.failed_at ≢ none) × (job.error_message ≢ none)
  pub failed_once : job.retry_count ≤ 1
  pub never_failed : (job.status ≢ failed) → (job.status ≢ cancelled) → job.retry_count ≡ 0
  pub in_progress : (job.status ≡ running) ⊎ (job.status ≡ paused) → job.started_at ≢ none
  pub unfinished :
      job.status ≢ completed
      → (job.records_read ≡ 0)
        × (job.records_imported ≡ 0)
        × (job.records_failed ≡ 0)
        × (job.pages_processed ≡ 0)

perform-IsConsistent :
    (c : Call) (job job' : SyncJob) → IsConsistent job → perform c job ≡ ok job' → IsConsistent job'
unfolding perform start complete fail pause resume cancel
perform-IsConsistent (start_call now) job job' v h = ground arith
perform-IsConsistent c job job' v h = ground arith

apply-IsConsistent : (c : Call) (job : SyncJob) → IsConsistent job → IsConsistent (apply c job)
apply-IsConsistent c job v = go (perform c job) (λ job' e. perform-IsConsistent c job job' v e)
  where
    go :
        (r : Result SyncJob)
        → ((job' : SyncJob) → r ≡ ok job' → IsConsistent job')
        → IsConsistent (elim r [ ok job' ↦ job' | err e ↦ job ])
    go (ok job') f = f job' refl
    go (err e) f = v

apply_all-IsConsistent :
    (cs : List Call) (job : SyncJob) → IsConsistent job → IsConsistent (apply_all cs job)
apply_all-IsConsistent [] job v = v
apply_all-IsConsistent (c ∷ cs) job v =
    apply_all-IsConsistent cs (apply c job) (apply-IsConsistent c job v)

create-IsConsistent :
    (id now company provider : ℕ) (d : SyncDomain) (p : JobPriority) (w : Option TimeWindow)
    (mode : String) (checkpoint : Option ℕ)
    → IsConsistent (create id now company provider d p w mode checkpoint)
unfolding create
create-IsConsistent id now company provider d p w mode checkpoint = ground arith

abbrev pub IsTerminal : SyncJob → Type 0
IsTerminal job = (job.status ≡ completed) ⊎ (job.status ≡ cancelled)

-- What each call raises in a status that it refuses.
abbrev pub refusal : Call → JobStatus → Error
refusal (start_call now) s = cannot_start s
refusal (pause_call now) s = cannot_pause s
refusal (resume_call now) s = cannot_resume s
refusal (cancel_call now) s = cannot_cancel s
refusal (complete_call now r i f p) s = cannot_complete s
refusal (fail_call now message) s = cannot_fail s

perform-refusal :
    (c : Call) (job : SyncJob) → IsTerminal job → perform c job ≡ err (refusal c job.status)
unfolding perform start complete fail pause resume cancel
perform-refusal (start_call now) job e = ground arith
perform-refusal c job e = ground arith

terminal_step : (c : Call) (job : SyncJob) → IsTerminal job → apply c job ≡ job
terminal_step c job e = rw (apply, perform-refusal c job e) refl

terminal_all : (cs : List Call) (job : SyncJob) → IsTerminal job → apply_all cs job ≡ job
terminal_all [] job e = refl
terminal_all (c ∷ cs) job e = rw (terminal_step c job e) (terminal_all cs job e)

-- On a completed or cancelled job every call raises, with the error of its method and the job's
-- status; and after any calls the job is as it was.
pub terminal_absorbs :
    (cs : List Call) (job : SyncJob)
    → IsTerminal job
    → ((c : Call) → perform c job ≡ err (refusal c job.status)) × (apply_all cs job ≡ job)
terminal_absorbs cs job e = (λ c. perform-refusal c job e, terminal_all cs job e)

max_retries_kept :
    (c : Call) (job job' : SyncJob) → perform c job ≡ ok job' → job'.max_retries ≡ job.max_retries
unfolding perform start complete fail pause resume cancel
max_retries_kept (start_call now) job job' h = ground arith
max_retries_kept c job job' h = ground arith

apply-max_retries : (c : Call) (job : SyncJob) → (apply c job).max_retries ≡ job.max_retries
apply-max_retries c job = go (perform c job) (λ job' e. max_retries_kept c job job' e)
  where
    go :
        (r : Result SyncJob)
        → ((job' : SyncJob) → r ≡ ok job' → job'.max_retries ≡ job.max_retries)
        → (elim r as (λ x. SyncJob) [ ok job' ↦ job' | err e ↦ job ]).max_retries ≡ job.max_retries
    go (ok job') f = f job' refl
    go (err e) f = refl

apply_all-max_retries :
    (cs : List Call) (job : SyncJob) → (apply_all cs job).max_retries ≡ job.max_retries
apply_all-max_retries [] job = refl
apply_all-max_retries (c ∷ cs) job =
    apply_all-max_retries cs (apply c job) ∙ apply-max_retries c job

module _ (cs : List Call) (id now company provider : ℕ) (d : SyncDomain) (p : JobPriority)
    (w : Option TimeWindow) (mode : String) (checkpoint : Option ℕ) where
  -- After any calls on a fresh job: it has a completion time exactly if it is completed, and then a
  -- start time; a failed job has its time and message; a running or paused one has a start time; it
  -- has failed once at most, and not at all unless it is failed or cancelled; and unless it is
  -- completed its four counts (records read, imported and failed, pages) are zero.
  pub history-IsConsistent :
      IsConsistent (apply_all cs (create id now company provider d p w mode checkpoint))
  history-IsConsistent =
      apply_all-IsConsistent cs (create id now company provider d p w mode checkpoint)
        (create-IsConsistent id now company provider d p w mode checkpoint)

  -- However its methods are called, a fresh job fails at most once, so `can_retry` never refuses.
  pub can_retry_always :
      can_retry (apply_all cs (create id now company provider d p w mode checkpoint)) ≡ true
  unfolding can_retry create
  can_retry_always = ground (
    arith,
    history-IsConsistent.failed_once,
    apply_all-max_retries cs (create id now company provider d p w mode checkpoint),
  )
