-- ===== src/Sync/Job.antt =====
-- class SyncJob of synchronization/domain/entities.py. A method that mutates the job returns the
-- new one; one that raises does so before it writes. `now` is the reading of `datetime.utcnow()`
-- (one per call). Identifiers are only compared, so they are numbers; times are seconds. The
-- dictionary `metadata`, which no method reads or writes, is left out.
pub mod Lifecycle
use backend_business_intelli.Prelude.{
  ℕ, ◌+◌, Bool, true, false, not, ◌||◌, Option, none, some, String, ltb, if◌then◌else◌,
}
use backend_business_intelli.Prelude.Int.{ℤ, sub_ℕ}
use backend_business_intelli.Sync.Base.{
  JobStatus, pending, running, paused, completed, failed, cancelled, JobPriority, SyncDomain, Error,
  Result, ok, err, cannot_start, cannot_complete, cannot_fail, cannot_pause, cannot_resume,
  cannot_cancel, status_eq,
}
use backend_business_intelli.Sync.Window.{TimeWindow}

pub record SyncJob : Type 0 where
  pub job_id : ℕ
  pub company_id : ℕ
  pub provider : ℕ
  pub domain : SyncDomain
  pub priority : JobPriority
  pub status : JobStatus
  pub window : Option TimeWindow
  pub checkpoint_id : Option ℕ
  pub mode : String
  pub retry_count : ℕ
  pub max_retries : ℕ
  pub records_read : ℕ
  pub records_imported : ℕ
  pub records_failed : ℕ
  pub pages_processed : ℕ
  pub started_at : Option ℕ
  pub completed_at : Option ℕ
  pub failed_at : Option ℕ
  pub error_message : Option Error
  pub created_at : ℕ
  pub updated_at : ℕ

-- `SyncJob.create`; `id` is the fresh `uuid4()`.
unfoldable pub create :
    (id now company_id provider : ℕ)
    → SyncDomain
    → JobPriority
    → Option TimeWindow
    → String
    → Option ℕ
    → SyncJob
create id now company_id provider domain priority window mode checkpoint_id = record {
  job_id = id;
  company_id = company_id;
  provider = provider;
  domain = domain;
  priority = priority;
  status = pending;
  window = window;
  checkpoint_id = checkpoint_id;
  mode = mode;
  retry_count = 0;
  max_retries = 3;
  records_read = 0;
  records_imported = 0;
  records_failed = 0;
  pages_processed = 0;
  started_at = none;
  completed_at = none;
  failed_at = none;
  error_message = none;
  created_at = now;
  updated_at = now;
}

unfoldable pub start : ℕ → SyncJob → Result SyncJob
start now job =
    if not (status_eq job.status pending)
    then err (cannot_start job.status)
    else ok (record job { status = running; started_at = some now; updated_at = now })

unfoldable pub complete :
    ℕ
    → (records_read records_imported records_failed pages_processed : ℕ) → SyncJob
    → Result SyncJob
complete now records_read records_imported records_failed pages_processed job =
    if not (status_eq job.status running)
    then err (cannot_complete job.status)
    else ok (record job {
      status = completed;
      completed_at = some now;
      updated_at = now;
      records_read = records_read;
      records_imported = records_imported;
      records_failed = records_failed;
      pages_processed = pages_processed;
    })

-- The message is `str(exc)`: the error itself stands for its text.
unfoldable pub fail : ℕ → Error → SyncJob → Result SyncJob
fail now message job =
    if not (status_eq job.status running || status_eq job.status pending)
    then err (cannot_fail job.status)
    else ok (record job {
      status = failed;
      failed_at = some now;
      updated_at = now;
      error_message = some message;
      retry_count = job.retry_count + 1;
    })

unfoldable pub pause : ℕ → SyncJob → Result SyncJob
pause now job =
    if not (status_eq job.status running)
    then err (cannot_pause job.status)
    else ok (record job { status = paused; updated_at = now })

unfoldable pub resume : ℕ → SyncJob → Result SyncJob
resume now job =
    if not (status_eq job.status paused)
    then err (cannot_resume job.status)
    else ok (record job { status = pending; updated_at = now })

unfoldable pub cancel : ℕ → SyncJob → Result SyncJob
cancel now job =
    if status_eq job.status completed || status_eq job.status cancelled
    then err (cannot_cancel job.status)
    else ok (record job { status = cancelled; updated_at = now })

unfoldable pub can_retry : SyncJob → Bool
can_retry job = ltb job.retry_count job.max_retries

-- `a or b`, of two times that may be missing
abbrev or_else : Option ℕ → ℕ → ℕ
or_else none b = b
or_else (some a) b = a

abbrev first_of : Option ℕ → Option ℕ → ℕ → ℕ
first_of none o now = or_else o now
first_of (some a) o now = a

abbrev elapsed : Option ℕ → ℕ → Option ℤ
elapsed none end = none
elapsed (some began) end = some (sub_ℕ end began)

unfoldable pub duration_seconds : ℕ → SyncJob → Option ℤ
duration_seconds now job = elapsed job.started_at (first_of job.completed_at job.failed_at now)
