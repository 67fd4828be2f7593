-- ===== src/Sync/Jobs.antt =====
-- JobRepository of synchronization/infrastructure/repositories.py over the table `sync_jobs`, a
-- list of rows in order of insertion, and class SyncBatch of synchronization/domain/entities.py.
-- A row is read back as a `SyncJob`. Every row that the code writes has both window dates or none.
pub mod Rows
use backend_business_intelli.Prelude.{
  ℕ, ◌+◌, Bool, true, false, not, ◌&&◌, ◌||◌, Option, none, some, List, [], ◌∷◌, ◌++◌, ltb, ◌==◌,
  if◌then◌else◌, length,
}
use backend_business_intelli.Prelude.Sort.{order_by, where_row, count_row, limit_to}
use backend_business_intelli.Sync.Base.{
  SyncDomain, JobPriority, critical, high, normal, low, JobStatus, pending, running, completed,
  failed, domain_eq, status_eq, Error, Result, ok, err, company_mismatch, provider_mismatch,
}
use backend_business_intelli.Sync.Job.{SyncJob}

abbrev pub JobTable : Type 0
JobTable = List SyncJob

-- `INSERT INTO sync_jobs`: the columns that the statement does not name are NULL, which
-- `_row_to_job` reads as no time, no message or a count of zero.
unfoldable pub create_job : SyncJob → JobTable → JobTable
create_job job rows =
    rows
    ++ record job {
      records_read = 0;
      records_imported = 0;
      records_failed = 0;
      pages_processed = 0;
      started_at = none;
      completed_at = none;
      failed_at = none;
      error_message = none;
    }
      ∷ []

unfoldable pub get_job : ℕ → JobTable → Option SyncJob
get_job id [] = none
get_job id (j ∷ js) = if j.job_id == id then some j else get_job id js

-- The optional columns of `update_job_status`.
pub data Change : Type 0 where
  started_at completed_at failed_at : Option ℕ → Change
  error_message : Option Error → Change
  retry_count records_read records_imported records_failed pages_processed : ℕ → Change

abbrev pub set_column : Change → SyncJob → SyncJob
set_column (started_at t) j = record j { started_at = t }
set_column (completed_at t) j = record j { completed_at = t }
set_column (failed_at t) j = record j { failed_at = t }
set_column (error_message m) j = record j { error_message = m }
set_column (retry_count n) j = record j { retry_count = n }
set_column (records_read n) j = record j { records_read = n }
set_column (records_imported n) j = record j { records_imported = n }
set_column (records_failed n) j = record j { records_failed = n }
set_column (pages_processed n) j = record j { pages_processed = n }

abbrev pub set_columns : List Change → SyncJob → SyncJob
set_columns [] j = j
set_columns (c ∷ cs) j = set_columns cs (set_column c j)

abbrev pub set_status : ℕ → JobStatus → List Change → SyncJob → SyncJob
set_status now status changes j =
    set_columns changes (record j { status = status; updated_at = now })

unfoldable pub update_job_status : ℕ → ℕ → JobStatus → List Change → JobTable → JobTable
update_job_status now id status changes [] = []
update_job_status now id status changes (j ∷ js) =
    (if j.job_id == id then set_status now status changes j else j)
    ∷ update_job_status now id status changes js

abbrev pub or_any {ℓ} : {A : Type ℓ} → (A → Bool) → Option A → Bool
or_any test none = true
or_any test (some a) = test a

-- `ORDER BY created_at DESC`
abbrev newer : SyncJob → SyncJob → Bool
newer a b = ltb b.created_at a.created_at

unfoldable pub list_jobs :
    (company_id provider : Option ℕ) → Option JobStatus → (limit : ℕ) → JobTable → JobTable
unfolding order_by
list_jobs company_id provider status limit rows = limit_to limit (
    order_by newer (
      where_row
        (λ j.
          or_any (λ c. j.company_id == c) company_id
          && (or_any (λ p. j.provider == p) provider && or_any (λ s. status_eq j.status s) status))
        rows))

-- The `CASE priority` of the query.
abbrev pub priority_rank : JobPriority → ℕ
priority_rank critical = 1
priority_rank high = 2
priority_rank normal = 3
priority_rank low = 4

-- `ORDER BY (CASE priority), created_at ASC`
abbrev pub runs_before : SyncJob → SyncJob → Bool
runs_before a b =
    ltb (priority_rank a.priority) (priority_rank b.priority)
    || (priority_rank a.priority == priority_rank b.priority && ltb a.created_at b.created_at)

abbrev pub is_pending_of : Option ℕ → SyncJob → Bool
is_pending_of company_id j =
    status_eq j.status pending && or_any (λ c. j.company_id == c) company_id

unfoldable pub list_pending_jobs : Option ℕ → JobTable → JobTable
unfolding order_by
list_pending_jobs company_id rows = order_by runs_before (where_row (is_pending_of company_id) rows)

abbrev pub is_live_for : (company_id provider : ℕ) → SyncDomain → SyncJob → Bool
is_live_for company_id provider domain j =
    j.company_id == company_id
    && (j.provider == provider
        && (domain_eq j.domain domain
            && (status_eq j.status running || status_eq j.status pending)))

unfoldable pub has_running_jobs : (company_id provider : ℕ) → SyncDomain → JobTable → Bool
has_running_jobs company_id provider domain rows =
    ltb 0 (count_row (is_live_for company_id provider domain) rows)

-- class SyncBatch
pub record SyncBatch : Type 0 where
  pub batch_id : ℕ
  pub company_id : ℕ
  pub provider : ℕ
  pub jobs : List SyncJob
  pub pipeline_execution_required : Bool
  pub created_at : ℕ

unfoldable pub create_batch : (id now company_id provider : ℕ) → SyncBatch
create_batch id now company_id provider = record {
  batch_id = id;
  company_id = company_id;
  provider = provider;
  jobs = [];
  pipeline_execution_required = true;
  created_at = now;
}

unfoldable pub add_job : SyncJob → SyncBatch → Result SyncBatch
add_job job b =
    if not (job.company_id == b.company_id)
    then err company_mismatch
    else if not (job.provider == b.provider)
    then err provider_mismatch
    else ok (record b { jobs = b.jobs ++ job ∷ [] })

unfoldable pub all_completed : SyncBatch → Bool
all_completed b = ltb (count_row (λ j. not (status_eq j.status completed)) b.jobs) 1

unfoldable pub has_failures : SyncBatch → Bool
has_failures b = ltb 0 (count_row (λ j. status_eq j.status failed) b.jobs)

abbrev sum_imported : List SyncJob → ℕ
sum_imported [] = 0
sum_imported (j ∷ js) = j.records_imported + sum_imported js

unfoldable pub total_records_imported : SyncBatch → ℕ
total_records_imported b = sum_imported b.jobs
