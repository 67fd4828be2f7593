-- ===== src/Sync/Dispatcher.antt =====
-- synchronization/application/job_dispatcher.py. The registry of providers, the cipher and the
-- provider's sync methods are code outside this module: they are the fields of an interface, and
-- may raise. The clock stands still during a call, and the provider leaves the tables alone.
pub mod Outcome
use backend_business_intelli.Prelude.{
  ℕ, suc, ◌+◌, Bool, true, false, not, Option, none, some, List, [], ◌∷◌, String, ◌==◌,
  if◌then◌else◌,
}
use backend_business_intelli.Calendar.{Date}
use backend_business_intelli.Sync.Base.{
  SyncDomain, customers, products, sales, accounts_receivable, accounts_payable, cashflow,
  inventory, hr, suppliers, running, completed, failed, Error, Result, ok, err,
}
use backend_business_intelli.Sync.Window.{TimeWindow}
use backend_business_intelli.Sync.Job.{SyncJob, start, complete, fail}
use backend_business_intelli.Sync.Runtime.{
  register_job_started, register_job_completed, register_job_failed, register_checkpoint_restored,
  register_window_processed,
}
use backend_business_intelli.Sync.Checkpoint.{
  SyncCheckpoint, get_checkpoint, mark_checkpoint_completed, mark_checkpoint_failed,
}
use backend_business_intelli.Sync.Jobs.{
  update_job_status, started_at, completed_at, failed_at, error_message, retry_count, records_read,
  records_imported, records_failed, pages_processed,
}
use backend_business_intelli.Sync.World.{
  World, Action, ◌>>=◌, ◌>>◌, pure, raise, gets, lift, on_jobs, on_checkpoints, on_runtime, when,
}

-- The name that `_get_sync_method_for_domain` maps a domain to.
pub data SyncMethod : Type 0 where
  sync_customers sync_products sync_sales sync_accounts_receivable sync_accounts_payable :
      SyncMethod
  sync_cashflow sync_inventory sync_hr sync_suppliers : SyncMethod

unfoldable pub sync_method : SyncDomain → SyncMethod
sync_method customers = sync_customers
sync_method products = sync_products
sync_method sales = sync_sales
sync_method accounts_receivable = sync_accounts_receivable
sync_method accounts_payable = sync_accounts_payable
sync_method cashflow = sync_cashflow
sync_method inventory = sync_inventory
sync_method hr = sync_hr
sync_method suppliers = sync_suppliers

-- The dictionary of credentials: what the cipher yields, and the keys that the dispatcher adds.
-- `period_start` and `period_end` are the dates of the window; `period_ref` is the year and month
-- of the first.
pub record Credentials : Type 0 where
  pub secret : ℕ
  pub period : Option (Date × Date × ℕ × ℕ)
  pub start_page : Option ℕ

pub record SyncResult : Type 0 where
  pub read : ℕ
  pub imported : ℕ
  pub rejected : ℕ

pub record Services : Type 0 where
  -- `provider_registry.get`, by the provider's name
  pub get_provider : ℕ → Result ℕ
  -- `credential_cipher.decrypt`
  pub decrypt : ℕ → Result ℕ
  -- `getattr(provider, method)(company_id, credentials, mode)`
  pub run_sync : ℕ → SyncMethod → ℕ → Credentials → String → Result SyncResult

abbrev inject_window : Option TimeWindow → Credentials → Credentials
inject_window none c = c
inject_window (some w) c = record c {
  period = some (w.start_date, w.end_date, w.start_date.year, w.start_date.month);
}

-- `checkpoint.last_page + 1` if there is a checkpoint whose page is neither `None` nor zero
abbrev page_after : Option ℕ → Option ℕ
page_after none = none
page_after (some p) = if p == 0 then none else some (p + 1)

abbrev resume_page : Option SyncCheckpoint → Option ℕ
resume_page none = none
resume_page (some c) = page_after c.last_page

abbrev inject_page : SyncDomain → Option ℕ → Credentials → Action Credentials
inject_page d none c = pure c
inject_page d (some page) c =
    on_runtime (register_checkpoint_restored d) >> pure (record c { start_page = some page })

unfoldable pub inject_checkpoint : SyncJob → Credentials → Action Credentials
inject_checkpoint job c w = elim job.checkpoint_id [
  | none ↦ (ok c, w)
  | some id ↦ inject_page job.domain (resume_page (get_checkpoint id w.checkpoints)) c w
]

abbrev pub for_checkpoint : Option ℕ → (ℕ → Action (Unit {0})) → Action (Unit {0})
for_checkpoint none f = pure tt
for_checkpoint (some id) f = f id

abbrev for_window : Option TimeWindow → Action (Unit {0}) → Action (Unit {0})
for_window none m = pure tt
for_window (some w) m = m

-- Up to the provider's answer, with the job started.
unfoldable pub call_provider : Services → ℕ → SyncJob → Action SyncResult
unfolding inject_checkpoint sync_method
call_provider s encrypted job = do
  now ← gets (λ w. w.clock)
  on_jobs (update_job_status now job.job_id running (started_at job.started_at ∷ []))
  on_runtime (register_job_started now job.job_id)
  provider ← lift (s.get_provider job.provider)
  secret ← lift (s.decrypt encrypted)
  let c : Credentials = record { secret = secret; period = none; start_page = none }
  credentials ← inject_checkpoint job (inject_window job.window c)
  lift (s.run_sync provider (sync_method job.domain) job.company_id credentials job.mode)

-- After the provider's answer, with the job completed.
unfoldable pub record_success : SyncJob → Action (Unit {0})
record_success job = do
  now ← gets (λ w. w.clock)
  on_jobs (
      update_job_status now job.job_id completed (
        completed_at job.completed_at
        ∷ records_read job.records_read
        ∷ records_imported job.records_imported
        ∷ records_failed job.records_failed
        ∷ pages_processed job.pages_processed
        ∷ []))
  on_runtime
      (register_job_completed now job.job_id job.domain job.records_imported job.pages_processed)
  for_checkpoint job.checkpoint_id (λ id. on_checkpoints (mark_checkpoint_completed now id))
  for_window job.window (on_runtime (register_window_processed job.domain))

-- The `except` block; `job` is the job object as the `try` block left it, and `exc` is raised again
-- unless the block raises itself.
unfoldable pub record_failure : SyncJob → Error → Action SyncJob
record_failure job exc = do
  now ← gets (λ w. w.clock)
  dead ← lift (fail now exc job)
  on_jobs (
      update_job_status now dead.job_id failed (
        failed_at dead.failed_at
        ∷ error_message dead.error_message
        ∷ retry_count dead.retry_count
        ∷ []))
  on_runtime (register_job_failed now dead.job_id dead.domain)
  for_checkpoint dead.checkpoint_id (λ id. on_checkpoints (mark_checkpoint_failed now id))
  raise exc

-- `job.complete(…)` and the rest of the `try` block, or the `except` block if the provider raised.
unfoldable pub finish_job : SyncJob → Result SyncResult → Action SyncJob
unfolding record_failure record_success
finish_job begun (err e) w = record_failure begun e w
finish_job begun (ok result) w =
    elim (complete w.clock result.read result.imported result.rejected 1 begun) [
      | err e ↦ record_failure begun e w
      | ok done ↦ (record_success done >> pure done) w
    ]

-- `execute_job`. What the `try` block did to the job object when it raised is written out: nothing
-- if `start` raised, else it is the started job, since after `complete` nothing raises.
unfoldable pub execute_job : Services → ℕ → SyncJob → Action SyncJob
unfolding finish_job call_provider
execute_job s encrypted job w = elim (start w.clock job) [
  | err e ↦ record_failure job e w
  | ok begun ↦ let (answer, w') = call_provider s encrypted begun w in finish_job begun answer w'
]
