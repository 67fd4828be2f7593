-- ===== src/Sync/Runtime.antt =====
-- synchronization/infrastructure/sync_runtime.py. The metrics that are counts are numbers here (a
-- float of the source holds them exactly below 2 ^ 53); times are read from a clock of whole ticks.
-- Each method is one step, since the locks make its reads and writes of one object atomic.
pub mod Counts
use backend_business_intelli.Prelude.{
  ℕ, zero, suc, ◌+◌, ◌-◌, Bool, true, false, Option, none, some, List, [], ◌∷◌, ltb, ◌==◌,
  if◌then◌else◌, length,
}
use backend_business_intelli.Sync.Base.{SyncDomain, domain_eq}

pub data Metric : Type 0 where
  jobs_total jobs_completed jobs_failed jobs_cancelled : Metric
  records_total records_imported records_failed pages_processed : Metric
  checkpoints_created checkpoints_restored windows_processed pipeline_executions : Metric
  duration_total_seconds duration_samples : Metric

abbrev pub metric_eq : Metric → Metric → Bool
metric_eq jobs_total jobs_total = true
metric_eq jobs_completed jobs_completed = true
metric_eq jobs_failed jobs_failed = true
metric_eq jobs_cancelled jobs_cancelled = true
metric_eq records_total records_total = true
metric_eq records_imported records_imported = true
metric_eq records_failed records_failed = true
metric_eq pages_processed pages_processed = true
metric_eq checkpoints_created checkpoints_created = true
metric_eq checkpoints_restored checkpoints_restored = true
metric_eq windows_processed windows_processed = true
metric_eq pipeline_executions pipeline_executions = true
metric_eq duration_total_seconds duration_total_seconds = true
metric_eq duration_samples duration_samples = true
metric_eq _ _ = false

-- `SyncMetrics`: a key that is missing counts as zero.
pub record SyncMetrics : Type 0 where
  pub values : Metric → ℕ
  pub per_domain : SyncDomain → Metric → ℕ

abbrev add_at : Metric → ℕ → (Metric → ℕ) → Metric → ℕ
add_at m v f k = f k + (if metric_eq k m then v else 0)

unfoldable pub inc : Metric → ℕ → Option SyncDomain → SyncMetrics → SyncMetrics
inc m v none s = record s { values = add_at m v s.values }
inc m v (some d) s = record s {
  values = add_at m v s.values;
  per_domain = λ e k. if domain_eq e d then add_at m v (s.per_domain e) k else s.per_domain e k;
}

unfoldable pub observe_duration : ℕ → Option SyncDomain → SyncMetrics → SyncMetrics
unfolding inc
observe_duration seconds d s = inc duration_samples 1 d (inc duration_total_seconds seconds d s)

pub record SyncRuntime : Type 0 where
  pub metrics : SyncMetrics
  pub active_jobs : List (ℕ × ℕ)
  pub scheduler_running : Bool
  pub scheduler_last_run : Option ℕ

-- `_active_jobs[job_id] = started`, `_active_jobs.pop(job_id, None)`
unfoldable pub set_active : ℕ → ℕ → List (ℕ × ℕ) → List (ℕ × ℕ)
set_active id started [] = (id, started) ∷ []
set_active id started ((k, v) ∷ r) =
    if id == k then (k, started) ∷ r else (k, v) ∷ set_active id started r

unfoldable pub active_since : ℕ → List (ℕ × ℕ) → Option ℕ
active_since id [] = none
active_since id ((k, v) ∷ r) = if id == k then some v else active_since id r

unfoldable pub drop_active : ℕ → List (ℕ × ℕ) → List (ℕ × ℕ)
drop_active id [] = []
drop_active id ((k, v) ∷ r) = if id == k then r else (k, v) ∷ drop_active id r

-- `(time.monotonic() - started_at) if started_at else 0.0`: a start at time zero counts as none.
abbrev pub duration_of : ℕ → Option ℕ → ℕ
duration_of now none = 0
duration_of now (some t) = if t == 0 then 0 else now - t

abbrev observe_if : ℕ → SyncDomain → SyncMetrics → SyncMetrics
observe_if duration d s = if ltb 0 duration then observe_duration duration (some d) s else s

unfoldable pub register_job_started : ℕ → ℕ → SyncRuntime → SyncRuntime
unfolding set_active
register_job_started now id r = record r { active_jobs = set_active id now r.active_jobs }

unfoldable pub register_job_completed : ℕ → ℕ → SyncDomain → ℕ → ℕ → SyncRuntime → SyncRuntime
unfolding inc observe_duration active_since drop_active
register_job_completed now id d imported pages r = record r {
  active_jobs = drop_active id r.active_jobs;
  metrics = observe_if (duration_of now (active_since id r.active_jobs)) d (
      inc pages_processed pages (some d) (
        inc records_imported imported (some d) (
          inc records_total imported (some d)
            (inc jobs_completed 1 (some d) (inc jobs_total 1 (some d) r.metrics)))));
}

unfoldable pub register_job_failed : ℕ → ℕ → SyncDomain → SyncRuntime → SyncRuntime
unfolding inc observe_duration active_since drop_active
register_job_failed now id d r = record r {
  active_jobs = drop_active id r.active_jobs;
  metrics =
      observe_if (duration_of now (active_since id r.active_jobs)) d
        (inc jobs_failed 1 (some d) (inc jobs_total 1 (some d) r.metrics));
}

unfoldable pub register_job_cancelled : ℕ → SyncDomain → SyncRuntime → SyncRuntime
unfolding inc drop_active
register_job_cancelled id d r = record r {
  active_jobs = drop_active id r.active_jobs;
  metrics = inc jobs_cancelled 1 (some d) r.metrics;
}

unfoldable pub register_checkpoint_created : SyncDomain → SyncRuntime → SyncRuntime
unfolding inc
register_checkpoint_created d r = record r {
  metrics = inc checkpoints_created 1 (some d) r.metrics;
}

unfoldable pub register_checkpoint_restored : SyncDomain → SyncRuntime → SyncRuntime
unfolding inc
register_checkpoint_restored d r = record r {
  metrics = inc checkpoints_restored 1 (some d) r.metrics;
}

unfoldable pub register_window_processed : SyncDomain → SyncRuntime → SyncRuntime
unfolding inc
register_window_processed d r = record r { metrics = inc windows_processed 1 (some d) r.metrics }

unfoldable pub register_pipeline_execution : SyncRuntime → SyncRuntime
unfolding inc
register_pipeline_execution r = record r { metrics = inc pipeline_executions 1 none r.metrics }

unfoldable pub mark_scheduler_running : ℕ → Bool → SyncRuntime → SyncRuntime
mark_scheduler_running now true r = record r {
  scheduler_running = true;
  scheduler_last_run = some now;
}
mark_scheduler_running now false r = record r { scheduler_running = false }

unfoldable pub get_active_jobs_count : SyncRuntime → ℕ
get_active_jobs_count r = length r.active_jobs
