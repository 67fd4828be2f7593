-- ===== src/Sync/Runtime/Counts.antt =====
-- What the counters add up to.
use backend_business_intelli.Prelude.{ℕ, ◌+◌, ◌≡◌, Bool, true, false, List, [], ◌∷◌, arith}
use backend_business_intelli.Sync.Base.{SyncDomain}
use backend_business_intelli.Sync.Runtime.{
  SyncMetrics, SyncRuntime, jobs_total, jobs_completed, jobs_failed, records_total,
  records_imported, register_job_started, register_job_completed, register_job_failed,
  register_job_cancelled, register_checkpoint_created, register_checkpoint_restored,
  register_window_processed, register_pipeline_execution, mark_scheduler_running,
}

-- A call of one of the registering methods.
pub data Event : Type 0 where
  job_started : (now id : ℕ) → Event
  job_completed : (now id : ℕ) → SyncDomain → (imported pages : ℕ) → Event
  job_failed : (now id : ℕ) → SyncDomain → Event
  job_cancelled : (id : ℕ) → SyncDomain → Event
  checkpoint_created checkpoint_restored window_processed : SyncDomain → Event
  pipeline_execution : Event
  scheduler_marked : (now : ℕ) → Bool → Event

pub register : Event → SyncRuntime → SyncRuntime
unfolding register_job_started register_job_completed register_job_failed register_job_cancelled
    register_checkpoint_created register_checkpoint_restored register_window_processed
    register_pipeline_execution mark_scheduler_running
register (job_started now id) r = register_job_started now id r
register (job_completed now id d n p) r = register_job_completed now id d n p r
register (job_failed now id d) r = register_job_failed now id d r
register (job_cancelled id d) r = register_job_cancelled id d r
register (checkpoint_created d) r = register_checkpoint_created d r
register (checkpoint_restored d) r = register_checkpoint_restored d r
register (window_processed d) r = register_window_processed d r
register pipeline_execution r = register_pipeline_execution r
register (scheduler_marked now b) r = mark_scheduler_running now b r

pub register_all : List Event → SyncRuntime → SyncRuntime
register_all [] r = r
register_all (e ∷ es) r = register_all es (register e r)

-- The totals are the sums of their parts.
pub record IsBalanced (s : SyncMetrics) : Type 0 where
  pub jobs : s.values jobs_total ≡ s.values jobs_completed + s.values jobs_failed
  pub records : s.values records_total ≡ s.values records_imported

abbrev pub IsBalancedIn : SyncDomain → SyncMetrics → Type 0
IsBalancedIn d s =
    s.per_domain d jobs_total ≡ s.per_domain d jobs_completed + s.per_domain d jobs_failed

register-IsBalanced :
    (e : Event) (r : SyncRuntime) → IsBalanced r.metrics → IsBalanced (register e r).metrics
unfolding register
register-IsBalanced (job_started now id) r b = b
register-IsBalanced (scheduler_marked now true) r b = b
register-IsBalanced (scheduler_marked now false) r b = b
register-IsBalanced e r b = ground arith

register-IsBalancedIn :
    (d : SyncDomain) (e : Event) (r : SyncRuntime)
    → IsBalancedIn d r.metrics
    → IsBalancedIn d (register e r).metrics
unfolding register
register-IsBalancedIn d (job_started now id) r b = b
register-IsBalancedIn d (scheduler_marked now true) r b = b
register-IsBalancedIn d (scheduler_marked now false) r b = b
register-IsBalancedIn d e r b = ground arith

register_all-IsBalancedIn :
    (d : SyncDomain) (es : List Event) (r : SyncRuntime)
    → IsBalancedIn d r.metrics
    → IsBalancedIn d (register_all es r).metrics
unfolding register_all
register_all-IsBalancedIn d [] r b = b
register_all-IsBalancedIn d (e ∷ es) r b =
    register_all-IsBalancedIn d es (register e r) (register-IsBalancedIn d e r b)

register_all-overall :
    (es : List Event) (r : SyncRuntime)
    → IsBalanced r.metrics
    → IsBalanced (register_all es r).metrics
unfolding register_all
register_all-overall [] r b = b
register_all-overall (e ∷ es) r b =
    register_all-overall es (register e r) (register-IsBalanced e r b)

-- However the methods are called, the jobs counted in all are those counted as completed and those
-- counted as failed, over all and in each domain, and the records counted in all are the imported
-- ones, provided that it was so before.
pub register_all-IsBalanced :
    (es : List Event) (r : SyncRuntime)
    → IsBalanced r.metrics
    → ((d : SyncDomain) → IsBalancedIn d r.metrics)
    → IsBalanced (register_all es r).metrics
      × ((d : SyncDomain) → IsBalancedIn d (register_all es r).metrics)
register_all-IsBalanced es r b c =
    (register_all-overall es r b, λ d. register_all-IsBalancedIn d es r (c d))
