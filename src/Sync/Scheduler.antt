-- ===== src/Sync/Scheduler.antt =====
-- synchronization/application/scheduler.py. Times are whole seconds of `datetime.utcnow()`. The
-- thread and its event are flags. A configuration is listed with the name that it is stored under,
-- as `from_config` builds the dictionary: names that are no domain are skipped.
pub mod Due
use backend_business_intelli.Prelude.{
  ℕ, zero, suc, ◌+◌, ◌-◌, ◌*◌, Bool, true, false, not, Option, none, some, List, [], ◌∷◌, leb, ltb,
  ◌==◌, if◌then◌else◌,
}
use backend_business_intelli.Sync.Base.{SyncDomain, JobPriority, normal, domain_eq}

pub record DomainScheduleConfig : Type 0 where
  pub domain : SyncDomain
  pub frequency_minutes : ℕ
  pub window_days : ℕ
  pub priority : JobPriority
  pub enabled : Bool
  pub max_parallel_jobs : ℕ

unfoldable pub next_run_at : DomainScheduleConfig → ℕ → ℕ
next_run_at c last_run = last_run + 60 * c.frequency_minutes

-- `SchedulerState.last_runs`
abbrev pub LastRuns : Type 0
LastRuns = List (SyncDomain × ℕ)

unfoldable pub get_last_run : SyncDomain → LastRuns → Option ℕ
get_last_run d [] = none
get_last_run d ((e, t) ∷ r) = if domain_eq e d then some t else get_last_run d r

unfoldable pub update_last_run : SyncDomain → ℕ → LastRuns → LastRuns
update_last_run d now [] = (d, now) ∷ []
update_last_run d now ((e, t) ∷ r) =
    if domain_eq e d then (e, now) ∷ r else (e, t) ∷ update_last_run d now r

pub record SynchronizationScheduler : Type 0 where
  pub schedule_configs : List (SyncDomain × DomainScheduleConfig)
  pub last_runs : LastRuns
  pub is_running : Bool
  pub is_stopping : Bool

-- `start` and `stop`; the flag tells whether the runtime is marked.
unfoldable pub start : SynchronizationScheduler → SynchronizationScheduler
start s = if s.is_running then s else record s { is_running = true; is_stopping = false }

unfoldable pub stop : SynchronizationScheduler → SynchronizationScheduler
stop s = if not s.is_running then s else record s { is_running = false; is_stopping = true }

-- `_schedule_domain_sync`: it writes a log line and the time; nothing is handed to the orchestrator.
unfoldable pub schedule_domain : ℕ → DomainScheduleConfig → LastRuns → LastRuns
unfolding update_last_run
schedule_domain now c runs = update_last_run c.domain now runs

-- Whether the loop body calls `_schedule_domain_sync` for the configuration.
unfoldable pub is_due : ℕ → SyncDomain → DomainScheduleConfig → LastRuns → Bool
unfolding next_run_at
is_due now name c runs =
    if not c.enabled
    then false
    else elim (get_last_run name runs) [ none ↦ true | some last ↦ leb (next_run_at c last) now ]

-- The loop of `_check_and_schedule_due_syncs`.
unfoldable pub check_configs : ℕ → List (SyncDomain × DomainScheduleConfig) → LastRuns → LastRuns
unfolding schedule_domain
check_configs now [] runs = runs
check_configs now ((name, c) ∷ cs) runs =
    check_configs now cs (if is_due now name c runs then schedule_domain now c runs else runs)

unfoldable pub check_and_schedule_due_syncs :
    ℕ → SynchronizationScheduler → SynchronizationScheduler
unfolding check_configs
check_and_schedule_due_syncs now s = record s {
  last_runs = check_configs now s.schedule_configs s.last_runs;
}

-- `next_run` of `get_schedule_status`, and `seconds_until_next`. A last run at time zero
-- does not occur: `last_run` is a `datetime`, which is always true.
unfoldable pub next_run : ℕ → SyncDomain → DomainScheduleConfig → LastRuns → ℕ
unfolding next_run_at
next_run now name c runs = elim (get_last_run name runs) [
  | none ↦ now
  | some last ↦ next_run_at c last
]

unfoldable pub seconds_until_next : ℕ → SyncDomain → DomainScheduleConfig → LastRuns → ℕ
unfolding next_run
seconds_until_next now name c runs =
    if ltb now (next_run now name c runs) then next_run now name c runs - now else 0
