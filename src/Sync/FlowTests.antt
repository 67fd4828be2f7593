-- ===== src/Sync/FlowTests.antt =====
-- The dispatcher, the orchestrator, the pool and the scheduler on concrete inputs.
use backend_business_intelli.Prelude.{
  ◌≡◌, refl, true, false, none, some, [], ◌∷◌, ◌==◌, if◌then◌else◌,
}
use backend_business_intelli.Calendar.{date}
use backend_business_intelli.Sync.Base.{
  completed, normal, high, domain_eq, sales, hr, provider_error, already_running, Result, ok, err,
}
use backend_business_intelli.Sync.Window.{TimeWindow}
use backend_business_intelli.Sync.Job.{SyncJob, create, start, complete, cancel}
use backend_business_intelli.Sync.Jobs.{
  SyncBatch, get_job, update_job_status, create_batch, has_running_jobs,
}
use backend_business_intelli.Sync.Runtime.{
  SyncRuntime, register_job_started, register_job_completed, register_job_cancelled,
}
use backend_business_intelli.Sync.Checkpoint.{
  get_checkpoint, find_active_checkpoint, new_checkpoint,
}
use backend_business_intelli.Sync.World.{World}
use backend_business_intelli.Sync.Dispatcher.{
  Services, execute_job, call_provider, finish_job, record_success,
}
use backend_business_intelli.Sync.Dispatcher.Outcome.{Settled, execute_job-Settled}
use backend_business_intelli.Sync.Orchestrator.{
  cancel_job, full_windows, schedule_domain_sync, start_domain_sync,
}
use backend_business_intelli.Sync.Orchestrator.Control.{
  cancel_does_not_stop, schedule_domain_sync_twice, IsLive,
}
use backend_business_intelli.Sync.Orchestrator.Schedule.{
  planned_jobs, with_batch, with_jobs, full_windows-planned_jobs,
}
use backend_business_intelli.Sync.Scheduler.{
  DomainScheduleConfig, SynchronizationScheduler, get_last_run, is_due,
  check_and_schedule_due_syncs,
}
use backend_business_intelli.Sync.Scheduler.Due.{
  IsKeyed, IsAbsent, Rescheduled, find_config, check_schedules_due,
}

abbrev job_7 : SyncJob
job_7 = create 7 100 1 2 sales normal none "incremental" (some 3)

abbrev runtime : SyncRuntime
runtime = record {
  metrics = record { values = λ m. 0; per_domain = λ d m. 0 };
  active_jobs = [];
  scheduler_running = false;
  scheduler_last_run = none;
}

abbrev world : World
world = record {
  jobs = job_7 ∷ [];
  checkpoints = [];
  runtime = runtime;
  pool = record { max_workers = 2; workers = 2; queue = []; is_shutdown = false };
  clock = 120;
  next_id = 50;
}

-- A provider that answers for company 1 and raises for any other.
abbrev services : Services
services = record {
  get_provider = λ name. ok name;
  decrypt = λ bytes. ok bytes;
  run_sync = λ provider method company credentials mode.
      if company == 1
      then ok (record { read = 5; imported = 4; rejected = 1 })
      else err (provider_error 9);
}

execute_job-Settled_example : Settled job_7 (execute_job services 77 job_7 world)
unfolding get_job create
execute_job-Settled_example = execute_job-Settled services 77 job_7 job_7 world refl refl

cancel_does_not_stop_example :
    ((cancel_job 7 world).0 ≡ ok tt)
    × Settled job_7 (execute_job services 77 job_7 (cancel_job 7 world).1)
unfolding get_job create
cancel_does_not_stop_example =
    cancel_does_not_stop services 77 job_7 job_7 world refl refl (λ e. cc) (λ e. cc)

-- A cancelled job, run by the provider that answers: the row ends completed.
cancelled_job_completes :
    get_job 7 (execute_job services 77 job_7 (cancel_job 7 world).1).1.jobs
    ≡ some (record (job_7) {
      status = completed;
      records_read = 5;
      records_imported = 4;
      records_failed = 1;
      pages_processed = 1;
      started_at = some 120;
      completed_at = some 120;
      updated_at = 120;
    })
unfolding get_job create execute_job cancel_job cancel start complete update_job_status
    call_provider finish_job record_success register_job_started register_job_completed
    register_job_cancelled get_checkpoint
cancelled_job_completes = refl

abbrev week_1 : TimeWindow
week_1 = record { start_date = date 2024 3 1; end_date = date 2024 3 7 }

abbrev week_2 : TimeWindow
week_2 = record { start_date = date 2024 3 8; end_date = date 2024 3 14 }

abbrev batch : SyncBatch
batch = create_batch 60 120 1 2

full_windows-planned_jobs_example :
    full_windows 1 2 9 hr high 3 (week_1 ∷ week_2 ∷ []) batch world ≡ (
      ok (with_batch (planned_jobs 1 2 9 hr high 3 120 50 (week_1 ∷ week_2 ∷ [])) batch),
      with_jobs 9 (planned_jobs 1 2 9 hr high 3 120 50 (week_1 ∷ week_2 ∷ [])) world,
    )
unfolding create_batch
full_windows-planned_jobs_example =
    full_windows-planned_jobs 1 2 9 hr high 3 (week_1 ∷ week_2 ∷ []) batch world refl refl refl

abbrev scheduled : Result SyncJob × World
scheduled = schedule_domain_sync 1 2 9 hr "incremental" none normal world

abbrev first_job : SyncJob
first_job = create 51 120 1 2 hr normal none "incremental" (some 50)

scheduled-ok : scheduled ≡ (ok first_job, scheduled.1)
unfolding schedule_domain_sync start_domain_sync create has_running_jobs domain_eq
    find_active_checkpoint new_checkpoint
scheduled-ok = refl

schedule_domain_sync_twice_example :
    (schedule_domain_sync 1 2 9 hr "full" (some week_1) high scheduled.1
      ≡ (err (already_running hr), scheduled.1))
    × ((later : World) (row : SyncJob)
        → get_job 51 later.jobs ≡ some row
        → IsLive 1 2 hr row
        → schedule_domain_sync 1 2 9 hr "full" (some week_1) high later
          ≡ (err (already_running hr), later))
unfolding create
schedule_domain_sync_twice_example =
    schedule_domain_sync_twice 1 2 9 hr "incremental" "full" none (some week_1) normal high world
      scheduled.1 first_job scheduled-ok

abbrev sales_config : DomainScheduleConfig
sales_config = record {
  domain = sales;
  frequency_minutes = 60;
  window_days = 7;
  priority = high;
  enabled = true;
  max_parallel_jobs = 1;
}

abbrev hr_config : DomainScheduleConfig
hr_config = record sales_config { domain = hr }

abbrev schedule : SynchronizationScheduler
schedule = record {
  schedule_configs = (hr, hr_config) ∷ (sales, sales_config) ∷ [];
  last_runs = (hr, 34800) ∷ (sales, 30000) ∷ [];
  is_running = true;
  is_stopping = false;
}

only_sales_runs :
    (check_and_schedule_due_syncs 36000 schedule).last_runs ≡ (hr, 34800) ∷ (sales, 36000) ∷ []
unfolding check_and_schedule_due_syncs is_due domain_eq get_last_run
only_sales_runs = refl

schedule-IsKeyed : IsKeyed schedule.schedule_configs
unfolding domain_eq
schedule-IsKeyed = (refl, (refl, tt), (refl, tt, tt))

check_schedules_due_example :
    ((c : DomainScheduleConfig)
      → find_config sales schedule.schedule_configs ≡ some c
      → Rescheduled 36000 c
          (get_last_run sales schedule.last_runs)
          (get_last_run sales (check_and_schedule_due_syncs 36000 schedule).last_runs))
    × (IsAbsent sales schedule.schedule_configs
        → get_last_run sales (check_and_schedule_due_syncs 36000 schedule).last_runs
          ≡ get_last_run sales schedule.last_runs)
check_schedules_due_example = check_schedules_due 36000 sales schedule schedule-IsKeyed
