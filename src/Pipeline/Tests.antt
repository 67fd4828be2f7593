-- ===== src/Pipeline/Tests.antt =====
-- Runs of the pipeline on concrete inputs, and its theorems at such inputs.
use backend_business_intelli.Prelude.{
  ℕ, length, arith, ◌≤◌, ◌≡◌, refl, true, false, none, some, List, [], ◌∷◌, ◌==◌, if◌then◌else◌,
}
use backend_business_intelli.Pipeline.Base.{
  PipelineStatus, success, failed, skipped, rule_engine, kpi_orchestrator, engine_error, done,
  raised, Period, PipelineRun, PipelineStep, ImportJob, Store, stage_order,
}
use backend_business_intelli.Pipeline.Tables.{
  steps_of, RunRequest, latest_run_for_job, create_or_reuse_run, compute_progress, mark_run_running,
}
use backend_business_intelli.Pipeline.Executor.{Engines}
use backend_business_intelli.Pipeline.Service.{StartPipelineCommand, start}
use backend_business_intelli.Pipeline.Service.Once.{IsSound}
use backend_business_intelli.Pipeline.Service.History.{start_all, start_all-IsSound}
use backend_business_intelli.Pipeline.ImportProgress.{
  ImportJobProgress, get_import_job_progress, IsAnswer, get_import_job_progress-IsAnswer,
}
use backend_business_intelli.Pipeline.Progress.{compute_progress_bound, compute_progress_early}
use backend_business_intelli.Pipeline.Latest.{IsLatest, latest_run_for_job-IsLatest}
use backend_business_intelli.Pipeline.Reuse.{ReuseOutcome, create_or_reuse_run-ReuseOutcome}

abbrev import_job : ImportJob
import_job = record { import_job_id = 8; company_id = 4; is_running = false; started_at = 40 }

abbrev store : Store
store = record {
  runs = [];
  steps = [];
  logs = [];
  events = [];
  imports = import_job ∷ [];
  clock = 50;
  next_id = 1;
}

abbrev request : RunRequest
request = record {
  company_id = 4;
  import_job_id = 8;
  template = "sales";
  source_system = "erp";
  correlation_id = none;
  allow_retry = true;
}

abbrev command : StartPipelineCommand
command = record { request = request; ingest_event_id = none }

abbrev may : Period
may = record { period_ref = 202405; orchestrator_run_id = 31 }

-- Engines of which the one of the insights raises.
abbrev engines : Engines
engines = record {
  kpi = λ context fallback. done (may ∷ []);
  engine =
      λ stage context period. if stage_order stage == 4 then raised (engine_error 3) else done tt;
  duration_ms = λ stage. 10;
}

abbrev statuses : List PipelineStep → List PipelineStatus
statuses [] = []
statuses (t ∷ ts) = t.status ∷ statuses ts

-- The fourth stage raises: the run ends there.
fourth_stage_fails :
    statuses (start engines command store).1.steps ≡ success ∷ success ∷ success ∷ failed ∷ []
unfolding start mark_run_running
fourth_stage_fails = refl

abbrev good_engines : Engines
good_engines = record engines { engine = λ stage context period. done tt }

-- A second attempt skips the three stages that succeeded.
second_attempt :
    statuses
      (start good_engines command (record ((start engines command store).1) { clock = 60 })).1.steps
    ≡ success ∷ success ∷ success ∷ failed ∷ skipped ∷ skipped ∷ skipped ∷ success ∷ success
      ∷ success ∷ []
unfolding start mark_run_running
second_attempt = refl

abbrev old_run : PipelineRun
old_run = record {
  pipeline_run_id = 1;
  company_id = 4;
  import_job_id = 8;
  template = "sales";
  source_system = "erp";
  status = success;
  progress = 100;
  current_step = some rule_engine;
  correlation_id = none;
  retry_of = none;
  attempt = 1;
  started_at = 20;
  finished_at = some 30;
}

abbrev used : Store
used = record store { runs = old_run ∷ [] }

-- A failed run of the same job that was started after the other, and stands before it.
abbrev newer_run : PipelineRun
newer_run = record old_run { pipeline_run_id = 2; status = failed; attempt = 2; started_at = 35 }

latest_run_for_job-IsLatest_example :
    IsLatest 4 8 (newer_run ∷ old_run ∷ []) (latest_run_for_job 4 8 (newer_run ∷ old_run ∷ []))
latest_run_for_job-IsLatest_example = latest_run_for_job-IsLatest 4 8 (newer_run ∷ old_run ∷ [])

newer_is_latest : latest_run_for_job 4 8 (newer_run ∷ old_run ∷ []) ≡ some newer_run
unfolding latest_run_for_job
newer_is_latest = refl

create_or_reuse_run-ReuseOutcome_example :
    ReuseOutcome request used (latest_run_for_job 4 8 used.runs) (create_or_reuse_run request used)
create_or_reuse_run-ReuseOutcome_example = create_or_reuse_run-ReuseOutcome request used

abbrev first_step : PipelineStep
first_step = record {
  step_id = 2;
  pipeline_run_id = 1;
  company_id = 4;
  import_job_id = 8;
  step_name = kpi_orchestrator;
  step_order = 1;
  status = success;
  duration_ms = some 10;
  details = none;
  error_message = none;
  started_at = 20;
  finished_at = some 21;
}

compute_progress_bound_example : compute_progress 1 (first_step ∷ []) ≤ 100
compute_progress_bound_example = compute_progress_bound 1 (first_step ∷ [])

compute_progress_early_example : compute_progress 1 (first_step ∷ []) ≡ 100
compute_progress_early_example =
    compute_progress_early 1 (first_step ∷ []) ((λ e. refl), tt) (omega arith)

store-IsSound : IsSound store
store-IsSound = record { runs_below = tt; steps_below = tt; once = λ c j n. omega arith }

start_all-IsSound_example :
    IsSound (start_all ((engines, command, 50) ∷ (good_engines, command, 60) ∷ []) store)
start_all-IsSound_example =
    start_all-IsSound ((engines, command, 50) ∷ (good_engines, command, 60) ∷ []) store
      store-IsSound

used_short : (run : ℕ) → length (steps_of run used.steps) ≤ 6
used_short run = omega arith

get_import_job_progress-IsAnswer_example :
    (p : ImportJobProgress) × (get_import_job_progress 4 8 used ≡ done p)
    × IsAnswer (latest_run_for_job 4 8 used.runs) p
get_import_job_progress-IsAnswer_example =
    get_import_job_progress-IsAnswer 4 8 used import_job used_short refl refl
