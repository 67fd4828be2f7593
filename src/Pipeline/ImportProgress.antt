-- ===== src/Pipeline/ImportProgress.antt =====
-- `get_import_job_progress` of the repository and of the service.
use backend_business_intelli.Prelude.{
  ℕ, suc, ◌+◌, ◌-◌, ◌*◌, ◌/◌, ◌≤◌, ◌≡◌, refl, Bool, false, not, ◌&&◌, Option, none, some, List, [],
  ◌∷◌, arith, length, ltb, ◌==◌, ==-refl, if◌then◌else◌,
}
use native.Mathlib.Nat.{div-le_of_le-mul}
use backend_business_intelli.Prelude.Sort.{count_row-le, count_row, count_row-order_by}
use backend_business_intelli.Pipeline.Base.{
  PipelineStatus, pending, running, success, failed, skipped, PipelineStageName, summary_engine,
  same_status, stage_order, import_job_not_found, Outcome, done, raised, PipelineRun, PipelineStep,
  ImportJob, Store,
}
use backend_business_intelli.Pipeline.Tables.{
  is_completed, latest_run_for_job, list_steps, steps_of, runs_earlier,
}

pub data ProgressStatus : Type 0 where
  processing completed stopped : ProgressStatus

-- ImportJobProgressResult; `stopped` is "failed".
pub record ImportJobProgress : Type 0 where
  pub job_id : ℕ
  pub status : ProgressStatus
  pub progress : ℕ
  pub current_step : Option PipelineStageName
  pub started_at : ℕ
  pub estimated_remaining_seconds : ℕ
  pub summary_updated : Bool

-- `status_map.get(run.status, "processing")`
unfoldable pub status_map : PipelineStatus → ProgressStatus
status_map success = completed
status_map failed = stopped
status_map _ = processing

abbrev pub find_import : ℕ → List ImportJob → Option ImportJob
find_import id [] = none
find_import id (j ∷ js) = if j.import_job_id == id then some j else find_import id js

abbrev running_step : List PipelineStep → Option PipelineStep
running_step [] = none
running_step (t ∷ ts) = if same_status t.status running then some t else running_step ts

-- The durations of the completed steps, without those that are missing or zero.
abbrev durations : List PipelineStep → List ℕ
durations [] = []
durations (t ∷ ts) = elim t.duration_ms [
  | none ↦ durations ts
  | some d ↦ if not (d == 0) && is_completed t then d ∷ durations ts else durations ts
]

abbrev sum : List ℕ → ℕ
sum [] = 0
sum (d ∷ ds) = d + sum ds

abbrev average : List ℕ → ℕ
average [] = 2000
average (d ∷ ds) = sum (d ∷ ds) / suc (length ds)

abbrev is_summary : PipelineStep → Bool
is_summary t = stage_order t.step_name == stage_order summary_engine && is_completed t

abbrev shown_step : Option PipelineStep → Option PipelineStageName → Option PipelineStageName
shown_step none current = current
shown_step (some t) current = some t.step_name

abbrev one_if : Option PipelineStep → ℕ
one_if none = 0
one_if (some t) = 1

-- The six stages less those that are completed or running: `-` stops at zero, as `max(…, 0)` does.
unfoldable pub remaining_steps : List PipelineStep → ℕ
remaining_steps steps = 6 - count_row is_completed steps - one_if (running_step steps)

unfoldable pub run_progress : ImportJob → PipelineRun → List PipelineStep → ImportJobProgress
unfolding status_map remaining_steps
run_progress job run steps = record {
  job_id = job.import_job_id;
  status = status_map run.status;
  progress = if same_status run.status success then 100 else count_row is_completed steps * 100 / 6;
  current_step = shown_step (running_step steps) run.current_step;
  started_at = run.started_at;
  estimated_remaining_seconds =
      if same_status run.status success
      then 0
      else average (durations steps) * remaining_steps steps / 1000;
  summary_updated = ltb 0 (count_row is_summary steps);
}

-- With no run: whether the import is running or not, it is "processing".
unfoldable pub import_progress : ImportJob → ImportJobProgress
import_progress job = record {
  job_id = job.import_job_id;
  status = if job.is_running then processing else processing;
  progress = 0;
  current_step = none;
  started_at = job.started_at;
  estimated_remaining_seconds = 12;
  summary_updated = false;
}

abbrev pub progress_of : ImportJob → Store → Option PipelineRun → ImportJobProgress
progress_of job s none = import_progress job
progress_of job s (some run) = run_progress job run (list_steps run.pipeline_run_id s.steps)

unfoldable pub get_import_job_progress : (company_id job_id : ℕ) → Store → Outcome ImportJobProgress
unfolding run_progress import_progress list_steps latest_run_for_job
get_import_job_progress company_id job_id s = elim (find_import job_id s.imports) [
  | none ↦ raised import_job_not_found
  | some job ↦
      if not (job.company_id == company_id)
      then raised import_job_not_found
      else done (progress_of job s (latest_run_for_job company_id job_id s.runs))
]

-- What the answer for a job says, by the status of its latest run.
abbrev pub IsAnswerFor : PipelineStatus → ImportJobProgress → Type 0
IsAnswerFor success p =
    (p.status ≡ completed) × (p.progress ≡ 100) × (p.estimated_remaining_seconds ≡ 0)
IsAnswerFor failed p = (p.status ≡ stopped) × (p.progress ≤ 100)
IsAnswerFor _ p = (p.status ≡ processing) × (p.progress ≤ 100)

abbrev pub IsAnswer : Option PipelineRun → ImportJobProgress → Type 0
IsAnswer none p = (p.status ≡ processing) × (p.progress ≡ 0) × (p.summary_updated ≡ false)
IsAnswer (some run) p = IsAnswerFor run.status p

sixths : (n : ℕ) → n ≤ 6 → n * 100 / 6 ≤ 100
sixths n h = div-le_of_le-mul 6 (omega (arith, h))

completed-list_steps :
    (run : ℕ) (ts : List PipelineStep)
    → length (steps_of run ts) ≤ 6
    → count_row is_completed (list_steps run ts) ≤ 6
unfolding list_steps
completed-list_steps run ts h = omega (
  arith,
  count_row-order_by runs_earlier is_completed (steps_of run ts),
  count_row-le is_completed (steps_of run ts),
  h,
)

run_progress-IsAnswerFor :
    (job : ImportJob) (run : PipelineRun) (status : PipelineStatus) (ts : List PipelineStep)
    → run.status ≡ status
    → count_row is_completed ts ≤ 6
    → IsAnswerFor status (run_progress job run ts)
unfolding run_progress status_map
run_progress-IsAnswerFor job run success ts e h = rw e (refl, refl, refl)
run_progress-IsAnswerFor job run failed ts e h = rw e (refl, sixths (count_row is_completed ts) h)
run_progress-IsAnswerFor job run pending ts e h = rw e (refl, sixths (count_row is_completed ts) h)
run_progress-IsAnswerFor job run running ts e h = rw e (refl, sixths (count_row is_completed ts) h)
run_progress-IsAnswerFor job run skipped ts e h = rw e (refl, sixths (count_row is_completed ts) h)

progress_of-IsAnswer :
    (job : ImportJob) (s : Store) (o : Option PipelineRun)
    → ((run : ℕ) → length (steps_of run s.steps) ≤ 6)
    → IsAnswer o (progress_of job s o)
unfolding import_progress
progress_of-IsAnswer job s none h = ground arith
progress_of-IsAnswer job s (some run) h =
    run_progress-IsAnswerFor job run run.status (list_steps run.pipeline_run_id s.steps) refl
      (completed-list_steps run.pipeline_run_id s.steps (h run.pipeline_run_id))

-- The progress of an import job of the company that asks, where no run has more than six steps: with
-- no run it is "processing" with progress 0, whether the import is running or not; with a latest run
-- that succeeded it is completed, with progress 100 and no time left; with one that failed it is
-- "failed"; else it is "processing"; and the progress is never above 100.
pub get_import_job_progress-IsAnswer :
    (company id : ℕ) (s : Store) (job : ImportJob)
    → ((run : ℕ) → length (steps_of run s.steps) ≤ 6)
    → find_import id s.imports ≡ some job
    → job.company_id ≡ company
    → (p : ImportJobProgress) × (get_import_job_progress company id s ≡ done p)
      × IsAnswer (latest_run_for_job company id s.runs) p
unfolding get_import_job_progress
get_import_job_progress-IsAnswer company id s job h found same = (
  progress_of job s (latest_run_for_job company id s.runs),
  rw (get_import_job_progress, found, same, ==-refl company),
  progress_of-IsAnswer job s (latest_run_for_job company id s.runs) h,
)
