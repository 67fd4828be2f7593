-- ===== src/Pipeline/Base.antt =====
-- pipeline/domain/entities.py, and the rows of pipeline/infrastructure/models.py. A reference to a
-- period and the number of an orchestrator run are natural numbers, where zero is the empty string
-- and `None`; neither has blanks around it.
use backend_business_intelli.Prelude.{ℕ, Bool, true, false, Option, List, String}

pub data PipelineStatus : Type 0 where
  pending running success failed skipped : PipelineStatus

pub data PipelineStageName : Type 0 where
  kpi_orchestrator rule_engine recommendation_engine insight_engine : PipelineStageName
  executive_score_engine summary_engine : PipelineStageName

abbrev pub same_status : PipelineStatus → PipelineStatus → Bool
same_status pending pending = true
same_status running running = true
same_status success success = true
same_status failed failed = true
same_status skipped skipped = true
same_status _ _ = false

-- The stage's number in `STAGES`.
abbrev pub stage_order : PipelineStageName → ℕ
stage_order kpi_orchestrator = 1
stage_order rule_engine = 2
stage_order recommendation_engine = 3
stage_order insight_engine = 4
stage_order executive_score_engine = 5
stage_order summary_engine = 6

-- What the stages raise: the errors of the pipeline itself, and those of the engines.
pub data PipelineError : Type 0 where
  run_not_found step_not_found no_periods missing_period_ref missing_run_id : PipelineError
  missing_period_list import_job_not_found : PipelineError
  engine_error : ℕ → PipelineError

pub data Outcome (A : Type 0) : Type 0 where
  done : A → Outcome A
  raised : PipelineError → Outcome A

pub record Period : Type 0 where
  pub period_ref : ℕ
  pub orchestrator_run_id : ℕ

-- `details_json`: of the first stage, of a stage that runs by period, and of a skipped one.
pub data Details : Type 0 where
  kpi_details : Period → List Period → Details
  period_details : List Period → Details
  idempotent_success : Details

pub record PipelineRun : Type 0 where
  pub pipeline_run_id : ℕ
  pub company_id : ℕ
  pub import_job_id : ℕ
  pub template : String
  pub source_system : String
  pub status : PipelineStatus
  pub progress : ℕ
  pub current_step : Option PipelineStageName
  pub correlation_id : Option ℕ
  pub retry_of : Option ℕ
  pub attempt : ℕ
  pub started_at : ℕ
  pub finished_at : Option ℕ

pub record PipelineStep : Type 0 where
  pub step_id : ℕ
  pub pipeline_run_id : ℕ
  pub company_id : ℕ
  pub import_job_id : ℕ
  pub step_name : PipelineStageName
  pub step_order : ℕ
  pub status : PipelineStatus
  pub duration_ms : Option ℕ
  pub details : Option Details
  pub error_message : Option PipelineError
  pub started_at : ℕ
  pub finished_at : Option ℕ

pub record PipelineLog : Type 0 where
  pub pipeline_run_id : ℕ
  pub company_id : ℕ
  pub step_name : PipelineStageName
  pub status : PipelineStatus
  pub duration_ms : ℕ
  pub correlation_id : Option ℕ
  pub error_message : Option PipelineError
  pub created_at : ℕ

-- The topics of pipeline/application/pipeline_event_publisher.py.
pub data Topic : Type 0 where
  pipeline_started step_started step_completed pipeline_failed pipeline_completed : Topic

pub record PipelineEvent : Type 0 where
  pub pipeline_run_id : ℕ
  pub company_id : ℕ
  pub topic : Topic
  pub published_at : ℕ

-- The row of an import job, as far as the pipeline reads it.
pub record ImportJob : Type 0 where
  pub import_job_id : ℕ
  pub company_id : ℕ
  pub is_running : Bool
  pub started_at : ℕ

-- The database, the clock and the next number.
pub record Store : Type 0 where
  pub runs : List PipelineRun
  pub steps : List PipelineStep
  pub logs : List PipelineLog
  pub events : List PipelineEvent
  pub imports : List ImportJob
  pub clock : ℕ
  pub next_id : ℕ

-- What a method does to the database: it returns or raises, and what it wrote stays.
abbrev pub Query : Type 0 → Type 0
Query A = Store → Outcome A × Store

abbrev continue : {B A : Type 0} → (A → Query B) → Outcome A × Store → Outcome B × Store
continue f (done a, s) = f a s
continue f (raised e, s) = (raised e, s)

infixl 5 ◌>>=◌ ◌>>◌
abbrev pub ◌>>=◌ : {B A : Type 0} → Query A → (A → Query B) → Query B
◌>>=◌ q f s = continue f (q s)

abbrev pub ◌>>◌ : {B A : Type 0} → Query A → Query B → Query B
◌>>◌ q r s = continue (λ _. r) (q s)

abbrev pub pure : {A : Type 0} → A → Query A
pure a s = (done a, s)

abbrev pub lift : {A : Type 0} → Outcome A → Query A
lift r s = (r, s)
