-- ===== src/Pipeline/Service.antt =====
-- pipeline/application/pipeline_service.py: `start` and what it calls.
pub mod Ending
pub mod Once
pub mod Ready
pub mod History
use backend_business_intelli.Prelude.{
  ℕ, Bool, true, false, Option, none, some, List, [], ◌∷◌, String, ◌==◌, ◌||◌, if◌then◌else◌,
}
use backend_business_intelli.Pipeline.Base.{
  PipelineStatus, success, failed, skipped, PipelineStageName, kpi_orchestrator, rule_engine,
  recommendation_engine, insight_engine, executive_score_engine, summary_engine, PipelineError,
  missing_period_list, run_not_found, Outcome, done, raised, Period, Details, kpi_details,
  period_details, idempotent_success, PipelineRun, pipeline_started, step_started, step_completed,
  pipeline_failed, pipeline_completed, Store, Query, ◌>>=◌, ◌>>◌, pure, lift,
}
use backend_business_intelli.Pipeline.Tables.{
  RunRequest, create_or_reuse_run, get_run, mark_run_running, mark_run_failed, mark_run_success,
  update_progress, start_step, finish_step, was_step_successful_for_job,
  get_last_success_step_details, add_log, publish_event,
}
use backend_business_intelli.Pipeline.Executor.{
  PipelineExecutionContext, Engines, run_kpi_orchestrator, run_periods,
}

abbrev pub stages : List (ℕ × PipelineStageName)
stages =
    (1, kpi_orchestrator)
    ∷ (2, rule_engine)
    ∷ (3, recommendation_engine)
    ∷ (4, insight_engine)
    ∷ (5, executive_score_engine)
    ∷ (6, summary_engine)
    ∷ []

pub record StartPipelineCommand : Type 0 where
  pub request : RunRequest
  pub ingest_event_id : Option ℕ

-- The periods with both references.
abbrev normalized : List Period → List Period
normalized [] = []
normalized (p ∷ ps) =
    if p.period_ref == 0 || p.orchestrator_run_id == 0 then normalized ps else p ∷ normalized ps

abbrev or_period : List Period → Period → List Period → List Period
or_period [] p rest = if p.period_ref == 0 || p.orchestrator_run_id == 0 then rest else p ∷ []
or_period (q ∷ qs) p rest = q ∷ qs

abbrev or_periods : List Period → List Period → List Period
or_periods [] rest = rest
or_periods (p ∷ ps) rest = p ∷ ps

abbrev context_period : PipelineExecutionContext → List Period
context_period c =
    or_period [] (record { period_ref = c.period_ref; orchestrator_run_id = c.orchestrator_run_id })
      []

unfoldable pub period_contexts_from_kpi_details :
    Option Details → PipelineExecutionContext → List Period
period_contexts_from_kpi_details none c = context_period c
period_contexts_from_kpi_details (some (kpi_details p ps)) c =
    or_period (normalized ps) p (context_period c)
period_contexts_from_kpi_details (some (period_details ps)) c =
    or_periods (normalized ps) (context_period c)
period_contexts_from_kpi_details (some idempotent_success) c = context_period c

abbrev or_keep : ℕ → ℕ → ℕ
or_keep new old = if new == 0 then old else new

unfoldable pub hydrate_context :
    Option Details → PipelineExecutionContext → PipelineExecutionContext
hydrate_context (some (kpi_details p ps)) c = record c {
  period_ref = or_keep p.period_ref c.period_ref;
  orchestrator_run_id = or_keep p.orchestrator_run_id c.orchestrator_run_id;
}
hydrate_context _ c = c

-- The context and the list of periods, which one stage passes to the next.
pub record Progress : Type 0 where
  pub context : PipelineExecutionContext
  pub period_contexts : List Period

abbrev by_period :
    Engines
    → PipelineStageName
    → PipelineExecutionContext
    → List Period
    → Outcome (Details × PipelineExecutionContext)
by_period e stage c [] = raised missing_period_list
by_period e stage c (p ∷ ps) = elim (run_periods e stage c (p ∷ ps)) [
  | raised x ↦ raised x
  | done u ↦ done (period_details (p ∷ ps), c)
]

-- `_execute_stage`
unfoldable pub execute_stage :
    Engines
    → PipelineStageName
    → (fallback_run_id : ℕ) → Progress
    → Outcome (Details × PipelineExecutionContext)
unfolding run_kpi_orchestrator run_periods period_contexts_from_kpi_details
execute_stage e kpi_orchestrator fallback_run_id g =
    run_kpi_orchestrator e g.context fallback_run_id
execute_stage e stage fallback_run_id g =
    by_period e stage g.context
      (or_periods g.period_contexts (period_contexts_from_kpi_details none g.context))

-- The state after a stage that was executed.
abbrev executed : PipelineStageName → Progress → Details × PipelineExecutionContext → Progress
executed kpi_orchestrator g (d, c) = record {
  context = c;
  period_contexts = period_contexts_from_kpi_details (some d) c;
}
executed stage g (d, c) = record g { context = c }

-- The state after a stage that was skipped, by the details of its last success.
abbrev restored : PipelineStageName → Progress → Option Details → Progress
restored kpi_orchestrator g d =
    let c = hydrate_context d g.context in
    record { context = c; period_contexts = period_contexts_from_kpi_details d c }
restored stage g d = g

-- The bookkeeping after a stage, executed or skipped.
unfoldable pub close_step :
    Engines → PipelineRun → PipelineStageName → ℕ → PipelineStatus → Details → Query (Unit {0})
unfolding finish_step add_log publish_event update_progress
close_step e run stage step_id status details =
    finish_step step_id status (e.duration_ms stage) (some details) none
    >> add_log run stage status (e.duration_ms stage) none
    >> publish_event run step_completed
    >> update_progress run.pipeline_run_id stage

-- The `except` block of the loop, up to the reading of the run.
unfoldable pub fail_step :
    Engines → PipelineRun → PipelineStageName → ℕ → PipelineError → Query (Unit {0})
unfolding finish_step add_log publish_event mark_run_failed
fail_step e run stage step_id x =
    finish_step step_id failed (e.duration_ms stage) none (some x)
    >> add_log run stage failed (e.duration_ms stage) (some x)
    >> mark_run_failed run.pipeline_run_id stage
    >> publish_event run pipeline_failed

-- `repository.get_run`, which raises if there is none.
abbrev pub require_run : ℕ → Query PipelineRun
require_run id s = elim (get_run id s.runs) [
  | none ↦ (raised run_not_found, s)
  | some r ↦ (done r, s)
]

abbrev pub end_failed :
    Engines → PipelineRun → PipelineStageName → ℕ → PipelineError → Query PipelineRun
end_failed e run stage step_id x =
    fail_step e run stage step_id x >> require_run run.pipeline_run_id

unfoldable pub end_success : PipelineRun → Query PipelineRun
unfolding mark_run_success publish_event
end_success run =
    mark_run_success run.pipeline_run_id summary_engine
    >> publish_event run pipeline_completed
    >> require_run run.pipeline_run_id

-- The `try` block: what raises in it is handled by the `except` block.
unfoldable pub try_stage : Engines → PipelineRun → PipelineStageName → ℕ → Progress → Query Progress
unfolding execute_stage close_step
try_stage e run stage step_id g s = elim (execute_stage e stage run.pipeline_run_id g) [
  | raised x ↦ (raised x, s)
  | done r ↦ (close_step e run stage step_id success (r.0) >> pure (executed stage g r)) s
]

-- A stage's step is inserted and announced; its number is returned.
unfoldable pub announce_step : PipelineRun → ℕ → PipelineStageName → Query ℕ
unfolding start_step publish_event
announce_step run order stage = start_step run.pipeline_run_id run.company_id stage order >>= λ id.
    publish_event run step_started >> pure id

-- The loop over the stages.
unfoldable pub run_stages :
    Engines → PipelineRun → List (ℕ × PipelineStageName) → Progress → Query PipelineRun
unfolding try_stage end_success announce_step was_step_successful_for_job fail_step
    get_last_success_step_details
run_stages e run [] g s = end_success run s
run_stages e run ((order, stage) ∷ rest) g s =
    (announce_step run order stage >>= λ id s'.
    elim (was_step_successful_for_job run.company_id run.import_job_id stage s'.steps) [
      | true ↦
          (close_step e run stage id skipped idempotent_success
              >> run_stages e run rest (
                  restored stage g (
                    get_last_success_step_details run.company_id run.import_job_id stage s'.steps)))
            s'
      | false ↦
          let (answer, t) = try_stage e run stage id g s' in
          elim answer [
            | raised x ↦ end_failed e run stage id x t
            | done g' ↦ run_stages e run rest g' t
          ]
    ])
      s

abbrev first_progress : StartPipelineCommand → Progress
first_progress k = record {
  context = record {
    company_id = k.request.company_id;
    import_job_id = k.request.import_job_id;
    template = k.request.template;
    source_system = k.request.source_system;
    ingest_event_id = k.ingest_event_id;
    correlation_id = k.request.correlation_id;
    period_ref = 0;
    orchestrator_run_id = 0;
  };
  period_contexts = [];
}

-- A run that was just inserted: marked, announced, and taken through the stages.
abbrev pub run_fresh : Engines → StartPipelineCommand → PipelineRun → Query PipelineRun
run_fresh e k run =
    mark_run_running run.pipeline_run_id
    >> publish_event run pipeline_started
    >> run_stages e run stages (first_progress k)

-- The run as it is returned, and whether it was reused.
unfoldable pub start : Engines → StartPipelineCommand → Query (PipelineRun × Bool)
unfolding create_or_reuse_run run_stages
start e k s =
    let ((run, reused), s') = create_or_reuse_run k.request s in
    if reused
    then (done (run, true), s')
    else (run_fresh e k run >>= λ ended. pure (ended, false)) s'
