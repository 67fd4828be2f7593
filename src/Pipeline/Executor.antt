-- ===== src/Pipeline/Executor.antt =====
-- pipeline/application/pipeline_executor.py. The six engines are code of other modules: they are the
-- fields of an interface, and may answer anything or raise. What they put into the details of a step
-- beside its periods is left out, and so is what they do to their own tables.
use backend_business_intelli.Prelude.{ℕ, Option, List, [], ◌∷◌, String, ◌==◌, if◌then◌else◌}
use backend_business_intelli.Pipeline.Base.{
  PipelineStageName, no_periods, missing_period_ref, missing_run_id, Outcome, done, raised, Period,
  Details, kpi_details,
}

pub record PipelineExecutionContext : Type 0 where
  pub company_id : ℕ
  pub import_job_id : ℕ
  pub template : String
  pub source_system : String
  pub ingest_event_id : Option ℕ
  pub correlation_id : Option ℕ
  pub period_ref : ℕ
  pub orchestrator_run_id : ℕ

pub record Engines : Type 0 where
  -- `kpi_orchestrator.execute`, with the fallback number of the run: the periods of its result
  pub kpi : PipelineExecutionContext → ℕ → Outcome (List Period)
  -- The `execute` of another stage's engine, or `get_summary`.
  pub engine : PipelineStageName → PipelineExecutionContext → Period → Outcome (Unit {0})
  -- The measured duration of a stage.
  pub duration_ms : PipelineStageName → ℕ

-- What the method returns, and the context as it leaves it.
abbrev kpi_result :
    PipelineExecutionContext → Outcome (List Period) → Outcome (Details × PipelineExecutionContext)
kpi_result c (raised e) = raised e
kpi_result c (done []) = raised no_periods
kpi_result c (done (p ∷ ps)) = done (
  kpi_details p (p ∷ ps),
  record c { period_ref = p.period_ref; orchestrator_run_id = p.orchestrator_run_id },
)

unfoldable pub run_kpi_orchestrator :
    Engines → PipelineExecutionContext → ℕ → Outcome (Details × PipelineExecutionContext)
run_kpi_orchestrator e c fallback_run_id = kpi_result c (e.kpi c fallback_run_id)

-- `run_rule_engine` and the methods after it: `_assert_period_context`, and then the engine.
unfoldable pub run_engine :
    Engines → PipelineStageName → PipelineExecutionContext → Period → Outcome (Unit {0})
run_engine e stage c p =
    if p.period_ref == 0
    then raised missing_period_ref
    else if p.orchestrator_run_id == 0
    then raised missing_run_id
    else e.engine stage c p

-- The loop over the periods of a stage: the first one that raises ends it.
unfoldable pub run_periods :
    Engines → PipelineStageName → PipelineExecutionContext → List Period → Outcome (Unit {0})
unfolding run_engine
run_periods e stage c [] = done tt
run_periods e stage c (p ∷ ps) = elim (run_engine e stage c p) [
  | raised x ↦ raised x
  | done u ↦ run_periods e stage c ps
]
