-- ===== src/Pipeline/Tables.antt =====
-- pipeline/infrastructure/repositories.py. A table is the list of its rows in the order of insertion.
use backend_business_intelli.Prelude.{
  ℕ, zero, suc, ◌+◌, ◌*◌, ◌/◌, Bool, true, false, not, ◌&&◌, ◌||◌, Option, none, some, List, [],
  ◌∷◌, ◌++◌, String, ltb, ◌==◌, if◌then◌else◌, length,
}
use backend_business_intelli.Prelude.Sort.{order_by, where_row, count_row}
use backend_business_intelli.Pipeline.Base.{
  PipelineStatus, pending, running, success, failed, skipped, PipelineStageName, same_status,
  stage_order, PipelineError, run_not_found, step_not_found, done, raised, Details, PipelineRun,
  PipelineStep, PipelineLog, Topic, PipelineEvent, Store, Query,
}

unfoldable pub get_run : ℕ → List PipelineRun → Option PipelineRun
get_run id [] = none
get_run id (r ∷ rs) = if r.pipeline_run_id == id then some r else get_run id rs

unfoldable pub set_run : ℕ → (PipelineRun → PipelineRun) → List PipelineRun → List PipelineRun
set_run id f [] = []
set_run id f (r ∷ rs) = (if r.pipeline_run_id == id then f r else r) ∷ set_run id f rs

-- `_require_run`, and then the assignments to the row.
unfoldable pub on_run : ℕ → (PipelineRun → PipelineRun) → Query (Unit {0})
unfolding get_run set_run
on_run id f s = elim (get_run id s.runs) [
  | none ↦ (raised run_not_found, s)
  | some r ↦ (done tt, record s { runs = set_run id f s.runs })
]

-- `ORDER BY started_at DESC`
abbrev pub later : PipelineRun → PipelineRun → Bool
later a b = ltb b.started_at a.started_at

abbrev pub first_run : List PipelineRun → Option PipelineRun
first_run [] = none
first_run (r ∷ rs) = some r

-- The condition of the query.
abbrev pub is_run_of : (company_id import_job_id : ℕ) → PipelineRun → Bool
is_run_of company_id import_job_id r =
    r.company_id == company_id && r.import_job_id == import_job_id

unfoldable pub latest_run_for_job :
    (company_id import_job_id : ℕ) → List PipelineRun → Option PipelineRun
unfolding order_by
latest_run_for_job company_id import_job_id runs =
    first_run (order_by later (where_row (is_run_of company_id import_job_id) runs))

-- The arguments of `create_or_reuse_run`.
pub record RunRequest : Type 0 where
  pub company_id : ℕ
  pub import_job_id : ℕ
  pub template : String
  pub source_system : String
  pub correlation_id : Option ℕ
  pub allow_retry : Bool

unfoldable pub is_reused : (allow_retry : Bool) → PipelineStatus → Bool
is_reused allow_retry pending = true
is_reused allow_retry running = true
is_reused allow_retry success = true
is_reused allow_retry failed = not allow_retry
is_reused allow_retry skipped = false

abbrev retry_of : Option PipelineRun → Option ℕ
retry_of none = none
retry_of (some r) = if same_status r.status failed then some r.pipeline_run_id else none

abbrev next_attempt : (allow_retry : Bool) → Option PipelineRun → ℕ
next_attempt allow_retry none = 1
next_attempt allow_retry (some r) =
    if same_status r.status failed && allow_retry then r.attempt + 1 else 1

unfoldable pub new_run : RunRequest → Option PipelineRun → (id now : ℕ) → PipelineRun
new_run q latest id now = record {
  pipeline_run_id = id;
  company_id = q.company_id;
  import_job_id = q.import_job_id;
  template = q.template;
  source_system = q.source_system;
  status = pending;
  progress = 0;
  current_step = none;
  correlation_id = q.correlation_id;
  retry_of = retry_of latest;
  attempt = next_attempt q.allow_retry latest;
  started_at = now;
  finished_at = none;
}

abbrev pub insert_run : RunRequest → Option PipelineRun → Store → (PipelineRun × Bool) × Store
insert_run q latest s =
    let run = new_run q latest s.next_id s.clock in
    ((run, false), record s { runs = s.runs ++ run ∷ []; next_id = suc s.next_id })

abbrev pub reuse_or_insert : RunRequest → Option PipelineRun → Store → (PipelineRun × Bool) × Store
reuse_or_insert q none s = insert_run q none s
reuse_or_insert q (some r) s =
    if is_reused q.allow_retry r.status then ((r, true), s) else insert_run q (some r) s

-- The run, and whether it was there before.
unfoldable pub create_or_reuse_run : RunRequest → Store → (PipelineRun × Bool) × Store
unfolding latest_run_for_job is_reused new_run
create_or_reuse_run q s =
    reuse_or_insert q (latest_run_for_job q.company_id q.import_job_id s.runs) s

-- A step that counts as completed.
abbrev pub is_completed : PipelineStep → Bool
is_completed t = same_status t.status success || same_status t.status skipped

abbrev pub steps_of : ℕ → List PipelineStep → List PipelineStep
steps_of run steps = where_row (λ t. t.pipeline_run_id == run) steps

-- `int(completed / total * 100)`: for the six steps of a run at most, the division of floats rounds
-- down to the same number.
unfoldable pub percentage : (completed total : ℕ) → ℕ
percentage completed zero = 0
percentage completed (suc n) = completed * 100 / suc n

unfoldable pub compute_progress : ℕ → List PipelineStep → ℕ
unfolding percentage
compute_progress run steps =
    percentage (count_row is_completed (steps_of run steps)) (length (steps_of run steps))

unfoldable pub mark_run_running : ℕ → Query (Unit {0})
unfolding on_run
mark_run_running id = on_run id (λ r. record r { status = running })

unfoldable pub mark_run_failed : ℕ → PipelineStageName → Query (Unit {0})
unfolding on_run compute_progress
mark_run_failed id stage s =
    on_run id
      (λ r. record r {
        status = failed;
        current_step = some stage;
        finished_at = some s.clock;
        progress = compute_progress id s.steps;
      })
      s

unfoldable pub mark_run_success : ℕ → PipelineStageName → Query (Unit {0})
unfolding on_run
mark_run_success id stage s =
    on_run id
      (λ r. record r {
        status = success;
        current_step = some stage;
        finished_at = some s.clock;
        progress = 100;
      })
      s

unfoldable pub update_progress : ℕ → PipelineStageName → Query (Unit {0})
unfolding on_run compute_progress
update_progress id stage s =
    on_run id (λ r. record r { current_step = some stage; progress = compute_progress id s.steps })
      s

unfoldable pub get_step : ℕ → List PipelineStep → Option PipelineStep
get_step id [] = none
get_step id (t ∷ ts) = if t.step_id == id then some t else get_step id ts

unfoldable pub set_step : ℕ → (PipelineStep → PipelineStep) → List PipelineStep → List PipelineStep
set_step id f [] = []
set_step id f (t ∷ ts) = (if t.step_id == id then f t else t) ∷ set_step id f ts

-- The step's number is returned.
unfoldable pub start_step : (run company_id : ℕ) → PipelineStageName → ℕ → Query ℕ
unfolding get_run
start_step run company_id stage order s = elim (get_run run s.runs) [
  | none ↦ (raised run_not_found, s)
  | some r ↦
      let step : PipelineStep = record {
        step_id = s.next_id;
        pipeline_run_id = run;
        company_id = company_id;
        import_job_id = r.import_job_id;
        step_name = stage;
        step_order = order;
        status = running;
        duration_ms = none;
        details = none;
        error_message = none;
        started_at = s.clock;
        finished_at = none;
      } in
      (done s.next_id, record s { steps = s.steps ++ step ∷ []; next_id = suc s.next_id })
]

unfoldable pub finish_step :
    ℕ
    → PipelineStatus
    → (duration_ms : ℕ) → Option Details
    → Option PipelineError
    → Query (Unit {0})
unfolding get_step set_step
finish_step id status duration_ms details error_message s = elim (get_step id s.steps) [
  | none ↦ (raised step_not_found, s)
  | some t ↦ (
    done tt,
    record s {
      steps =
          set_step id
            (λ t. record t {
              status = status;
              duration_ms = some duration_ms;
              details = details;
              error_message = error_message;
              finished_at = some s.clock;
            })
            s.steps;
    },
  )
]

abbrev pub is_success_of : (company_id import_job_id : ℕ) → PipelineStageName → PipelineStep → Bool
is_success_of company_id import_job_id stage t =
    t.company_id == company_id
    && (t.import_job_id == import_job_id
        && (stage_order t.step_name == stage_order stage && same_status t.status success))

unfoldable pub was_step_successful_for_job :
    (company_id import_job_id : ℕ) → PipelineStageName → List PipelineStep → Bool
was_step_successful_for_job company_id import_job_id stage steps =
    ltb 0 (count_row (is_success_of company_id import_job_id stage) steps)

-- `ORDER BY finished_at DESC`, where a step that has not finished comes first.
abbrev finished_later : PipelineStep → PipelineStep → Bool
finished_later a b = elim b.finished_at [
  | none ↦ false
  | some y ↦ elim a.finished_at [ none ↦ true | some x ↦ ltb y x ]
]

abbrev has_details : Option Details → Bool
has_details none = false
has_details (some d) = true

abbrev details_of : List PipelineStep → Option Details
details_of [] = none
details_of (t ∷ ts) = t.details

unfoldable pub get_last_success_step_details :
    (company_id import_job_id : ℕ) → PipelineStageName → List PipelineStep → Option Details
unfolding order_by
get_last_success_step_details company_id import_job_id stage steps = details_of (
    order_by finished_later (
      where_row (λ t. is_success_of company_id import_job_id stage t && has_details t.details)
        steps))

unfoldable pub add_log :
    PipelineRun
    → PipelineStageName
    → PipelineStatus
    → (duration_ms : ℕ) → Option PipelineError
    → Query (Unit {0})
add_log run stage status duration_ms error_message s =
    let log : PipelineLog = record {
      pipeline_run_id = run.pipeline_run_id;
      company_id = run.company_id;
      step_name = stage;
      status = status;
      duration_ms = duration_ms;
      correlation_id = run.correlation_id;
      error_message = error_message;
      created_at = s.clock;
    } in
    (done tt, record s { logs = s.logs ++ log ∷ [] })

unfoldable pub publish_event : PipelineRun → Topic → Query (Unit {0})
publish_event run topic s =
    let event : PipelineEvent = record {
      pipeline_run_id = run.pipeline_run_id;
      company_id = run.company_id;
      topic = topic;
      published_at = s.clock;
    } in
    (done tt, record s { events = s.events ++ event ∷ [] })

-- `ORDER BY step_order, started_at`
abbrev pub runs_earlier : PipelineStep → PipelineStep → Bool
runs_earlier a b =
    ltb a.step_order b.step_order || (a.step_order == b.step_order && ltb a.started_at b.started_at)

unfoldable pub list_steps : ℕ → List PipelineStep → List PipelineStep
unfolding order_by
list_steps run steps = order_by runs_earlier (steps_of run steps)
