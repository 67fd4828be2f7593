-- ===== src/Pipeline/Triples.antt =====
-- Triples of the pipeline's queries: from a store with one property, a query returns, never raises,
-- and leaves a store with another.
use backend_business_intelli.Prelude.{
  ℕ, suc, ◌≡◌, refl, ◌≢◌, inl, inr, Option, none, some, List, [], ◌∷◌, ◌++◌, Option-cases, arith,
}
use backend_business_intelli.Pipeline.Base.{
  PipelineStatus, success, failed, PipelineStageName, PipelineError, Details, Topic, PipelineRun,
  PipelineStep, Store, Query, done, ◌>>=◌, ◌>>◌,
}
use backend_business_intelli.Pipeline.Tables.{
  get_run, set_run, on_run, get_step, set_step, start_step, finish_step, add_log, publish_event,
  update_progress, mark_run_running, mark_run_failed, mark_run_success, compute_progress,
}

abbrev pub Returns : {A : Type 0} → (Store → Type 0) → (A → Store → Type 0) → Query A → Type 0
Returns {A} P Q q = (s : Store) → P s → (a : A) × (t : Store) × (q s ≡ (done a, t)) × Q a t

pub Returns-bind :
    {B A : Type 0} {P : Store → Type 0} {Q : A → Store → Type 0} {R : B → Store → Type 0}
    (q : Query A) (f : A → Query B)
    → Returns P Q q
    → ((a : A) → Returns (Q a) R (f a))
    → Returns P R (q >>= f)
Returns-bind q f h k s p =
    let (a, t, e, x) = h s p in let (b, u, e', y) = k a t x in (b, u, rw e e', y)

pub Returns-then :
    {B A : Type 0} {P Q : Store → Type 0} {R : B → Store → Type 0} (q : Query A) (r : Query B)
    → Returns P (λ a. Q) q
    → Returns Q R r
    → Returns P R (q >> r)
Returns-then q r h k s p =
    let (a, t, e, x) = h s p in let (b, u, e', y) = k t x in (b, u, rw e e', y)

-- What a query does from one store.
pub Returns-at :
    {A : Type 0} {Q : A → Store → Type 0} (q : Query A) (s : Store)
    → ((a : A) × (t : Store) × (q s ≡ (done a, t)) × Q a t)
    → Returns (λ t. t ≡ s) Q q
Returns-at q s h t e = rw e h

-- The run has a row.
abbrev pub IsPresent : ℕ → Store → Type 0
IsPresent run s = get_run run s.runs ≢ none

-- The run and the step have rows.
abbrev pub IsOpen : ℕ → ℕ → Store → Type 0
IsOpen run step s = IsPresent run s × (get_step step s.steps ≢ none)

pub get_run-set_run :
    (id : ℕ) (f : PipelineRun → PipelineRun) (r : PipelineRun) (rs : List PipelineRun)
    → ((x : PipelineRun) → (f x).pipeline_run_id ≡ x.pipeline_run_id)
    → get_run id rs ≡ some r
    → get_run id (set_run id f rs) ≡ some (f r)
unfolding get_run set_run
get_run-set_run id f r [] k h = cc
get_run-set_run id f r (x ∷ xs) k h = ground (arith, k x, get_run-set_run id f r xs k)

get_step-set_step :
    (id : ℕ) (f : PipelineStep → PipelineStep) (ts : List PipelineStep)
    → ((x : PipelineStep) → (f x).step_id ≡ x.step_id)
    → get_step id ts ≢ none
    → get_step id (set_step id f ts) ≢ none
unfolding get_step set_step
get_step-set_step id f [] k h = h
get_step-set_step id f (x ∷ xs) k h = ground (arith, k x, get_step-set_step id f xs k)

get_step-append :
    (id : ℕ) (t : PipelineStep) (ts : List PipelineStep)
    → t.step_id ≡ id
    → get_step id (ts ++ t ∷ []) ≢ none
unfolding get_step
get_step-append id t [] h = ground (arith)
get_step-append id t (x ∷ xs) h = ground (arith, get_step-append id t xs h)

-- An update of the run's row, with what it makes of the row that was there.
pub on_run-Returns :
    (id : ℕ) (f : PipelineRun → PipelineRun)
    → ((x : PipelineRun) → (f x).pipeline_run_id ≡ x.pipeline_run_id)
    → (s : Store) → IsPresent id s
    → (r : PipelineRun) × (on_run id f s ≡ (done tt, record s { runs = set_run id f s.runs }))
      × (get_run id (set_run id f s.runs) ≡ some (f r))
unfolding on_run
on_run-Returns id f k s p = elim (Option-cases (get_run id s.runs)) [
  | inl e ↦ absurd (p e)
  | inr (r, e) ↦ (r, rw (on_run, e), get_run-set_run id f r s.runs k e)
]

-- The run has a row, with a property.
abbrev pub HasRow : ℕ → (PipelineRun → Type 0) → Store → Type 0
HasRow run Q s = (r : PipelineRun) × (get_run run s.runs ≡ some r) × Q r

abbrev pub IsSucceeded : PipelineRun → Type 0
IsSucceeded r = (r.status ≡ success) × (r.progress ≡ 100) × (r.finished_at ≢ none)

abbrev pub IsFailed : PipelineRun → Type 0
IsFailed r = (r.status ≡ failed) × (r.current_step ≢ none) × (r.finished_at ≢ none)

module _ (run : ℕ) where
  pub mark_run_running-Returns : Returns (IsPresent run) (λ u. IsPresent run) (mark_run_running run)
  unfolding mark_run_running
  mark_run_running-Returns s p =
      let f : PipelineRun → PipelineRun = λ r. record r { status = PipelineStatus.running } in
      let (r, e, g) = on_run-Returns run f (λ x. refl) s p in
      (tt, record s { runs = set_run run f s.runs }, e, λ n. cc)

  pub mark_run_failed-Returns :
      (stage : PipelineStageName)
      → Returns (IsPresent run) (λ u. HasRow run IsFailed) (mark_run_failed run stage)
  unfolding mark_run_failed
  mark_run_failed-Returns stage s p =
      let f : PipelineRun → PipelineRun = λ r. record r {
        status = failed;
        current_step = some stage;
        finished_at = some s.clock;
        progress = compute_progress run s.steps;
      } in
      let (r, e, g) = on_run-Returns run f (λ x. refl) s p in
      (tt, record s { runs = set_run run f s.runs }, e, (f r, g, (refl, (λ n. cc), λ n. cc)))

  pub mark_run_success-Returns :
      (stage : PipelineStageName)
      → Returns (IsPresent run) (λ u. HasRow run IsSucceeded) (mark_run_success run stage)
  unfolding mark_run_success
  mark_run_success-Returns stage s p =
      let f : PipelineRun → PipelineRun = λ r. record r {
        status = success;
        current_step = some stage;
        finished_at = some s.clock;
        progress = 100;
      } in
      let (r, e, g) = on_run-Returns run f (λ x. refl) s p in
      (tt, record s { runs = set_run run f s.runs }, e, (f r, g, (refl, refl, λ n. cc)))

  pub update_progress-Returns :
      (stage : PipelineStageName)
      → Returns (IsPresent run) (λ u. IsPresent run) (update_progress run stage)
  unfolding update_progress
  update_progress-Returns stage s p =
      let f : PipelineRun → PipelineRun =
        λ r. record r { current_step = some stage; progress = compute_progress run s.steps } in
      let (r, e, g) = on_run-Returns run f (λ x. refl) s p in
      (tt, record s { runs = set_run run f s.runs }, e, λ n. cc)

  -- A step that is started has a row, under the number returned.
  pub start_step-Returns :
      (company : ℕ) (stage : PipelineStageName) (order : ℕ)
      → Returns (IsPresent run) (λ id. IsOpen run id) (start_step run company stage order)
  unfolding start_step
  start_step-Returns company stage order s p = elim (Option-cases (get_run run s.runs)) [
    | inl e ↦ absurd (p e)
    | inr (r, e) ↦
        let step : PipelineStep = record {
          step_id = s.next_id;
          pipeline_run_id = run;
          company_id = company;
          import_job_id = r.import_job_id;
          step_name = stage;
          step_order = order;
          status = PipelineStatus.running;
          duration_ms = none;
          details = none;
          error_message = none;
          started_at = s.clock;
          finished_at = none;
        } in
        (
          s.next_id,
          record s { steps = s.steps ++ step ∷ []; next_id = suc s.next_id },
          rw (start_step, e),
          (p, get_step-append s.next_id step s.steps refl),
        )
  ]

  pub finish_step-Returns :
      (step : ℕ) (status : PipelineStatus) (ms : ℕ) (d : Option Details) (x : Option PipelineError)
      → Returns (IsOpen run step) (λ u. IsPresent run) (finish_step step status ms d x)
  unfolding finish_step
  finish_step-Returns step status ms d x s (p, o) = elim (Option-cases (get_step step s.steps)) [
    | inl e ↦ absurd (o e)
    | inr (t, e) ↦ (
      tt,
      record s {
        steps =
            set_step step
              (λ t. record t {
                status = status;
                duration_ms = some ms;
                details = d;
                error_message = x;
                finished_at = some s.clock;
              })
              s.steps;
      },
      rw (finish_step, e),
      p,
    )
  ]

-- Logs and events leave the runs and the steps alone.
pub add_log-Returns :
    (P : List PipelineRun → List PipelineStep → Type 0) (r : PipelineRun)
    (stage : PipelineStageName) (x : PipelineStatus) (ms : ℕ) (e : Option PipelineError)
    → Returns (λ s. P s.runs s.steps) (λ u s. P s.runs s.steps) (add_log r stage x ms e)
unfolding add_log
add_log-Returns P r stage x ms e s p = (tt, (add_log r stage x ms e s).1, refl, p)

pub publish_event-Returns :
    (P : List PipelineRun → List PipelineStep → Type 0) (r : PipelineRun) (topic : Topic)
    → Returns (λ s. P s.runs s.steps) (λ u s. P s.runs s.steps) (publish_event r topic)
unfolding publish_event
publish_event-Returns P r topic s p = (tt, (publish_event r topic s).1, refl, p)
