-- ===== src/Pipeline/Service/Ready.antt =====
-- The statements of the pipeline's tables keep numbers unique and stages successful once at most.
use backend_business_intelli.Prelude.{
  ℕ, suc, ◌<◌, ◌≡◌, refl, sym, ap, ◌∙◌, ◌≢◌, ◌⊎◌, inl, inr, false, Option, none, some, List, [],
  ◌∷◌, ◌++◌, arith,
}
use backend_business_intelli.Pipeline.Base.{
  PipelineStatus, success, PipelineStageName, stage_order, PipelineError, Details, Topic,
  PipelineRun, PipelineStep, Store, done,
}
use backend_business_intelli.Pipeline.Tables.{
  get_run, set_run, on_run, get_step, set_step, start_step, finish_step, add_log, publish_event,
  update_progress, mark_run_running, mark_run_failed, mark_run_success, was_step_successful_for_job,
}
use backend_business_intelli.Pipeline.Triples.{Returns, get_run-set_run}
use backend_business_intelli.Pipeline.Service.Once.{
  IsOnce, StepsBelow, RunsBelow, IsSound, set_run-RunsBelow, StepsBelow-weaken, RunsBelow-weaken,
  StepsBelow-append, set_step-last, get_step-last, IsOnce-append, count-moved, first-count,
}

module _ (run : PipelineRun) where
  abbrev id : ℕ
  id = run.pipeline_run_id

  -- The run's row is there, for the same job.
  abbrev pub IsFiled : Store → Type 0
  IsFiled s =
      (r : PipelineRun) × (get_run id s.runs ≡ some r) × (r.import_job_id ≡ run.import_job_id)

  pub record IsReady (s : Store) : Type 0 where
    pub filed : IsFiled s
    pub sound : IsSound s

  -- Between the start of a step and its end: it is the last one of the table.
  pub record IsBusy (stage : PipelineStageName) (step : ℕ) (s : Store) : Type 0 where
    pub filed : IsFiled s
    pub runs_below : RunsBelow s.next_id s.runs
    pub before : List PipelineStep
    pub last : PipelineStep
    pub split : s.steps ≡ before ++ last ∷ []
    pub steps_below : StepsBelow step before
    pub once : IsOnce before
    pub step_id : last.step_id ≡ step
    pub issued : step < s.next_id
    pub company : last.company_id ≡ run.company_id
    pub job : last.import_job_id ≡ run.import_job_id
    pub name : last.step_name ≡ stage

  -- That no step of the stage has succeeded yet.
  abbrev pub IsFirst : PipelineStageName → Store → Type 0
  IsFirst stage s =
      was_step_successful_for_job run.company_id run.import_job_id stage s.steps ≡ false

  pub on_run-IsReady :
      (f : PipelineRun → PipelineRun)
      → ((x : PipelineRun) → (f x).pipeline_run_id ≡ x.pipeline_run_id)
      → ((x : PipelineRun) → (f x).import_job_id ≡ x.import_job_id)
      → (s : Store) → IsReady s
      → (u : Unit {0}) × (t : Store) × (on_run id f s ≡ (done u, t)) × IsReady t
  unfolding on_run
  on_run-IsReady f k l s h =
      let (r, e, j) = h.filed in
      (
        tt,
        record s { runs = set_run id f s.runs },
        rw (on_run, e),
        record {
          filed = (f r, get_run-set_run id f r s.runs k e, l r ∙ j);
          sound = record {
            runs_below = set_run-RunsBelow s.next_id id f s.runs k h.sound.runs_below;
            steps_below = h.sound.steps_below;
            once = h.sound.once;
          };
        },
      )

  pub mark_run_running-IsReady : Returns IsReady (λ u. IsReady) (mark_run_running id)
  unfolding mark_run_running
  mark_run_running-IsReady s h = on_run-IsReady _ (λ x. refl) (λ x. refl) s h

  pub mark_run_failed-IsReady :
      (stage : PipelineStageName) → Returns IsReady (λ u. IsReady) (mark_run_failed id stage)
  unfolding mark_run_failed
  mark_run_failed-IsReady stage s h = on_run-IsReady _ (λ x. refl) (λ x. refl) s h

  pub mark_run_success-IsReady :
      (stage : PipelineStageName) → Returns IsReady (λ u. IsReady) (mark_run_success id stage)
  unfolding mark_run_success
  mark_run_success-IsReady stage s h = on_run-IsReady _ (λ x. refl) (λ x. refl) s h

  pub update_progress-IsReady :
      (stage : PipelineStageName) → Returns IsReady (λ u. IsReady) (update_progress id stage)
  unfolding update_progress
  update_progress-IsReady stage s h = on_run-IsReady _ (λ x. refl) (λ x. refl) s h

  pub add_log-IsReady :
      (stage : PipelineStageName) (x : PipelineStatus) (ms : ℕ) (e : Option PipelineError)
      → Returns IsReady (λ u. IsReady) (add_log run stage x ms e)
  unfolding add_log
  add_log-IsReady stage x ms e s h = (
    tt,
    (add_log run stage x ms e s).1,
    refl,
    record {
      filed = h.filed;
      sound = record {
        runs_below = h.sound.runs_below;
        steps_below = h.sound.steps_below;
        once = h.sound.once;
      };
    },
  )

  pub publish_event-IsReady :
      (topic : Topic) → Returns IsReady (λ u. IsReady) (publish_event run topic)
  unfolding publish_event
  publish_event-IsReady topic s h = (
    tt,
    (publish_event run topic s).1,
    refl,
    record {
      filed = h.filed;
      sound = record {
        runs_below = h.sound.runs_below;
        steps_below = h.sound.steps_below;
        once = h.sound.once;
      };
    },
  )

  pub start_step-IsBusy :
      (stage : PipelineStageName) (order : ℕ)
      → Returns IsReady (λ step. IsBusy stage step) (start_step id run.company_id stage order)
  unfolding start_step
  start_step-IsBusy stage order s h =
      let (r, e, j) = h.filed in
      let step : PipelineStep = record {
        step_id = s.next_id;
        pipeline_run_id = id;
        company_id = run.company_id;
        import_job_id = r.import_job_id;
        step_name = stage;
        step_order = order;
        status = PipelineStatus.running;
        duration_ms = none;
        details = none;
        error_message = none;
        started_at = s.clock;
        finished_at = none;
      } in
      (
        s.next_id,
        record s { steps = s.steps ++ step ∷ []; next_id = suc s.next_id },
        rw (start_step, e),
        record {
          filed = h.filed;
          runs_below =
              RunsBelow-weaken s.next_id (suc s.next_id) s.runs (omega arith) h.sound.runs_below;
          before = s.steps;
          last = step;
          split = refl;
          steps_below = h.sound.steps_below;
          once = h.sound.once;
          step_id = refl;
          issued = omega arith;
          company = refl;
          job = j;
          name = refl;
        },
      )

  pub finish_step-IsReady :
      (stage : PipelineStageName) (step : ℕ) (x : PipelineStatus) (ms : ℕ) (d : Option Details)
      (err : Option PipelineError) (s : Store)
      → IsBusy stage step s
      → (x ≢ success) ⊎ IsFirst stage s
      → (u : Unit {0}) × (t : Store) × (finish_step step x ms d err s ≡ (done u, t)) × IsReady t
  unfolding finish_step
  finish_step-IsReady stage step x ms d err s b h =
      let f : PipelineStep → PipelineStep = λ t. record t {
        status = x;
        duration_ms = some ms;
        details = d;
        error_message = err;
        finished_at = some s.clock;
      } in
      let found : get_step step s.steps ≡ some b.last =
        rw b.split (get_step-last step b.last b.before b.steps_below b.step_id) in
      let moved : set_step step f s.steps ≡ b.before ++ f b.last ∷ [] =
        rw b.split (set_step-last step f b.last b.before b.steps_below b.step_id) in
      let kept : IsOnce (b.before ++ f b.last ∷ []) =
        IsOnce-append (f b.last) b.before b.once (elim h [
          | inl n ↦ inl n
          | inr e ↦ inr (
              count-moved run.company_id b.last.company_id run.import_job_id b.last.import_job_id
                (stage_order stage) (stage_order b.last.step_name) b.before (sym b.company)
                (sym b.job) (ap (λ n. stage_order n) (sym b.name))
                (first-count run.company_id run.import_job_id stage b.last b.before
                  (rw b.split at e)))
        ]) in
      (
        tt,
        record s { steps = set_step step f s.steps },
        rw (finish_step, found),
        record {
          filed = b.filed;
          sound = record {
            runs_below = b.runs_below;
            steps_below = rw moved (
                StepsBelow-append s.next_id (f b.last) b.before
                  (StepsBelow-weaken step s.next_id b.before (omega (arith, b.issued))
                    b.steps_below)
                  (omega (arith, b.step_id, b.issued)));
            once = rw moved kept;
          };
        },
      )

  pub publish_event-IsBusy :
      (topic : Topic) (stage : PipelineStageName) (step : ℕ)
      → Returns (IsBusy stage step) (λ u. IsBusy stage step) (publish_event run topic)
  unfolding publish_event
  publish_event-IsBusy topic stage step s b = (
    tt,
    (publish_event run topic s).1,
    refl,
    record {
      filed = b.filed;
      runs_below = b.runs_below;
      before = b.before;
      last = b.last;
      split = b.split;
      steps_below = b.steps_below;
      once = b.once;
      step_id = b.step_id;
      issued = b.issued;
      company = b.company;
      job = b.job;
      name = b.name;
    },
  )
