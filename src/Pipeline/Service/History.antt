-- ===== src/Pipeline/Service/History.antt =====
-- What any number of calls of `start` leaves in the table of steps.
use backend_business_intelli.Prelude.{
  ℕ, suc, ◌≡◌, refl, ap, ◌≢◌, ◌⊎◌, inl, inr, none, some, List, [], ◌∷◌, ◌++◌, arith, Bool-cases,
}
use backend_business_intelli.Pipeline.Base.{
  PipelineStatus, success, failed, skipped, PipelineStageName, summary_engine, PipelineError,
  Details, idempotent_success, pipeline_started, step_started, step_completed, pipeline_failed,
  pipeline_completed, PipelineRun, Store, done,
}
use backend_business_intelli.Pipeline.Tables.{finish_step, was_step_successful_for_job}
use backend_business_intelli.Pipeline.Executor.{Engines, PipelineExecutionContext}
use backend_business_intelli.Pipeline.Triples.{Returns, Returns-bind, Returns-then, Returns-at}
use backend_business_intelli.Pipeline.Service.{
  StartPipelineCommand, Progress, stages, close_step, fail_step, require_run, end_failed,
  end_success, try_stage, execute_stage, announce_step, run_stages, run_fresh, start,
}
use backend_business_intelli.Pipeline.Service.Ending.{
  Outcome-cases, try_stage-raised, create_or_reuse_run-cases,
}
use backend_business_intelli.Pipeline.Service.Once.{
  IsSound, RunsBelow-weaken, RunsBelow-append, StepsBelow-weaken, get_run-last,
}
use backend_business_intelli.Pipeline.Service.Ready.{
  IsReady, IsBusy, IsFirst, mark_run_running-IsReady, mark_run_failed-IsReady,
  mark_run_success-IsReady, update_progress-IsReady, add_log-IsReady, publish_event-IsReady,
  publish_event-IsBusy, start_step-IsBusy, finish_step-IsReady,
}

module _ (e : Engines) (run : PipelineRun) where
  abbrev id : ℕ
  id = run.pipeline_run_id

  announce_step-IsBusy :
      (stage : PipelineStageName) (order : ℕ)
      → Returns (IsReady run) (λ step. IsBusy run stage step) (announce_step run order stage)
  unfolding announce_step
  announce_step-IsBusy stage order =
      Returns-bind {Q = λ step. IsBusy run stage step} {R = λ step. IsBusy run stage step} _ _
        (start_step-IsBusy run stage order)
        (λ step.
          Returns-then _ _ (publish_event-IsBusy run step_started stage step)
            (λ s b. (step, s, refl, b)))

  require_run-IsReady : Returns (IsReady run) (λ r. IsReady run) (require_run id)
  require_run-IsReady s h = let (r, f, j) = h.filed in (r, s, rw (require_run, f), h)

  close_step-IsReady :
      (stage : PipelineStageName) (step : ℕ) (x : PipelineStatus) (d : Details) (s : Store)
      → IsBusy run stage step s
      → (x ≢ success) ⊎ IsFirst run stage s
      → (u : Unit {0}) × (t : Store) × (close_step e run stage step x d s ≡ (done u, t))
        × IsReady run t
  unfolding close_step
  close_step-IsReady stage step x d s b h =
      Returns-then {P = λ t. t ≡ s} _ _
        (Returns-then _ _
          (Returns-then _ _
            (Returns-at (finish_step step x (e.duration_ms stage) (some d) none) s
              (finish_step-IsReady run stage step x (e.duration_ms stage) (some d) none s b h))
            (add_log-IsReady run stage x (e.duration_ms stage) none))
          (publish_event-IsReady run step_completed))
        (update_progress-IsReady run stage) s refl

  end_failed-IsReady :
      (stage : PipelineStageName) (step : ℕ) (x : PipelineError) (s : Store)
      → IsBusy run stage step s
      → (r : PipelineRun) × (t : Store) × (end_failed e run stage step x s ≡ (done r, t))
        × IsReady run t
  unfolding fail_step
  end_failed-IsReady stage step x s b =
      Returns-then {P = λ t. t ≡ s} _ _
        (Returns-then _ _
          (Returns-then _ _
            (Returns-then _ _
              (Returns-at (finish_step step failed (e.duration_ms stage) none (some x)) s (
                finish_step-IsReady run stage step failed (e.duration_ms stage) none (some x) s b
                  (inl (λ n. cc))))
              (add_log-IsReady run stage failed (e.duration_ms stage) (some x)))
            (mark_run_failed-IsReady run stage))
          (publish_event-IsReady run pipeline_failed))
        require_run-IsReady s refl

  end_success-IsReady : Returns (IsReady run) (λ r. IsReady run) (end_success run)
  unfolding end_success
  end_success-IsReady =
      Returns-then _ _
        (Returns-then _ _ (mark_run_success-IsReady run summary_engine)
          (publish_event-IsReady run pipeline_completed))
        require_run-IsReady

  executed_stage-IsReady :
      (stage : PipelineStageName) (step : ℕ) (g : Progress) (r : Details × PipelineExecutionContext)
      (s : Store)
      → execute_stage e stage id g ≡ done r
      → IsBusy run stage step s
      → IsFirst run stage s
      → (g' : Progress) × (t : Store) × (try_stage e run stage step g s ≡ (done g', t))
        × IsReady run t
  unfolding try_stage
  executed_stage-IsReady stage step g r s h b first =
      rw (try_stage, h)
        (Returns-then {P = λ t. t ≡ s} _ _
          (Returns-at (close_step e run stage step success r.0) s
            (close_step-IsReady stage step success r.0 s b (inr first)))
          (λ t k. (_, t, refl, k)) s refl)

  run_stages-IsReady :
      (ss : List (ℕ × PipelineStageName)) (g : Progress)
      → Returns (IsReady run) (λ r. IsReady run) (run_stages e run ss g)
  unfolding run_stages
  run_stages-IsReady [] g s h = end_success-IsReady s h
  run_stages-IsReady ((order, stage) ∷ rest) g s h =
      Returns-bind {Q = λ step. IsBusy run stage step} {R = λ r. IsReady run} _ _
        (announce_step-IsBusy stage order)
        (λ step s' b.
          elim (Bool-cases
            (was_step_successful_for_job run.company_id run.import_job_id stage s'.steps)) [
              | inl y ↦ rw y (
                  Returns-then {P = λ t. t ≡ s'} _ _
                    (Returns-at (close_step e run stage step skipped idempotent_success) s' (
                      close_step-IsReady stage step skipped idempotent_success s' b
                        (inl (λ n. cc))))
                    (run_stages-IsReady rest _) s' refl)
              | inr n ↦ elim (Outcome-cases (execute_stage e stage id g)) [
                | inl (r, d) ↦
                    let (g', t, q', k) = executed_stage-IsReady stage step g r s' d b n in
                    rw (n, q', ap (λ x. x.1) q') (run_stages-IsReady rest g' t k)
                | inr (x, d) ↦
                    let h' = try_stage-raised e run stage step g x s' d in
                    rw (n, h', ap (λ x. x.1) h') (end_failed-IsReady stage step x s' b)
              ]
            ])
        s h

run_fresh-IsReady :
    (e : Engines) (k : StartPipelineCommand) (run : PipelineRun)
    → Returns (IsReady run) (λ r. IsReady run) (run_fresh e k run)
run_fresh-IsReady e k run =
    Returns-then _ _
      (Returns-then _ _ (mark_run_running-IsReady run) (publish_event-IsReady run pipeline_started))
      (run_stages-IsReady e run stages _)

inserted-IsReady :
    (r : PipelineRun) (s : Store)
    → r.pipeline_run_id ≡ s.next_id
    → IsSound s
    → IsReady r (record s { runs = s.runs ++ r ∷ []; next_id = suc s.next_id })
inserted-IsReady r s i h = record {
  filed = (r, get_run-last r s.runs (rw i h.runs_below), refl);
  sound = record {
    runs_below =
        RunsBelow-append (suc s.next_id) r s.runs
          (RunsBelow-weaken s.next_id (suc s.next_id) s.runs (omega arith) h.runs_below)
          (omega (arith, i));
    steps_below = StepsBelow-weaken s.next_id (suc s.next_id) s.steps (omega arith) h.steps_below;
    once = h.once;
  };
}

start-IsSound :
    (e : Engines) (k : StartPipelineCommand) (s : Store) → IsSound s → IsSound (start e k s).1
unfolding start
start-IsSound e k s h = elim (create_or_reuse_run-cases k.request s) [
  | inl (r, c) ↦ rw (start, c) h
  | inr (r, i, c) ↦
      let inserted : Store = record s { runs = s.runs ++ r ∷ []; next_id = suc s.next_id } in
      let (ended, t, q, ready) = run_fresh-IsReady e k r inserted (inserted-IsReady r s i h) in
      rw (start, c, q) ready.sound
]

-- Calls of `start` one after another, each with its engines and at its time.
abbrev pub start_all : List (Engines × StartPipelineCommand × ℕ) → Store → Store
start_all [] s = s
start_all ((e, k, now) ∷ calls) s = start_all calls (start e k (record s { clock = now })).1

-- Whatever calls of `start` follow one another, at whatever times, on whatever jobs and with whatever
-- engines, from a store in which every run and step has a number below the next one to be handed out
-- and no stage of a job has two successful steps: so it is after them. No stage of a job is ever
-- recorded as done twice.
pub start_all-IsSound :
    (calls : List (Engines × StartPipelineCommand × ℕ)) (s : Store)
    → IsSound s
    → IsSound (start_all calls s)
start_all-IsSound [] s h = h
start_all-IsSound ((e, k, now) ∷ calls) s h =
    start_all-IsSound calls (start e k (record s { clock = now })).1 (
      start-IsSound e k (record s { clock = now })
        (record { runs_below = h.runs_below; steps_below = h.steps_below; once = h.once }))
