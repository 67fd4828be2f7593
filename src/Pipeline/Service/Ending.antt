-- ===== src/Pipeline/Service/Ending.antt =====
-- How `start` ends.
use backend_business_intelli.Prelude.{
  ℕ, suc, ◌≡◌, refl, ◌≢◌, ◌⊎◌, inl, inr, Bool, true, false, none, some, List, [], ◌∷◌, ◌++◌, arith,
  Bool-cases, Option-cases,
}
use backend_business_intelli.Pipeline.Base.{
  PipelineStageName, PipelineError, PipelineRun, Store, Outcome, done, raised,
}
use backend_business_intelli.Pipeline.Tables.{
  RunRequest, get_run, create_or_reuse_run, new_run, latest_run_for_job, is_reused,
}
use backend_business_intelli.Pipeline.Executor.{Engines}
use backend_business_intelli.Pipeline.Triples.{IsSucceeded, IsFailed}
use backend_business_intelli.Pipeline.Service.{Progress, try_stage, execute_stage}

-- What a fresh run comes to: it succeeded, or failed at a stage; and its row is the one returned.
abbrev pub IsEnded : ℕ → PipelineRun → Store → Type 0
IsEnded run r s = (get_run run s.runs ≡ some r) × (IsSucceeded r ⊎ IsFailed r)

pub Outcome-cases :
    {A : Type 0} (o : Outcome A) → ((a : A) × (o ≡ done a)) ⊎ ((x : PipelineError) × (o ≡ raised x))
Outcome-cases (done a) = inl (a, refl)
Outcome-cases (raised x) = inr (x, refl)

module _ (e : Engines) (run : PipelineRun) where
  abbrev id : ℕ
  id = run.pipeline_run_id

  pub try_stage-raised :
      (stage : PipelineStageName) (step : ℕ) (g : Progress) (x : PipelineError) (s : Store)
      → execute_stage e stage id g ≡ raised x
      → try_stage e run stage step g s ≡ (raised x, s)
  unfolding try_stage
  try_stage-raised stage step g x s h = rw (try_stage, h)

pub get_run-append :
    (r : PipelineRun) (rs : List PipelineRun) → get_run r.pipeline_run_id (rs ++ r ∷ []) ≢ none
unfolding get_run
get_run-append r [] = ground arith
get_run-append r (x ∷ xs) = ground (arith, get_run-append r xs)

pub create_or_reuse_run-cases :
    (q : RunRequest) (s : Store)
    → ((r : PipelineRun) × (create_or_reuse_run q s ≡ ((r, true), s)))
      ⊎ ((r : PipelineRun) × (r.pipeline_run_id ≡ s.next_id)
          × (create_or_reuse_run q s
              ≡ ((r, false), record s { runs = s.runs ++ r ∷ []; next_id = suc s.next_id })))
unfolding create_or_reuse_run new_run
create_or_reuse_run-cases q s =
    elim (Option-cases (latest_run_for_job q.company_id q.import_job_id s.runs)) [
      | inl n ↦ inr (new_run q none s.next_id s.clock, refl, rw n)
      | inr (r, n) ↦ elim (Bool-cases (is_reused q.allow_retry r.status)) [
        | inl y ↦ inl (r, rw (n, y))
        | inr y ↦ inr (new_run q (some r) s.next_id s.clock, refl, rw (n, y))
      ]
    ]

-- How a call of `start` may end: with a run that was there, and nothing written; or with a new run
-- that has ended.
abbrev pub StartOutcome : Store → PipelineRun × Bool → Store → Type 0
StartOutcome s (run, true) t = t ≡ s
StartOutcome s (run, false) t = IsEnded s.next_id run t
