-- ===== src/Pipeline/Service/Once.antt =====
-- Tables in which numbers are handed out once and no stage of a job succeeds twice.
use backend_business_intelli.Prelude.{
  ℕ, ◌≤◌, ◌<◌, ◌≡◌, ◌≢◌, ◌⊎◌, inl, inr, Bool, true, false, ◌&&◌, some, List, [], ◌∷◌, ◌++◌, ◌==◌,
  arith, Bool-cases,
}
use backend_business_intelli.Prelude.Sort.{count_row, count_row-append}
use backend_business_intelli.Pipeline.Base.{
  success, PipelineStageName, stage_order, same_status, PipelineRun, PipelineStep, Store,
}
use backend_business_intelli.Pipeline.Tables.{
  get_run, set_run, get_step, set_step, was_step_successful_for_job,
}

-- A successful step of a job at the stage with a number.
abbrev pub counted : (company_id import_job_id order : ℕ) → PipelineStep → Bool
counted company_id import_job_id order t =
    t.company_id == company_id
    && (t.import_job_id == import_job_id
        && (stage_order t.step_name == order && same_status t.status success))

-- No stage of a job has two successful steps.
abbrev pub IsOnce : List PipelineStep → Type 0
IsOnce ts = (company job order : ℕ) → count_row (counted company job order) ts ≤ 1

abbrev pub StepsBelow : ℕ → List PipelineStep → Type 0
StepsBelow n [] = Unit
StepsBelow n (t ∷ ts) = (t.step_id < n) × StepsBelow n ts

abbrev pub RunsBelow : ℕ → List PipelineRun → Type 0
RunsBelow n [] = Unit
RunsBelow n (r ∷ rs) = (r.pipeline_run_id < n) × RunsBelow n rs

-- Every run and step has a number below the next one, and no stage of a job has succeeded twice.
pub record IsSound (s : Store) : Type 0 where
  pub runs_below : RunsBelow s.next_id s.runs
  pub steps_below : StepsBelow s.next_id s.steps
  pub once : IsOnce s.steps

pub set_run-RunsBelow :
    (n id : ℕ) (f : PipelineRun → PipelineRun) (rs : List PipelineRun)
    → ((x : PipelineRun) → (f x).pipeline_run_id ≡ x.pipeline_run_id)
    → RunsBelow n rs
    → RunsBelow n (set_run id f rs)
unfolding set_run
set_run-RunsBelow n id f [] k b = tt
set_run-RunsBelow n id f (r ∷ rs) k b = ground (arith, k r, set_run-RunsBelow n id f rs k b.1)

pub StepsBelow-weaken :
    (m n : ℕ) (ts : List PipelineStep) → m ≤ n → StepsBelow m ts → StepsBelow n ts
StepsBelow-weaken m n [] h b = tt
StepsBelow-weaken m n (t ∷ ts) h b = (omega (arith, b.0), StepsBelow-weaken m n ts h b.1)

pub RunsBelow-weaken : (m n : ℕ) (rs : List PipelineRun) → m ≤ n → RunsBelow m rs → RunsBelow n rs
RunsBelow-weaken m n [] h b = tt
RunsBelow-weaken m n (t ∷ ts) h b = (omega (arith, b.0), RunsBelow-weaken m n ts h b.1)

pub StepsBelow-append :
    (n : ℕ) (t : PipelineStep) (ts : List PipelineStep)
    → StepsBelow n ts
    → t.step_id < n
    → StepsBelow n (ts ++ t ∷ [])
StepsBelow-append n t [] b h = (h, tt)
StepsBelow-append n t (x ∷ xs) b h = (b.0, StepsBelow-append n t xs b.1 h)

pub RunsBelow-append :
    (n : ℕ) (t : PipelineRun) (ts : List PipelineRun)
    → RunsBelow n ts
    → t.pipeline_run_id < n
    → RunsBelow n (ts ++ t ∷ [])
RunsBelow-append n t [] b h = (h, tt)
RunsBelow-append n t (x ∷ xs) b h = (b.0, RunsBelow-append n t xs b.1 h)

-- The number of the last step stands in no earlier one, so it is the only one that changes.
pub set_step-last :
    (id : ℕ) (f : PipelineStep → PipelineStep) (t : PipelineStep) (ts : List PipelineStep)
    → StepsBelow id ts
    → t.step_id ≡ id
    → set_step id f (ts ++ t ∷ []) ≡ ts ++ f t ∷ []
unfolding set_step
set_step-last id f t [] b h = ground arith
set_step-last id f t (x ∷ xs) b h = ground (arith, set_step-last id f t xs b.1 h)

pub get_step-last :
    (id : ℕ) (t : PipelineStep) (ts : List PipelineStep)
    → StepsBelow id ts
    → t.step_id ≡ id
    → get_step id (ts ++ t ∷ []) ≡ some t
unfolding get_step
get_step-last id t [] b h = ground arith
get_step-last id t (x ∷ xs) b h = ground (arith, get_step-last id t xs b.1 h)

-- The row of a run that was just inserted is the one found under its number.
pub get_run-last :
    (r : PipelineRun) (rs : List PipelineRun)
    → RunsBelow r.pipeline_run_id rs
    → get_run r.pipeline_run_id (rs ++ r ∷ []) ≡ some r
unfolding get_run
get_run-last r [] b = ground arith
get_run-last r (x ∷ xs) b = ground (arith, get_run-last r xs b.1)

counted-eq :
    (c j n : ℕ) (t : PipelineStep)
    → counted c j n t ≡ true
    → (t.company_id ≡ c)
      × (t.import_job_id ≡ j)
      × (stage_order t.step_name ≡ n)
      × (t.status ≡ success)
counted-eq c j n t h = ground arith

pub count-moved :
    (c c' j j' n n' : ℕ) (ts : List PipelineStep)
    → c ≡ c'
    → j ≡ j'
    → n ≡ n'
    → count_row (counted c j n) ts ≡ 0
    → count_row (counted c' j' n') ts ≡ 0
count-moved c c' j j' n n' ts p q r h = rw (p, q, r) at h

pub IsOnce-append :
    (t : PipelineStep) (ts : List PipelineStep)
    → IsOnce ts
    → (t.status ≢ success)
      ⊎ (count_row (counted t.company_id t.import_job_id (stage_order t.step_name)) ts ≡ 0)
    → IsOnce (ts ++ t ∷ [])
IsOnce-append t ts o h c j n =
    rw (count_row-append (counted c j n) ts (t ∷ [])) (elim (Bool-cases (counted c j n t)) [
      | inr e ↦ rw e (omega (arith, o c j n))
      | inl e ↦
          let (p, q, r, x) = counted-eq c j n t e in
          elim h [
            | inl different ↦ absurd (different x)
            | inr none_yet ↦ rw e (
                omega (
                  arith,
                  count-moved t.company_id c t.import_job_id j (stage_order t.step_name) n ts p q r
                      none_yet,
                ))
          ]
    ])

pub first-count :
    (c j : ℕ) (stage : PipelineStageName) (t : PipelineStep) (ts : List PipelineStep)
    → was_step_successful_for_job c j stage (ts ++ t ∷ []) ≡ false
    → count_row (counted c j (stage_order stage)) ts ≡ 0
unfolding was_step_successful_for_job
first-count c j stage t ts h =
    ground (arith, count_row-append (counted c j (stage_order stage)) ts (t ∷ []))
