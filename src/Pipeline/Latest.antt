-- ===== src/Pipeline/Latest.antt =====
-- The latest run of an import job.
use backend_business_intelli.Prelude.{
  ℕ, ◌≤◌, ◌<◌, ◌≡◌, sym, ◌∙◌, Bool, true, not, Option, none, some, List, [], ◌∷◌, arith,
}
use backend_business_intelli.Prelude.Sort.{
  IsOrdered, order_by, order_by-IsOrdered, count_row, count_row-order_by, where_row,
  where_row_wanted, where_row_unwanted, where_row_fewer,
}
use backend_business_intelli.Pipeline.Base.{PipelineRun}
use backend_business_intelli.Pipeline.Tables.{later, first_run, is_run_of, latest_run_for_job}

-- The row is of the import job.
abbrev pub IsOf : (company job : ℕ) → PipelineRun → Type 0
IsOf company job r = (r.company_id ≡ company) × (r.import_job_id ≡ job)

-- What the query is to find: nothing if no row is of the job; else a row of the table that is of the
-- job, and no row of the job was started after it. Rows are spoken of by counting those of a kind.
abbrev pub IsLatest : (company job : ℕ) → List PipelineRun → Option PipelineRun → Type 0
IsLatest company job runs none =
    (p : PipelineRun → Bool)
    → ((x : PipelineRun) → p x ≡ true → IsOf company job x)
    → count_row p runs ≡ 0
IsLatest company job runs (some r) =
    IsOf company job r
    × ((p : PipelineRun → Bool) → p r ≡ true → 0 < count_row p runs)
    × ((p : PipelineRun → Bool)
        → ((x : PipelineRun) → p x ≡ true → IsOf company job x × (r.started_at < x.started_at))
        → count_row p runs ≡ 0)

none_later :
    (p : PipelineRun → Bool) (bound : ℕ) (r : PipelineRun) (rest : List PipelineRun)
    → IsOrdered later (r ∷ rest)
    → ((x : PipelineRun) → p x ≡ true → bound < x.started_at)
    → r.started_at ≤ bound
    → count_row p (r ∷ rest) ≡ 0
none_later p bound r [] o h l = ground (arith, h r)
none_later p bound r (x ∷ rest) o h l =
    let older : x.started_at ≤ bound = ground (arith, o.0) in
    ground (arith, h r, none_later p bound x rest o.1 h older)

module _ (company job : ℕ) where
  is_run_of-IsOf : (x : PipelineRun) → is_run_of company job x ≡ true → IsOf company job x
  is_run_of-IsOf x h = ground arith

  IsOf-is_run_of : (x : PipelineRun) → IsOf company job x → is_run_of company job x ≡ true
  IsOf-is_run_of x h = ground arith

  first-IsLatest :
      (runs found : List PipelineRun)
      → IsOrdered later found
      → ((p : PipelineRun → Bool)
          → count_row p found ≡ count_row p (where_row (is_run_of company job) runs))
      → IsLatest company job runs (first_run found)
  first-IsLatest runs [] o same = λ p h.
      sym (where_row_wanted (is_run_of company job) p runs (λ x e. IsOf-is_run_of x (h x e)))
      ∙ sym (same p)
  first-IsLatest runs (r ∷ rest) o same =
      let other = same (λ x. not (is_run_of company job x)) in
      let gone =
        where_row_unwanted (is_run_of company job) (λ x. not (is_run_of company job x)) runs
          (λ x e. ground arith) in
      (
        is_run_of-IsOf r (ground arith),
        λ p e. ground (arith, same p, where_row_fewer (is_run_of company job) p runs),
        λ p h.
            sym
              (where_row_wanted (is_run_of company job) p runs (λ x e. IsOf-is_run_of x (h x e).0))
            ∙ sym (same p)
            ∙ none_later p r.started_at r rest o (λ x e. (h x e).1) (omega arith),
      )

  -- The run that the query finds is one of the table and of the import job, and no run of that job
  -- was started after it; it finds none only if the job has no run.
  pub latest_run_for_job-IsLatest :
      (runs : List PipelineRun) → IsLatest company job runs (latest_run_for_job company job runs)
  unfolding latest_run_for_job
  latest_run_for_job-IsLatest runs =
      first-IsLatest runs (order_by later (where_row (is_run_of company job) runs))
        (order_by-IsOrdered later (λ a b h. ground arith) (where_row (is_run_of company job) runs))
        (λ p. count_row-order_by later p (where_row (is_run_of company job) runs))
