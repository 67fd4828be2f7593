-- ===== src/Pipeline/Reuse.antt =====
-- When a call of `start` makes a new run, and how the runs of a job are numbered.
use backend_business_intelli.Prelude.{
  ℕ, suc, ◌≡◌, ◌⊎◌, Bool, true, false, Option, none, some, [], ◌∷◌, ◌++◌, arith,
}
use backend_business_intelli.Pipeline.Base.{pending, running, success, failed, PipelineRun, Store}
use backend_business_intelli.Pipeline.Tables.{
  RunRequest, create_or_reuse_run, reuse_or_insert, latest_run_for_job, new_run, is_reused,
}

-- A new run: the last row of the table, not started, with the number of the attempt and of the run
-- that it retries.
abbrev pub IsInserted :
    Store → (attempt : ℕ) → (retry_of : Option ℕ) → (PipelineRun × Bool) × Store → Type 0
IsInserted s attempt retry_of ((run, reused), t) =
    (reused ≡ false)
    × (run.status ≡ pending)
    × (run.progress ≡ 0)
    × (run.attempt ≡ attempt)
    × (run.retry_of ≡ retry_of)
    × (t.runs ≡ s.runs ++ run ∷ [])
    × (t.steps ≡ s.steps)

-- What a request comes to, by the latest run of the job.
abbrev pub ReuseOutcome :
    RunRequest → Store → Option PipelineRun → (PipelineRun × Bool) × Store → Type 0
ReuseOutcome q s none x = IsInserted s 1 none x
ReuseOutcome q s (some r) x =
    ((r.status ≡ pending) ⊎ ((r.status ≡ running) ⊎ (r.status ≡ success)) → x ≡ ((r, true), s))
    × (r.status ≡ failed → q.allow_retry ≡ false → x ≡ ((r, true), s))
    × (r.status ≡ failed
        → q.allow_retry ≡ true
        → IsInserted s (suc r.attempt) (some r.pipeline_run_id) x)

reuse_or_insert-ReuseOutcome :
    (q : RunRequest) (s : Store) (o : Option PipelineRun)
    → ReuseOutcome q s o (reuse_or_insert q o s)
unfolding is_reused new_run
reuse_or_insert-ReuseOutcome q s none = ground arith
reuse_or_insert-ReuseOutcome q s (some r) = ground arith

-- A request for a run, by the latest run of the job: with none, a first attempt is inserted; one
-- that is pending, running or successful is returned and nothing is written, and so is a failed one
-- unless a retry is allowed; with a retry allowed, the next attempt after a failed one is inserted,
-- which names the run that it retries.
pub create_or_reuse_run-ReuseOutcome :
    (q : RunRequest) (s : Store)
    → ReuseOutcome q s
        (latest_run_for_job q.company_id q.import_job_id s.runs)
        (create_or_reuse_run q s)
unfolding create_or_reuse_run
create_or_reuse_run-ReuseOutcome q s =
    reuse_or_insert-ReuseOutcome q s (latest_run_for_job q.company_id q.import_job_id s.runs)
