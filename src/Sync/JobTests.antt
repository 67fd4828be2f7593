-- ===== src/Sync/JobTests.antt =====
-- The job's methods, the tables, the dispatcher, the orchestrator, the pool and the scheduler on
-- concrete inputs.
use backend_business_intelli.Prelude.{
  ◌≡◌, refl, inr, Bool, true, false, none, some, List, [], ◌∷◌, arith,
}
use backend_business_intelli.Prelude.Sort.{count_row}
use backend_business_intelli.Sync.Base.{
  pending, running, completed, cancelled, normal, critical, low, SyncDomain, sales, customers, hr,
  provider_error, err,
}
use backend_business_intelli.Sync.Job.{SyncJob, create, start, complete, pause, resume, can_retry}
use backend_business_intelli.Sync.Job.Lifecycle.{
  Call, start_call, complete_call, fail_call, pause_call, resume_call, cancel_call, perform, ◌⟶◌,
  perform-⟶, apply_all, IsConsistent, history-IsConsistent, can_retry_always, terminal_absorbs,
  refusal,
}
use backend_business_intelli.Sync.Jobs.{JobTable, list_pending_jobs}
use backend_business_intelli.Sync.Jobs.Rows.{InTurn, IsWanted, list_pending_jobs_lem}
use backend_business_intelli.Sync.Runtime.{SyncRuntime}
use backend_business_intelli.Sync.Runtime.Counts.{
  Event, job_started, job_completed, job_failed, register_all, IsBalanced, IsBalancedIn,
  register_all-IsBalanced,
}

abbrev job_7 : SyncJob
job_7 = create 7 100 1 2 sales normal none "incremental" (some 3)

abbrev life : List Call
life =
    start_call 101
    ∷ pause_call 102
    ∷ resume_call 103
    ∷ start_call 104
    ∷ complete_call 105 9 8 1 2
    ∷ []

life_completes : (apply_all life job_7).status ≡ completed
unfolding perform start complete pause resume create
life_completes = refl

perform-⟶_example : pending ⟶ running
unfolding perform start create
perform-⟶_example =
    perform-⟶ (start_call 101) job_7
      (record job_7 { status = running; started_at = some 101; updated_at = 101 }) refl

history-IsConsistent_example :
    IsConsistent (apply_all life (create 7 100 1 2 sales normal none "incremental" (some 3)))
history-IsConsistent_example =
    history-IsConsistent life 7 100 1 2 sales normal none "incremental" (some 3)

can_retry_always_example :
    can_retry (
      apply_all
        (start_call 101 ∷ fail_call 102 (provider_error 5) ∷ start_call 103 ∷ [])
        (create 7 100 1 2 sales normal none "incremental" (some 3)))
    ≡ true
can_retry_always_example =
    can_retry_always (start_call 101 ∷ fail_call 102 (provider_error 5) ∷ start_call 103 ∷ []) 7 100
      1 2 sales normal none "incremental" (some 3)

abbrev cancelled_job : SyncJob
cancelled_job = record (job_7) { status = cancelled }

terminal_absorbs_example :
    ((c : Call) → perform c cancelled_job ≡ err (refusal c cancelled))
    × (apply_all (start_call 1 ∷ resume_call 2 ∷ cancel_call 3 ∷ []) cancelled_job ≡ cancelled_job)
terminal_absorbs_example =
    terminal_absorbs (start_call 1 ∷ resume_call 2 ∷ cancel_call 3 ∷ []) cancelled_job (inr refl)

abbrev table : JobTable
table =
    job_7
    ∷ create 8 90 1 2 customers low none "full" none
    ∷ create 9 95 1 2 hr critical none "full" none
    ∷ record (job_7) { job_id = 10; status = running }
    ∷ []

pending_in_order :
    list_pending_jobs none table
    ≡ create 9 95 1 2 hr critical none "full" none
      ∷ job_7
      ∷ create 8 90 1 2 customers low none "full" none
      ∷ []
unfolding list_pending_jobs create
pending_in_order = refl

list_pending_jobs_lem_example :
    InTurn (list_pending_jobs (some 1) table)
    × ((p : SyncJob → Bool)
        → ((j : SyncJob) → p j ≡ true → IsWanted (some 1) j)
        → count_row p (list_pending_jobs (some 1) table) ≡ count_row p table)
    × ((p : SyncJob → Bool)
        → ((j : SyncJob) → p j ≡ true → ¬ IsWanted (some 1) j)
        → count_row p (list_pending_jobs (some 1) table) ≡ 0)
list_pending_jobs_lem_example = list_pending_jobs_lem (some 1) table

abbrev runtime : SyncRuntime
runtime = record {
  metrics = record { values = λ m. 0; per_domain = λ d m. 0 };
  active_jobs = [];
  scheduler_running = false;
  scheduler_last_run = none;
}

abbrev events : List Event
events = job_started 1 7 ∷ job_completed 9 7 sales 40 2 ∷ job_failed 12 8 hr ∷ []

register_all-IsBalanced_example :
    IsBalanced (register_all events runtime).metrics
    × ((d : SyncDomain) → IsBalancedIn d (register_all events runtime).metrics)
register_all-IsBalanced_example = register_all-IsBalanced events runtime (omega arith) (λ d. refl)
