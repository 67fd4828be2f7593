-- ===== src/Sync/Dispatcher/Outcome.antt =====
-- What `execute_job` leaves behind.
use backend_business_intelli.Prelude.{ℕ, suc, ◌+◌, ◌≡◌, refl, ◌≢◌, none, some, List, [], ◌∷◌, arith}
use backend_business_intelli.Sync.Base.{
  JobStatus, pending, running, completed, failed, status_eq, Error, Result, ok, err,
}
use backend_business_intelli.Sync.Job.{SyncJob, start, complete, fail}
use backend_business_intelli.Sync.Jobs.{
  JobTable, Change, get_job, update_job_status, set_status, started_at, completed_at, failed_at,
  error_message, retry_count, records_read, records_imported, records_failed, pages_processed,
}
use backend_business_intelli.Sync.Jobs.Rows.{map_row, get_job-update_job_status}
use backend_business_intelli.Sync.World.{World}
use backend_business_intelli.Sync.Dispatcher.{
  Services, Credentials, SyncResult, inject_checkpoint, call_provider, record_failure, finish_job,
  execute_job,
}

-- The row of the job itself after an update of it.
get_job-update_self :
    (now id : ℕ) (s : JobStatus) (cs : List Change) (rows : JobTable)
    → get_job id (update_job_status now id s cs rows)
      ≡ map_row (set_status now s cs) (get_job id rows)
get_job-update_self now id s cs rows = ground (arith, get_job-update_job_status now id id s cs rows)

inject_checkpoint-jobs :
    (job : SyncJob) (c : Credentials) (w : World) → (inject_checkpoint job c w).1.jobs ≡ w.jobs
unfolding inject_checkpoint
inject_checkpoint-jobs job c w = ground arith

-- The call of the provider writes the status of the job's row, and no other row or the clock.
call_provider-jobs :
    (s : Services) (encrypted : ℕ) (job : SyncJob) (w : World)
    → ((call_provider s encrypted job w).1.jobs
        ≡ update_job_status w.clock job.job_id running (started_at job.started_at ∷ []) w.jobs)
      × ((call_provider s encrypted job w).1.clock ≡ w.clock)
unfolding call_provider
call_provider-jobs s encrypted job w = ground arith

-- How an execution of the job `id` may end: completed, with the counts of the job object in the row
-- (and one page), or raised, with the row failed, the error stored and one more retry counted.
abbrev pub Settled : SyncJob → Result SyncJob × World → Type 0
Settled job (ok done, w) =
    (row : SyncJob) × (get_job job.job_id w.jobs ≡ some row)
    × (row.status ≡ completed)
    × (row.completed_at ≢ none)
    × (row.records_imported ≡ done.records_imported)
    × (row.pages_processed ≡ 1)
    × (done.status ≡ completed)
Settled job (err e, w) =
    (row : SyncJob) × (get_job job.job_id w.jobs ≡ some row)
    × (row.status ≡ failed)
    × (row.error_message ≡ some e)
    × (row.retry_count ≡ suc job.retry_count)

Settled-err :
    (job row : SyncJob) (e : Error) (x : Result SyncJob × World)
    → x.0 ≡ err e
    → get_job job.job_id x.1.jobs ≡ some row
    → (row.status ≡ failed) × (row.error_message ≡ some e) × (row.retry_count ≡ suc job.retry_count)
    → Settled job x
Settled-err job row e (ok done, w) h g f = cc
Settled-err job row e (err e', w) h g f = (row, g, f.0, ground arith, f.2)

Settled-ok :
    (job row done : SyncJob) (x : Result SyncJob × World)
    → x.0 ≡ ok done
    → get_job job.job_id x.1.jobs ≡ some row
    → (row.status ≡ completed)
      × (row.completed_at ≢ none)
      × (row.records_imported ≡ done.records_imported)
      × (row.pages_processed ≡ 1)
      × (done.status ≡ completed)
    → Settled job x
Settled-ok job row done (err e, w) h g f = cc
Settled-ok job row done (ok done', w) h g f = (row, g, f.0, f.1, ground arith, f.3, ground arith)

-- The changes that the `except` block writes.
abbrev failure_changes : ℕ → Error → ℕ → List Change
failure_changes now e n = failed_at (some now) ∷ error_message (some e) ∷ retry_count (n + 1) ∷ []

record_failure-jobs :
    (begun : SyncJob) (e : Error) (w : World)
    → begun.status ≡ running
    → ((record_failure begun e w).0 ≡ err e)
      × ((record_failure begun e w).1.jobs
          ≡ update_job_status w.clock begun.job_id failed
              (failure_changes w.clock e begun.retry_count)
              w.jobs)
unfolding record_failure fail
record_failure-jobs begun e w h = ground arith

abbrev success_changes : ℕ → SyncResult → List Change
success_changes now r =
    completed_at (some now)
    ∷ records_read r.read
    ∷ records_imported r.imported
    ∷ records_failed r.rejected
    ∷ pages_processed 1
    ∷ []

abbrev finished : ℕ → SyncResult → SyncJob → SyncJob
finished now r begun = record begun {
  status = completed;
  completed_at = some now;
  updated_at = now;
  records_read = r.read;
  records_imported = r.imported;
  records_failed = r.rejected;
  pages_processed = 1;
}

finish_job-jobs :
    (begun : SyncJob) (r : SyncResult) (w : World)
    → begun.status ≡ running
    → ((finish_job begun (ok r) w).0 ≡ ok (finished w.clock r begun))
      × ((finish_job begun (ok r) w).1.jobs
          ≡ update_job_status w.clock begun.job_id completed (success_changes w.clock r) w.jobs)
unfolding finish_job complete
finish_job-jobs begun r w h = ground arith

finish_job-Settled :
    (job begun row : SyncJob) (r : Result SyncResult) (w : World)
    → begun.status ≡ running
    → begun.job_id ≡ job.job_id
    → begun.retry_count ≡ job.retry_count
    → get_job job.job_id w.jobs ≡ some row
    → Settled job (finish_job begun r w)
unfolding finish_job record_failure
finish_job-Settled job begun row (err e) w h i n g =
    let f = record_failure-jobs begun e w h in
    let changes = failure_changes w.clock e begun.retry_count in
    Settled-err job (set_status w.clock failed changes row) e (record_failure begun e w) f.0
      (rw (f.1, i) (rw (get_job-update_self w.clock job.job_id failed changes w.jobs) (rw g)))
      (refl, refl, omega arith)
finish_job-Settled job begun row (ok r) w h i n g =
    let f = finish_job-jobs begun r w h in
    let changes = success_changes w.clock r in
    Settled-ok job (set_status w.clock completed changes row) (finished w.clock r begun)
      (finish_job begun (ok r) w) f.0
      (rw (f.1, i) (rw (get_job-update_self w.clock job.job_id completed changes w.jobs) (rw g)))
      (refl, (λ e. cc), refl, refl, refl)

-- An execution of a pending job whose row is in the table always ends, and settles the row,
-- whatever status the row has: the job is returned completed, and the row is completed, with a time,
-- the returned job's count of imported records and one page; or an error is raised, and the row is
-- failed, with that error and one retry more than the job had. The row is not left running.
pub execute_job-Settled :
    (s : Services) (encrypted : ℕ) (job row : SyncJob) (w : World)
    → job.status ≡ pending
    → get_job job.job_id w.jobs ≡ some row
    → Settled job (execute_job s encrypted job w)
unfolding execute_job start
execute_job-Settled s encrypted job row w h g =
    let begun : SyncJob = record job {
      status = running;
      started_at = some w.clock;
      updated_at = w.clock;
    } in
    let called = call_provider-jobs s encrypted begun w in
    let changes : List Change = started_at (some w.clock) ∷ [] in
    rw (h, status_eq)
      (finish_job-Settled job begun (set_status w.clock running changes row)
        (call_provider s encrypted begun w).0 (call_provider s encrypted begun w).1 refl refl refl
        (rw (called.0) (rw (get_job-update_self w.clock job.job_id running changes w.jobs) (rw g))))
