-- ===== src/Sync/Jobs/Rows.antt =====
-- The queue of pending jobs is a sorted selection, and an update changes its row alone.
use backend_business_intelli.Prelude.{
  ℕ, Bool-cases, inl, inr, ◌≤◌, ◌⊎◌, ◌≡◌, refl, Bool, true, false, Option, none, some, List, [],
  ◌∷◌, ◌∙◌, arith, ◌==◌, if◌then◌else◌,
}
use backend_business_intelli.Prelude.Sort.{
  where_row, where_row_wanted, where_row_unwanted, count_row, IsOrdered, order_by-IsOrdered,
  count_row-order_by,
}
use backend_business_intelli.Sync.Base.{
  JobStatus, pending, JobPriority, critical, high, normal, low,
}
use backend_business_intelli.Sync.Job.{SyncJob}
use backend_business_intelli.Sync.Jobs.{
  JobTable, Change, create_job, get_job, set_column, started_at, set_columns, set_status,
  update_job_status, runs_before, is_pending_of, list_pending_jobs,
}

runs_before_asymmetric : (a b : SyncJob) → runs_before a b ≡ true → runs_before b a ≡ false
runs_before_asymmetric a b h = ground arith

-- One priority is more urgent than another.
pub data MoreUrgent : JobPriority → JobPriority → Type 0 where
  critical_high : MoreUrgent critical high
  critical_normal : MoreUrgent critical normal
  critical_low : MoreUrgent critical low
  high_normal : MoreUrgent high normal
  high_low : MoreUrgent high low
  normal_low : MoreUrgent normal low

ruleset urgency = (critical_high, critical_normal, critical_low, high_normal, high_low, normal_low)

-- A job may come before another: it is more urgent, or as urgent and not younger.
abbrev pub MayPrecede : SyncJob → SyncJob → Type 0
MayPrecede a b =
    MoreUrgent a.priority b.priority ⊎ ((a.priority ≡ b.priority) × (a.created_at ≤ b.created_at))

abbrev pub InTurn : List SyncJob → Type 0
InTurn [] = Unit
InTurn (a ∷ []) = Unit
InTurn (a ∷ b ∷ js) = MayPrecede a b × InTurn (b ∷ js)

-- A row is wanted: it is pending, and of the company, if one is given.
abbrev pub IsWanted : Option ℕ → SyncJob → Type 0
IsWanted none j = j.status ≡ pending
IsWanted (some company) j = (j.status ≡ pending) × (j.company_id ≡ company)

runs_before-MayPrecede : (a b : SyncJob) → runs_before b a ≡ false → MayPrecede a b
runs_before-MayPrecede a b h = grind (arith, urgency)

IsOrdered-InTurn : (js : List SyncJob) → IsOrdered runs_before js → InTurn js
IsOrdered-InTurn [] o = tt
IsOrdered-InTurn (a ∷ []) o = tt
IsOrdered-InTurn (a ∷ b ∷ js) o = (runs_before-MayPrecede a b o.0, IsOrdered-InTurn (b ∷ js) o.1)

is_pending_of-IsWanted :
    (company : Option ℕ) (j : SyncJob) → is_pending_of company j ≡ true → IsWanted company j
is_pending_of-IsWanted none j h = ground arith
is_pending_of-IsWanted (some c) j h = ground arith

IsWanted-is_pending_of :
    (company : Option ℕ) (j : SyncJob) → IsWanted company j → is_pending_of company j ≡ true
IsWanted-is_pending_of none j h = ground arith
IsWanted-is_pending_of (some c) j h = ground arith

unwanted-is_pending_of :
    (company : Option ℕ) (j : SyncJob) → ¬ IsWanted company j → is_pending_of company j ≡ false
unwanted-is_pending_of company j h = elim (Bool-cases (is_pending_of company j)) [
  | inl e ↦ absurd (h (is_pending_of-IsWanted company j e))
  | inr e ↦ e
]

-- The pending jobs come in turn: critical before high before normal before low ones, within one
-- priority no older one after a younger one. The list holds each row of the table that is pending,
-- and of the company if one is given, as often as the table does, and no other row: this is said by
-- counting any kind of rows that are all wanted, and any kind of rows that are all not.
pub list_pending_jobs_lem :
    (company : Option ℕ) (rows : JobTable)
    → InTurn (list_pending_jobs company rows)
      × ((p : SyncJob → Bool)
          → ((j : SyncJob) → p j ≡ true → IsWanted company j)
          → count_row p (list_pending_jobs company rows) ≡ count_row p rows)
      × ((p : SyncJob → Bool)
          → ((j : SyncJob) → p j ≡ true → ¬ IsWanted company j)
          → count_row p (list_pending_jobs company rows) ≡ 0)
unfolding list_pending_jobs
list_pending_jobs_lem company rows = (
  IsOrdered-InTurn _ (
      order_by-IsOrdered runs_before runs_before_asymmetric
        (where_row (is_pending_of company) rows)),
  λ p h.
      count_row-order_by runs_before p (where_row (is_pending_of company) rows)
      ∙ where_row_wanted (is_pending_of company) p rows
          (λ j e. IsWanted-is_pending_of company j (h j e)),
  λ p h.
      count_row-order_by runs_before p (where_row (is_pending_of company) rows)
      ∙ where_row_unwanted (is_pending_of company) p rows
          (λ j e. unwanted-is_pending_of company j (h j e)),
)

set_column-job_id : (c : Change) (j : SyncJob) → (set_column c j).job_id ≡ j.job_id
set_column-job_id (started_at t) j = refl
set_column-job_id _ j = refl

set_columns-job_id : (cs : List Change) (j : SyncJob) → (set_columns cs j).job_id ≡ j.job_id
set_columns-job_id [] j = refl
set_columns-job_id (c ∷ cs) j = set_columns-job_id cs (set_column c j) ∙ set_column-job_id c j

abbrev pub map_row : (SyncJob → SyncJob) → Option SyncJob → Option SyncJob
map_row f none = none
map_row f (some j) = some (f j)

-- An update of the row `id` changes that row as it says, and no other row.
pub get_job-update_job_status :
    (now id other : ℕ) (s : JobStatus) (cs : List Change) (rows : JobTable)
    → get_job other (update_job_status now id s cs rows) ≡ (
        if id == other
        then map_row (set_status now s cs) (get_job other rows)
        else get_job other rows)
unfolding get_job update_job_status
get_job-update_job_status now id other s cs [] = ground arith
get_job-update_job_status now id other s cs (j ∷ js) = ground (
  arith,
  set_columns-job_id cs (record j { status = s; updated_at = now }),
  get_job-update_job_status now id other s cs js,
)

-- A row that is inserted under an unused number is found again.
pub get_job-create_job :
    (job : SyncJob) (rows : JobTable)
    → get_job job.job_id rows ≡ none
    → get_job job.job_id (create_job job rows) ≡ get_job job.job_id (create_job job [])
unfolding get_job create_job
get_job-create_job job [] h = refl
get_job-create_job job (j ∷ js) h = ground (arith, get_job-create_job job js)
