-- ===== src/Sync/World.antt =====
-- The state that the synchronization services share: the two tables, the runtime, the worker pool
-- with its queue of closures, a clock and the supply of fresh identifiers (`uuid4`); and the
-- actions on it. A raise keeps what was written before it.
use backend_business_intelli.Prelude.{ℕ, suc, Bool, Option, List, if◌then◌else◌}
use backend_business_intelli.Sync.Base.{Error, Result, ok, err}
use backend_business_intelli.Sync.Job.{SyncJob}
use backend_business_intelli.Sync.Runtime.{SyncRuntime}
use backend_business_intelli.Sync.Checkpoint.{Checkpoints}
use backend_business_intelli.Sync.Jobs.{JobTable}

-- A closure of `_submit_job_to_worker_pool`: the job object and the encrypted credentials.
pub record Task : Type 0 where
  pub job : SyncJob
  pub credentials : ℕ

-- `none` is the sentinel that `shutdown` puts into the queue.
pub record WorkerPool : Type 0 where
  pub max_workers : ℕ
  pub workers : ℕ
  pub queue : List (Option Task)
  pub is_shutdown : Bool

pub record World : Type 0 where
  pub jobs : JobTable
  pub checkpoints : Checkpoints
  pub runtime : SyncRuntime
  pub pool : WorkerPool
  pub clock : ℕ
  pub next_id : ℕ

abbrev pub Action : Type 0 → Type 0
Action A = World → Result A × World

abbrev after : {B A : Type 0} → (A → Action B) → Result A × World → Result B × World
after f (ok a, w) = f a w
after f (err e, w) = (err e, w)

-- Stops at the first error, with the changes made so far.
infixl 5 ◌>>=◌ ◌>>◌
abbrev pub ◌>>=◌ : {B A : Type 0} → Action A → (A → Action B) → Action B
◌>>=◌ m f w = after f (m w)

abbrev pub ◌>>◌ : {B A : Type 0} → Action A → Action B → Action B
first >> second = first >>= λ _. second

abbrev pub pure : {A : Type 0} → A → Action A
pure a w = (ok a, w)

abbrev pub raise : {A : Type 0} → Error → Action A
raise e w = (err e, w)

abbrev pub gets : {A : Type 0} → (World → A) → Action A
gets f w = (ok (f w), w)

abbrev pub lift : {A : Type 0} → Result A → Action A
lift r w = (r, w)

abbrev pub on_jobs : (JobTable → JobTable) → Action (Unit {0})
on_jobs f w = (ok tt, record w { jobs = f w.jobs })

abbrev pub on_checkpoints : (Checkpoints → Checkpoints) → Action (Unit {0})
on_checkpoints f w = (ok tt, record w { checkpoints = f w.checkpoints })

abbrev pub on_runtime : (SyncRuntime → SyncRuntime) → Action (Unit {0})
on_runtime f w = (ok tt, record w { runtime = f w.runtime })

-- `str(uuid4())`
abbrev pub fresh : Action ℕ
fresh w = (ok w.next_id, record w { next_id = suc w.next_id })

abbrev pub when : Bool → Action (Unit {0}) → Action (Unit {0})
when b m w = if b then m w else (ok tt, w)
