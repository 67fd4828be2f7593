-- ===== src/Sync/Base.antt =====
-- synchronization/domain/value_objects.py, and the errors that the synchronization code raises.
use backend_business_intelli.Prelude.{ℕ, ◌≡◌, refl, Bool, true, false, Option, none, some}

pub data JobStatus : Type 0 where
  pending running paused completed failed cancelled : JobStatus

pub data JobPriority : Type 0 where
  critical high normal low : JobPriority

pub data SyncDomain : Type 0 where
  customers products sales accounts_receivable accounts_payable cashflow : SyncDomain
  inventory hr suppliers : SyncDomain

pub data CheckpointStatus : Type 0 where
  active completed failed stale : CheckpointStatus

-- `JobPriority.weight`
unfoldable pub weight : JobPriority → ℕ
weight critical = 1000
weight high = 100
weight normal = 10
weight low = 1

-- `==` on the enumerations.
abbrev pub status_eq : JobStatus → JobStatus → Bool
status_eq pending pending = true
status_eq running running = true
status_eq paused paused = true
status_eq JobStatus.completed JobStatus.completed = true
status_eq JobStatus.failed JobStatus.failed = true
status_eq cancelled cancelled = true
status_eq _ _ = false

unfoldable pub domain_eq : SyncDomain → SyncDomain → Bool
domain_eq customers customers = true
domain_eq products products = true
domain_eq sales sales = true
domain_eq accounts_receivable accounts_receivable = true
domain_eq accounts_payable accounts_payable = true
domain_eq cashflow cashflow = true
domain_eq inventory inventory = true
domain_eq hr hr = true
domain_eq suppliers suppliers = true
domain_eq _ _ = false

abbrev pub checkpoint_status_eq : CheckpointStatus → CheckpointStatus → Bool
checkpoint_status_eq active active = true
checkpoint_status_eq CheckpointStatus.completed CheckpointStatus.completed = true
checkpoint_status_eq CheckpointStatus.failed CheckpointStatus.failed = true
checkpoint_status_eq stale stale = true
checkpoint_status_eq _ _ = false

-- What the code raises, a constructor for each message. `provider_error` is an error of code that
-- is called through an interface, told apart by a number; `out_of_fuel` ends a model loop, and is never
-- reached (see `Sync.Window`).
pub data Error : Type 0 where
  cannot_start cannot_complete cannot_fail cannot_pause cannot_resume cannot_cancel :
      JobStatus → Error
  company_mismatch provider_mismatch bad_window bad_days overflow job_not_found pool_shut_down :
      Error
  already_running : SyncDomain → Error
  provider_error : ℕ → Error
  out_of_fuel : Error

pub data Result {ℓ} (A : Type ℓ) : Type ℓ where
  ok : A → Result A
  err : Error → Result A

infixl 5 ◌>>=◌ ◌>>◌
abbrev pub ◌>>=◌ {ℓ κ} : {A : Type ℓ} {B : Type κ} → Result A → (A → Result B) → Result B
ok a >>= f = f a
err e >>= f = err e

abbrev pub ◌>>◌ {ℓ κ} : {A : Type ℓ} {B : Type κ} → Result A → Result B → Result B
m >> k = m >>= λ _. k

-- A result that may be missing, as an exception.
abbrev pub or_raise {ℓ} : {A : Type ℓ} → Option A → Error → Result A
or_raise none e = err e
or_raise (some a) e = ok a

abbrev pub raise_if : Bool → Error → Result (Unit {0})
raise_if true e = err e
raise_if false e = ok tt

pub domain_eq_refl : (d : SyncDomain) → domain_eq d d ≡ true
unfolding domain_eq
domain_eq_refl customers = refl
domain_eq_refl _ = refl

pub domain_eq-eq : (a b : SyncDomain) → domain_eq a b ≡ true → a ≡ b
unfolding domain_eq
domain_eq-eq customers customers h = refl
domain_eq-eq products products h = refl
domain_eq-eq sales sales h = refl
domain_eq-eq accounts_receivable accounts_receivable h = refl
domain_eq-eq accounts_payable accounts_payable h = refl
domain_eq-eq cashflow cashflow h = refl
domain_eq-eq inventory inventory h = refl
domain_eq-eq hr hr h = refl
domain_eq-eq suppliers suppliers h = refl
domain_eq-eq _ _ h = cc
