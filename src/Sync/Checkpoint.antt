-- ===== src/Sync/Checkpoint.antt =====
-- class SyncCheckpoint of synchronization/domain/entities.py, and CheckpointRepository of
-- synchronization/infrastructure/repositories.py over the table `sync_checkpoints`, a list of rows
-- in order of insertion. Text columns are numbers (they are only stored); `metadata` is left out.
use backend_business_intelli.Prelude.{
  ℕ, Bool, true, ◌&&◌, Option, none, some, List, [], ◌∷◌, ltb, ◌==◌, if◌then◌else◌,
}
use backend_business_intelli.Prelude.Sort.{order_by, where_row, limit_to}
use backend_business_intelli.Calendar.{Date}
use backend_business_intelli.Sync.Base.{
  SyncDomain, CheckpointStatus, active, domain_eq, checkpoint_status_eq,
}

pub record SyncCheckpoint : Type 0 where
  pub checkpoint_id : ℕ
  pub company_id : ℕ
  pub provider : ℕ
  pub domain : SyncDomain
  pub status : CheckpointStatus
  pub last_page : Option ℕ
  pub last_cursor : Option ℕ
  pub last_success_sync : Option ℕ
  pub last_processed_record : Option ℕ
  pub last_window_start : Option Date
  pub last_window_end : Option Date
  pub created_at : ℕ
  pub updated_at : ℕ

-- The methods of the entity.
unfoldable pub mark_completed : ℕ → SyncCheckpoint → SyncCheckpoint
mark_completed now c = record c { status = CheckpointStatus.completed; updated_at = now }

unfoldable pub mark_failed : ℕ → SyncCheckpoint → SyncCheckpoint
mark_failed now c = record c { status = CheckpointStatus.failed; updated_at = now }

-- `new if new is not None else old`
abbrev keep_or : Option ℕ → Option ℕ → Option ℕ
keep_or none old = old
keep_or (some new) old = some new

unfoldable pub update_progress :
    ℕ → (page cursor processed_record : Option ℕ) → SyncCheckpoint → SyncCheckpoint
update_progress now page cursor processed_record c = record c {
  last_page = keep_or page c.last_page;
  last_cursor = keep_or cursor c.last_cursor;
  last_processed_record = keep_or processed_record c.last_processed_record;
  updated_at = now;
}

-- The repository. `id` is the fresh `uuid4()`; the row is also what is returned.
unfoldable pub new_checkpoint :
    (id now company_id provider : ℕ) → SyncDomain → Option Date → Option Date → SyncCheckpoint
new_checkpoint id now company_id provider domain window_start window_end = record {
  checkpoint_id = id;
  company_id = company_id;
  provider = provider;
  domain = domain;
  status = active;
  last_page = none;
  last_cursor = none;
  last_success_sync = none;
  last_processed_record = none;
  last_window_start = window_start;
  last_window_end = window_end;
  created_at = now;
  updated_at = now;
}

abbrev pub Checkpoints : Type 0
Checkpoints = List SyncCheckpoint

unfoldable pub get_checkpoint : ℕ → Checkpoints → Option SyncCheckpoint
get_checkpoint id [] = none
get_checkpoint id (c ∷ cs) = if c.checkpoint_id == id then some c else get_checkpoint id cs

-- `UPDATE sync_checkpoints SET … WHERE checkpoint_id = :id`
unfoldable pub update_checkpoint : ℕ → (SyncCheckpoint → SyncCheckpoint) → Checkpoints → Checkpoints
update_checkpoint id f [] = []
update_checkpoint id f (c ∷ cs) =
    (if c.checkpoint_id == id then f c else c) ∷ update_checkpoint id f cs

unfoldable pub mark_checkpoint_completed : ℕ → ℕ → Checkpoints → Checkpoints
unfolding update_checkpoint
mark_checkpoint_completed now id = update_checkpoint id (λ c. record c {
  status = CheckpointStatus.completed;
  last_success_sync = some now;
  updated_at = now;
})

unfoldable pub mark_checkpoint_failed : ℕ → ℕ → Checkpoints → Checkpoints
unfolding update_checkpoint
mark_checkpoint_failed now id =
    update_checkpoint id (λ c. record c { status = CheckpointStatus.failed; updated_at = now })

unfoldable pub update_checkpoint_progress :
    ℕ → ℕ → (page cursor processed_record : Option ℕ) → Checkpoints → Checkpoints
unfolding update_checkpoint update_progress
update_checkpoint_progress now id page cursor processed_record =
    update_checkpoint id (update_progress now page cursor processed_record)

-- `ORDER BY updated_at DESC`: rows updated at one time stay in table order.
abbrev newer : SyncCheckpoint → SyncCheckpoint → Bool
newer a b = ltb b.updated_at a.updated_at

abbrev first_row : Checkpoints → Option SyncCheckpoint
first_row [] = none
first_row (c ∷ cs) = some c

abbrev pub is_active_for : (company_id provider : ℕ) → SyncDomain → SyncCheckpoint → Bool
is_active_for company_id provider domain c =
    c.company_id == company_id
    && (c.provider == provider
        && (domain_eq c.domain domain && checkpoint_status_eq c.status active))

unfoldable pub find_active_checkpoint :
    (company_id provider : ℕ) → SyncDomain → Checkpoints → Option SyncCheckpoint
unfolding order_by
find_active_checkpoint company_id provider domain cs =
    first_row (order_by newer (where_row (is_active_for company_id provider domain) cs))

-- An optional filter of `list_checkpoints`: `None` lets every row through.
abbrev or_any {ℓ} : {A : Type ℓ} → (A → Bool) → Option A → Bool
or_any test none = true
or_any test (some a) = test a

unfoldable pub list_checkpoints :
    (company_id : ℕ)
    → Option ℕ
    → Option SyncDomain
    → Option CheckpointStatus
    → (limit : ℕ) → Checkpoints
    → Checkpoints
unfolding order_by
list_checkpoints company_id provider domain status limit cs = limit_to limit (
    order_by newer (
      where_row
        (λ c.
          c.company_id == company_id
          && (or_any (λ p. c.provider == p) provider
              && (or_any (λ d. domain_eq c.domain d) domain
                  && or_any (λ s. checkpoint_status_eq c.status s) status)))
        cs))
