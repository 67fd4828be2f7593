-- ===== src/Idempotency.antt =====
-- shared/application/idempotency/service.py, and the table of ingestion records of
-- shared/infrastructure/repository/mixins.py.
pub mod Rows
pub mod Replay
mod Tests
use backend_business_intelli.Prelude.{
  ℕ, ◌+◌, Bool, ◌&&◌, Option, none, some, List, [], ◌∷◌, ◌++◌, map, leb, if◌then◌else◌,
}
use backend_business_intelli.Formula.Base.{Text, text_eq}

-- `str.lower` of an ASCII text.
unfoldable pub lower_code : ℕ → ℕ
lower_code c = if leb b'A' c && leb c b'Z' then c + 32 else c

unfoldable pub lower : Text → Text
unfolding lower_code
lower t = map lower_code t

pub record IdempotencyContext : Type 0 where
  pub company_id : Text
  pub source_system : Text
  pub source_record_id : Text
  pub payload_hash : Text

-- A row of the table; its system is in lower case.
pub record IngestionRecord : Type 0 where
  pub company_id : Text
  pub source_system : Text
  pub source_record_id : Text
  pub entity_id : Text
  pub payload_hash : Text

-- The `where` of both statements.
unfoldable pub is_record_of : IdempotencyContext → IngestionRecord → Bool
unfolding lower
is_record_of context row =
    text_eq row.company_id context.company_id
    && (text_eq row.source_system (lower context.source_system)
        && text_eq row.source_record_id context.source_record_id)

unfoldable pub select_records : IdempotencyContext → List IngestionRecord → List IngestionRecord
unfolding is_record_of
select_records context [] = []
select_records context (row ∷ rows) =
    let rest = select_records context rows in if is_record_of context row then row ∷ rest else rest

-- What the two operations raise: a conflict with another payload, a record of an entity that is
-- not there, and `scalar_one_or_none` on several rows.
pub data IdempotencyError : Type 0 where
  different_payload missing_entity multiple_results : IdempotencyError

pub data Outcome {ℓ} (A : Type ℓ) : Type ℓ where
  done : A → Outcome A
  raised : IdempotencyError → Outcome A

unfoldable pub one_or_none : List IngestionRecord → Outcome (Option IngestionRecord)
one_or_none [] = done none
one_or_none (row ∷ []) = done (some row)
one_or_none (row ∷ other ∷ rows) = raised multiple_results

-- `_get_idempotency_record`
unfoldable pub get_idempotency_record :
    IdempotencyContext → List IngestionRecord → Outcome (Option IngestionRecord)
unfolding select_records one_or_none
get_idempotency_record context rows = one_or_none (select_records context rows)

abbrev pub new_record : IdempotencyContext → Text → IngestionRecord
new_record context entity_id = record {
  company_id = context.company_id;
  source_system = lower context.source_system;
  source_record_id = context.source_record_id;
  entity_id = entity_id;
  payload_hash = context.payload_hash;
}

-- The row that was found is changed in place.
unfoldable pub set_record : IdempotencyContext → Text → List IngestionRecord → List IngestionRecord
unfolding is_record_of
set_record context entity_id [] = []
set_record context entity_id (row ∷ rows) =
    let rest = set_record context entity_id rows in
    if is_record_of context row
    then (record row { entity_id = entity_id; payload_hash = context.payload_hash }) ∷ rows
    else row ∷ rest

unfoldable pub save_found :
    IdempotencyContext
    → Text
    → List IngestionRecord
    → Outcome (Option IngestionRecord)
    → Outcome (List IngestionRecord)
unfolding set_record
save_found context entity_id rows (raised e) = raised e
save_found context entity_id rows (done none) = done (rows ++ new_record context entity_id ∷ [])
save_found context entity_id rows (done (some row)) = done (set_record context entity_id rows)

-- `_save_idempotency_record`, and `persist`, which calls it.
unfoldable pub persist :
    IdempotencyContext → Text → List IngestionRecord → Outcome (List IngestionRecord)
unfolding save_found get_idempotency_record
persist context entity_id rows =
    save_found context entity_id rows (get_idempotency_record context rows)

-- `is_replay` is whether there is an entity.
module _ {E : Type 0} (load_entity : Text → Option E) where
  abbrev pub loaded : Option E → Outcome (Option E)
  loaded none = raised missing_entity
  loaded (some entity) = done (some entity)

  unfoldable pub replay_of :
      IdempotencyContext → Outcome (Option IngestionRecord) → Outcome (Option E)
  replay_of context (raised e) = raised e
  replay_of context (done none) = done none
  replay_of context (done (some row)) =
      if text_eq row.payload_hash context.payload_hash
      then loaded (load_entity row.entity_id)
      else raised different_payload

  unfoldable pub resolve_replay : IdempotencyContext → List IngestionRecord → Outcome (Option E)
  unfolding replay_of get_idempotency_record
  resolve_replay context rows = replay_of context (get_idempotency_record context rows)
