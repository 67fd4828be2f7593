-- ===== src/Idempotency/Tests.antt =====
-- Requests with the same and with another payload, on concrete inputs.
use backend_business_intelli.Prelude.{
  ℕ, ◌≡◌, refl, Option, none, some, List, [], ◌∷◌, inl, inr, Bool-cases, if◌then◌else◌,
}
use backend_business_intelli.Formula.Base.{Text, text_eq}
use backend_business_intelli.Idempotency.{
  IdempotencyContext, IngestionRecord, done, raised, different_payload, missing_entity, new_record,
  select_records, is_record_of, persist, resolve_replay,
}
use backend_business_intelli.Idempotency.Rows.{IsUnique, same_source}
use backend_business_intelli.Idempotency.Replay.{answer, resolve_replay-persist}

abbrev order_7 : IdempotencyContext
order_7 = record {
  company_id = b'A' ∷ [];
  source_system = b'E' ∷ b'R' ∷ b'P' ∷ [];
  source_record_id = b'7' ∷ [];
  payload_hash = b'x' ∷ [];
}

abbrev order_7_lower : IdempotencyContext
order_7_lower = record order_7 { source_system = b'e' ∷ b'r' ∷ b'p' ∷ [] }

abbrev order_7_changed : IdempotencyContext
order_7_changed = record order_7 { payload_hash = b'y' ∷ [] }

abbrev stored : List IngestionRecord
stored = new_record order_7 (b'1' ∷ []) ∷ []

-- Entity 2 has been deleted.
abbrev load_entity : Text → Option ℕ
load_entity id = if text_eq id (b'2' ∷ []) then none else some 100

replayed : resolve_replay load_entity order_7_lower stored ≡ done (some 100)
unfolding resolve_replay
replayed = refl

refused : resolve_replay load_entity order_7_changed stored ≡ raised different_payload
unfolding resolve_replay
refused = refl

rewritten :
    persist order_7_changed (b'2' ∷ []) stored ≡ done (new_record order_7_changed (b'2' ∷ []) ∷ [])
unfolding persist
rewritten = refl

deleted :
    resolve_replay load_entity order_7 (new_record order_7 (b'2' ∷ []) ∷ []) ≡ raised missing_entity
unfolding resolve_replay
deleted = refl

stored-IsUnique : IsUnique stored
unfolding select_records
stored-IsUnique q = elim (Bool-cases (is_record_of q (new_record order_7 (b'1' ∷ [])))) [
  | inl e ↦ rw e (inr (new_record order_7 (b'1' ∷ []), refl))
  | inr e ↦ rw e (inl refl)
]

resolve_replay-persist_example :
    (rows' : List IngestionRecord) × (persist order_7_changed (b'3' ∷ []) stored ≡ done rows')
    × IsUnique rows'
    × ((q : IdempotencyContext)
        → resolve_replay load_entity q rows' ≡ (
            if same_source order_7_changed q
            then answer load_entity order_7_changed (b'3' ∷ []) q
            else resolve_replay load_entity q stored))
resolve_replay-persist_example =
    resolve_replay-persist load_entity order_7_changed (b'3' ∷ []) stored stored-IsUnique
