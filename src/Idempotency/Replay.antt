-- ===== src/Idempotency/Replay.antt =====
-- A request after others: replayed, refused or new.
use mathlib.Core.List.{append-nil}
use backend_business_intelli.Prelude.{
  ◌≡◌, refl, ◌∙◌, Option, List, [], ◌∷◌, ◌++◌, Bool-cases, inl, inr, if◌then◌else◌,
}
use backend_business_intelli.Formula.Base.{Text, text_eq}
use backend_business_intelli.Idempotency.{
  IdempotencyContext, IngestionRecord, Outcome, done, raised, different_payload, select_records,
  one_or_none, get_idempotency_record, new_record, set_record, save_found, persist, loaded,
  replay_of, resolve_replay,
}
use backend_business_intelli.Idempotency.Rows.{
  same_source, IsUnique, changed, select-append, select-new, select-sources, select-set,
}

module _ {E : Type 0} (load_entity : Text → Option E) where
  -- The answer to a request of the source record that was persisted last.
  abbrev pub answer : IdempotencyContext → Text → IdempotencyContext → Outcome (Option E)
  answer c id q =
      if text_eq c.payload_hash q.payload_hash
      then loaded load_entity (load_entity id)
      else raised different_payload

  -- The table after the write: one row in the place of those of the source record.
  Written : IdempotencyContext → Text → List IngestionRecord → List IngestionRecord → Type 0
  Written c id rows rows' =
      (row : IngestionRecord) × (row.entity_id ≡ id)
      × (row.payload_hash ≡ c.payload_hash)
      × ((q : IdempotencyContext)
          → select_records q rows' ≡ (if same_source c q then row ∷ [] else select_records q rows))

  Written-IsUnique :
      (c : IdempotencyContext) (id : Text) (rows rows' : List IngestionRecord)
      → IsUnique rows
      → Written c id rows rows'
      → IsUnique rows'
  unfolding Written
  Written-IsUnique c id rows rows' u (row, _, _, w) q = elim (Bool-cases (same_source c q)) [
    | inl s ↦ inr (row, w q ∙ rw s refl)
    | inr s ↦
        let same : select_records q rows' ≡ select_records q rows = w q ∙ rw s refl in rw same (u q)
  ]

  Written-answer :
      (c : IdempotencyContext) (id : Text) (rows rows' : List IngestionRecord)
      (q : IdempotencyContext)
      → Written c id rows rows'
      → resolve_replay load_entity q rows'
        ≡ (if same_source c q then answer c id q else resolve_replay load_entity q rows)
  unfolding Written resolve_replay get_idempotency_record one_or_none replay_of
  Written-answer c id rows rows' q (row, at_id, at_hash, w) = elim (Bool-cases (same_source c q)) [
    | inl s ↦ rw (w q, s, at_id, at_hash) refl
    | inr s ↦ rw (w q, s) refl
  ]

  inserted-Written :
      (c : IdempotencyContext) (id : Text) (rows : List IngestionRecord)
      → select_records c rows ≡ []
      → Written c id rows (rows ++ new_record c id ∷ [])
  unfolding Written
  inserted-Written c id rows none_yet = (
    new_record c id,
    refl,
    refl,
    λ q.
        select-append q rows (new_record c id ∷ [])
        ∙ rw (select-new c q id) (elim (Bool-cases (same_source c q)) [
          | inl s ↦ rw (s, select-sources c q rows s, none_yet) refl
          | inr s ↦ rw s (append-nil (select_records q rows))
        ]),
  )

  changed-Written :
      (c : IdempotencyContext) (id : Text) (rows : List IngestionRecord) (row : IngestionRecord)
      → select_records c rows ≡ row ∷ []
      → Written c id rows (set_record c id rows)
  unfolding Written
  changed-Written c id rows row found =
      (changed c id row, refl, refl, λ q. select-set c q id rows row found)

  -- Where no source record has two rows, `persist` never raises and keeps it so. After it a
  -- request of the same source record, its system in any case, is answered with the entity if the
  -- payload is the same (an error if the entity is gone), and refused as a conflict if it is
  -- another; a request of any other source record is answered as before.
  pub resolve_replay-persist :
      (c : IdempotencyContext) (id : Text) (rows : List IngestionRecord)
      → IsUnique rows
      → (rows' : List IngestionRecord) × (persist c id rows ≡ done rows')
        × IsUnique rows'
        × ((q : IdempotencyContext)
            → resolve_replay load_entity q rows'
              ≡ (if same_source c q then answer c id q else resolve_replay load_entity q rows))
  unfolding persist save_found get_idempotency_record one_or_none
  resolve_replay-persist c id rows u = elim (u c) [
    | inl none_yet ↦
        let w = inserted-Written c id rows none_yet in
        (
          rows ++ new_record c id ∷ [],
          rw none_yet refl,
          Written-IsUnique c id rows (rows ++ new_record c id ∷ []) u w,
          λ q. Written-answer c id rows (rows ++ new_record c id ∷ []) q w,
        )
    | inr (row, found) ↦
        let w = changed-Written c id rows row found in
        (
          set_record c id rows,
          rw found refl,
          Written-IsUnique c id rows (set_record c id rows) u w,
          λ q. Written-answer c id rows (set_record c id rows) q w,
        )
  ]
