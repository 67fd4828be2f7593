-- ===== src/Idempotency/Rows.antt =====
-- The rows that a statement selects, after a row is added and after one is changed.

use backend_business_intelli.Prelude.{
  ◌≡◌, ◌⊎◌, refl, ap, ◌∙◌, Bool, true, false, ◌&&◌, List, [], ◌∷◌, ◌++◌, arith, Bool-cases, inl,
  inr, if◌then◌else◌,
}
use backend_business_intelli.Formula.Base.{Text, text_eq}
use backend_business_intelli.Formula.Resolver.Sets.{along}
use backend_business_intelli.Idempotency.{
  IdempotencyContext, IngestionRecord, lower, is_record_of, select_records, new_record, set_record,
}

-- Two requests are of one source record; the system's case does not matter.
abbrev pub same_source : IdempotencyContext → IdempotencyContext → Bool
same_source c q =
    text_eq c.company_id q.company_id
    && (text_eq (lower c.source_system) (lower q.source_system)
        && text_eq c.source_record_id q.source_record_id)

-- No source record has two rows.
abbrev pub IsUnique : List IngestionRecord → Type 0
IsUnique rows =
    (q : IdempotencyContext)
    → (select_records q rows ≡ []) ⊎ ((row : IngestionRecord) × (select_records q rows ≡ row ∷ []))

pub select-append :
    (q : IdempotencyContext) (rows more : List IngestionRecord)
    → select_records q (rows ++ more) ≡ select_records q rows ++ select_records q more
unfolding select_records
select-append q [] more = refl
select-append q (row ∷ rows) more = elim (Bool-cases (is_record_of q row)) [
  | inl e ↦ rw e (ap (λ t. row ∷ t) (select-append q rows more))
  | inr e ↦ rw e (select-append q rows more)
]

pub select-new :
    (c q : IdempotencyContext) (id : Text)
    → select_records q (new_record c id ∷ [])
      ≡ (if same_source c q then new_record c id ∷ [] else [])
unfolding select_records is_record_of
select-new c q id = refl

-- A row of one request's is a row of another's exactly if they are of one source record.
pub is_record_of-same :
    (c q : IdempotencyContext) (row : IngestionRecord)
    → is_record_of c row ≡ true
    → is_record_of q row ≡ same_source c q
unfolding is_record_of
is_record_of-same c q row h = ground (
  arith,
  along (λ t. text_eq t q.company_id) row.company_id c.company_id,
  along (λ t. text_eq t (lower q.source_system)) row.source_system (lower c.source_system),
  along (λ t. text_eq t q.source_record_id) row.source_record_id c.source_record_id,
)

pub is_record_of-sources :
    (c q : IdempotencyContext) (row : IngestionRecord)
    → same_source c q ≡ true
    → is_record_of q row ≡ is_record_of c row
unfolding is_record_of
is_record_of-sources c q row h = ground (
  arith,
  along (λ t. text_eq row.company_id t) c.company_id q.company_id,
  along (λ t. text_eq row.source_system t) (lower c.source_system) (lower q.source_system),
  along (λ t. text_eq row.source_record_id t) c.source_record_id q.source_record_id,
)

pub select-sources :
    (c q : IdempotencyContext) (rows : List IngestionRecord)
    → same_source c q ≡ true
    → select_records q rows ≡ select_records c rows
unfolding select_records
select-sources c q [] h = refl
select-sources c q (row ∷ rows) h =
    rw (is_record_of-sources c q row h, select-sources c q rows h) refl

abbrev pub changed : IdempotencyContext → Text → IngestionRecord → IngestionRecord
changed c id row = record row { entity_id = id; payload_hash = c.payload_hash }

pub is_record_of-changed :
    (c q : IdempotencyContext) (id : Text) (row : IngestionRecord)
    → is_record_of q (changed c id row) ≡ is_record_of q row
unfolding is_record_of
is_record_of-changed c q id row = refl

pub select-set :
    (c q : IdempotencyContext) (id : Text) (rows : List IngestionRecord) (row : IngestionRecord)
    → select_records c rows ≡ row ∷ []
    → select_records q (set_record c id rows)
      ≡ (if same_source c q then changed c id row ∷ [] else select_records q rows)
unfolding select_records set_record
select-set c q id [] row h = cc
select-set c q id (r ∷ rows) row h = elim (Bool-cases (is_record_of c r)) [
  | inl e ↦
      let h' = rw e at h in
      let same : r ≡ row = cc in
      let none_left : select_records c rows ≡ [] = cc in
      elim (Bool-cases (same_source c q)) [
        | inl s ↦
            let k : is_record_of q (changed c id r) ≡ true =
              is_record_of-changed c q id r ∙ is_record_of-same c q r e ∙ s in
            rw (e, s, k)
              (ap (λ t. changed c id r ∷ t) (select-sources c q rows s ∙ none_left)
                ∙ ap (λ t. changed c id t ∷ []) same)
        | inr s ↦
            let k' : is_record_of q r ≡ false = is_record_of-same c q r e ∙ s in
            let k : is_record_of q (changed c id r) ≡ false = is_record_of-changed c q id r ∙ k' in
            rw (e, s, k) refl
      ]
  | inr e ↦
      let h' = rw e at h in
      let ih = select-set c q id rows row h' in
      elim (Bool-cases (same_source c q)) [
        | inl s ↦
            let k : is_record_of q r ≡ false = is_record_of-sources c q r s ∙ e in
            rw (e, k, ih, s) refl
        | inr s ↦ elim (Bool-cases (is_record_of q r)) [
          | inl k ↦ rw (e, k, ih, s) refl
          | inr k ↦ rw (e, k, ih, s) refl
        ]
      ]
]
