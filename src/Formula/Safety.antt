-- ===== src/Formula/Safety.antt =====
-- What a validated formula cannot raise.
mod Local
pub use Local.Arguments.{IsLocal, RaisesLocal}
use backend_business_intelli.Prelude.{
  ◌≡◌, ◌≢◌, refl, ◌∙◌, Bool, true, false, ◌||◌, Option, none, some, List, [], ◌∷◌, arith,
  Bool-cases, Option-cases, inl, inr, if◌then◌else◌,
}
use backend_business_intelli.Formula.Base.{
  Text, text_eq, Node, Nodes, number, identifier, call, nil, cons, Result, ok, err, ◌>>=◌, ◌>>◌,
  or_raise,
}
use backend_business_intelli.Formula.Validator.{
  FormulaDefinition, member, allowed_functions, validate_ast, validate_args, check_identifiers,
  validate, build_allowed_identifiers, collect_identifiers, check_metrics,
}
use backend_business_intelli.Formula.Values.{
  Floats, Item, Value, num, missing, text, scalar, series,
}
use backend_business_intelli.Formula.Executor.{
  Dict, get, get_function, TraceStep, eval_node, eval_args, to_float, evaluate,
}
use backend_business_intelli.Formula.Identifiers.{
  occurs, occurs_args, member-collect, text_eq_refl, text_eq→≡,
}
use Local.{get_function-Local}
use Local.Arguments.{bind-RaisesLocal, raise-RaisesLocal}

-- The second check succeeded after the first one.
both_ok : (m k : Result (Unit {0})) → (m >> k) ≡ ok tt → (m ≡ ok tt) × (k ≡ ok tt)
both_ok (ok tt) k h = (refl, h)
both_ok (err e) k h = cc

check-member :
    (allowed names : List Text) (name : Text)
    → check_identifiers allowed names ≡ ok tt
    → member name names ≡ true
    → member name allowed ≡ true
unfolding check_identifiers
check-member allowed [] name h m = cc
check-member allowed (n ∷ names) name h m = elim (Bool-cases (member n allowed)) [
  | inl e ↦
      let h' = rw e at h in
      elim (Bool-cases (text_eq name n)) [
        | inl same ↦ rw (text_eq→≡ name n same) e
        | inr other ↦ let m' = rw other at m in check-member allowed names name h' m'
      ]
  | inr e ↦ let h' = rw e at h in cc
]

validated_call :
    {F : Type 0} (name : Text) (args : Nodes F)
    → validate_ast (call name args) ≡ ok tt
    → (member name allowed_functions ≡ true) × (validate_args args ≡ ok tt)
unfolding validate_ast
validated_call name args h = ground arith

module _ {F : Type 0} (floats : Floats F) (metrics : Dict (Value F)) where
  Covers : (Text → Bool) → Type 0
  Covers uses = (name : Text) → uses name ≡ true → get name metrics ≢ none

  mutual
    unfolding eval_node validate_ast occurs Covers

    eval-RaisesLocal :
        (n : Node F) (trace : List (TraceStep F))
        → validate_ast n ≡ ok tt
        → Covers (λ t. occurs t n)
        → RaisesLocal (eval_node floats metrics n trace)
    eval-RaisesLocal (number v) trace h c = tt
    eval-RaisesLocal (identifier name) trace h c = elim (Option-cases (get name metrics)) [
      | inl e ↦ absurd (c name (text_eq_refl name) e)
      | inr (v, e) ↦ rw e tt
    ]
    eval-RaisesLocal (call name args) trace h c =
        let (allowed, inner) = validated_call name args h in
        let (fn, e, l) = get_function-Local floats name allowed in
        bind-RaisesLocal (eval_args floats metrics args trace) _
          (args-RaisesLocal args trace inner c)
          λ (values, steps). rw e (bind-RaisesLocal (fn values) _ (l values) λ result. tt)

    args-RaisesLocal :
        (ns : Nodes F) (trace : List (TraceStep F))
        → validate_args ns ≡ ok tt
        → Covers (λ t. occurs_args t ns)
        → RaisesLocal (eval_args floats metrics ns trace)
    args-RaisesLocal nil trace h c = tt
    args-RaisesLocal (cons n ns) trace h c =
        let (first, rest) = both_ok (validate_ast n) (validate_args ns) h in
        bind-RaisesLocal (eval_node floats metrics n trace) _
          (eval-RaisesLocal n trace first (λ t o. c t (ground arith)))
          λ (v, steps).
            bind-RaisesLocal (eval_args floats metrics ns steps) _
              (args-RaisesLocal ns steps rest (λ t o. c t (ground arith))) λ more. tt

  to_float-RaisesLocal : (v : Value F) → RaisesLocal (to_float floats v)
  unfolding to_float
  to_float-RaisesLocal (scalar (num x)) = tt
  to_float-RaisesLocal (scalar missing) = tt
  to_float-RaisesLocal (scalar (text t)) = raise-RaisesLocal (floats.of_text t) _ tt
  to_float-RaisesLocal (series is) = tt

  -- A formula that the validator accepts, evaluated where every identifier that the validator
  -- allows has a value, never raises that a metric is missing or that a function is unsupported.
  pub evaluate-RaisesLocal :
      (definition : FormulaDefinition) (n : Node F) (canonical_fields ids : List Text)
      (trace : List (TraceStep F))
      → validate definition n canonical_fields ids ≡ ok tt
      → ((name : Text)
          → member name (build_allowed_identifiers definition ids) ≡ true
          → get name metrics ≢ none)
      → RaisesLocal (evaluate floats metrics n trace)
  unfolding evaluate validate Covers
  evaluate-RaisesLocal definition n canonical_fields ids trace h c =
      let allowed = build_allowed_identifiers definition ids in
      let (before, used) =
        both_ok (check_metrics canonical_fields ids definition.input_metrics >> validate_ast n)
          (check_identifiers allowed (collect_identifiers n)) h in
      let (_, tree) =
        both_ok (check_metrics canonical_fields ids definition.input_metrics) (validate_ast n)
          before in
      bind-RaisesLocal (eval_node floats metrics n trace) _
        (eval-RaisesLocal n trace tree (λ t o.
          c t (check-member allowed (collect_identifiers n) t used (member-collect t n ∙ o))))
        λ (v, steps). bind-RaisesLocal (to_float floats v) _ (to_float-RaisesLocal v) λ x. tt
