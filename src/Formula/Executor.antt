-- ===== src/Formula/Executor.antt =====
-- kpi/application/formula_executor.py: `FormulaExecutor.evaluate`. The trace holds, in the place of
-- its lines, what they print.
use backend_business_intelli.Prelude.{Option, none, some, List, [], ◌∷◌, ◌++◌, if◌then◌else◌}
use backend_business_intelli.Formula.Base.{
  Text, text_eq, Node, Nodes, identifier, call, nil, cons, Result, ok, err, ◌>>=◌, or_raise,
  missing_metric, unsupported_function, not_numeric,
}
use backend_business_intelli.Formula.Values.{Floats, Value, num, missing, text, scalar, series}
use backend_business_intelli.Formula.Functions.{Function, table}

-- A dictionary keyed by texts.
abbrev pub Dict {ℓ} : Type ℓ → Type ℓ
Dict A = List (Text × A)

unfoldable pub get {ℓ} : {A : Type ℓ} → Text → Dict A → Option A
get key [] = none
get key ((k, value) ∷ dict) = let rest = get key dict in if text_eq key k then some value else rest

pub data TraceStep (F : Type 0) : Type 0 where
  identifier_step : Text → Value F → TraceStep F
  call_step : Text → List (Value F) → Value F → TraceStep F

module _ {F : Type 0} (floats : Floats F) where
  unfoldable pub get_function : Text → Result (Function floats)
  unfolding get
  get_function name = or_raise (get name (table floats)) (unsupported_function name)

  -- `float(result)`, its TypeError and ValueError as a FormulaExecutionError.
  unfoldable pub to_float : Value F → Result F
  to_float (scalar (num x)) = ok x
  to_float (scalar missing) = err not_numeric
  to_float (scalar (text t)) = or_raise (floats.of_text t) not_numeric
  to_float (series items) = err not_numeric

  module _ (metrics : Dict (Value F)) where
    unfoldable mutual
      unfolding get_function get

      pub eval_node : Node F → List (TraceStep F) → Result (Value F × List (TraceStep F))
      eval_node (Node.number v) trace = ok (scalar (num v), trace)
      eval_node (identifier name) trace =
          or_raise (get name metrics) (missing_metric name) >>= λ value.
          ok (value, trace ++ identifier_step name value ∷ [])
      eval_node (call name args) trace = eval_args args trace >>= λ (values, steps).
          get_function name >>= λ fn.
          fn values >>= λ result. ok (result, steps ++ call_step name values result ∷ [])

      pub eval_args : Nodes F → List (TraceStep F) → Result (List (Value F) × List (TraceStep F))
      eval_args nil trace = ok ([], trace)
      eval_args (cons arg args) trace = eval_node arg trace >>= λ (value, steps).
          eval_args args steps >>= λ (values, steps'). ok (value ∷ values, steps')

    unfoldable pub evaluate : Node F → List (TraceStep F) → Result (F × List (TraceStep F))
    unfolding eval_node to_float
    evaluate ast trace =
        eval_node ast trace >>= λ (result, steps). to_float result >>= λ x. ok (x, steps)
