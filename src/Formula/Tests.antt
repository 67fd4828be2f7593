-- ===== src/Formula/Tests.antt =====
-- Formulas parsed, validated and evaluated over whole numbers, and the theorems at such inputs.
use backend_business_intelli.Prelude.{
  ℕ, ◌+◌, ◌-◌, ◌*◌, ◌/◌, ◌≡◌, ◌≢◌, ◌↔◌, refl, true, false, Option, none, some, List, [], ◌∷◌, map,
  arith, ltb, ◌==◌, length,
}
use backend_business_intelli.Formula.Base.{
  Text, codes, Node, number, identifier, call, nil, cons, ok, err, out_of_fuel, index_error,
}
use backend_business_intelli.Formula.Parser.{parse}
use backend_business_intelli.Formula.Sound.{IsText, parse_iff}
use backend_business_intelli.Formula.Validator.{
  FormulaDefinition, member, validate, build_allowed_identifiers, collect_identifiers,
}
use backend_business_intelli.Formula.Values.{Floats, Value, num, scalar, series, numeric}
use backend_business_intelli.Formula.Functions.{two_numbers, divide, clamp}
use backend_business_intelli.Formula.Executor.{
  Dict, get, TraceStep, identifier_step, call_step, evaluate,
}
use backend_business_intelli.Formula.Clamp.{IsStrict, clamp_bounds}
use backend_business_intelli.Formula.Identifiers.{text_eq→≡, evaluate-agree}
use backend_business_intelli.Formula.Trace.{postorder, step_name, evaluate-trace}
use backend_business_intelli.Formula.Safety.{RaisesLocal, evaluate-RaisesLocal}

-- Whole numbers in the place of the floats.
abbrev digits_value : ℕ → Text → ℕ
digits_value n [] = n
digits_value n (c ∷ s) = digits_value (10 * n + (c - b'0')) s

abbrev whole : Text → Option ℕ
whole [] = none
whole (c ∷ s) = some (digits_value 0 (c ∷ s))

abbrev total : List ℕ → ℕ
total [] = 0
total (x ∷ xs) = x + total xs

abbrev floats : Floats ℕ
floats = record {
  of_nat = λ n. n;
  of_text = whole;
  add = λ x y. x + y;
  sub = λ x y. x - y;
  mul = λ x y. x * y;
  div = λ x y. x / y;
  abs = λ x. x;
  lt = ltb;
  eq = λ x y. x == y;
  sum = total;
  mean = λ xs. total xs / length xs;
  distinct = length;
  round = λ x. some x;
  round_to = λ x n. some x;
}

parse_iff_example :
    ((n : Node ℕ) → (parse whole (codes "add(a,2") ≡ ok n) ↔ IsText whole (codes "add(a,2") n)
    × (parse whole (codes "add(a,2") ≢ err out_of_fuel)
parse_iff_example = parse_iff whole (codes "add(a,2")

abbrev definition : FormulaDefinition
definition = record {
  formula_id = codes "f.margin";
  kpi_id = codes "margin";
  name = codes "Margin";
  expression = codes "div(sub(sales.net, cost), sales.net)";
  input_metrics = codes "sales.net" ∷ codes "cost" ∷ [];
  output_type = codes "number";
  output_unit = codes "PERCENT";
  precision = 2;
  owner = codes "finance";
  version = 1;
  effective_from = codes "1970-01-01";
}

abbrev margin : Node ℕ
margin = call (codes "div") (
    cons
      (call (codes "sub") (cons (identifier (codes "net")) (cons (identifier (codes "cost")) nil)))
      (cons (number 3) nil))

parsed : parse whole (codes "div( sub(net,cost), 3)") ≡ ok margin
unfolding parse
parsed = refl

abbrev fields : List Text
fields = codes "sales.net" ∷ codes "cost" ∷ []

validated : validate definition margin fields [] ≡ ok tt
unfolding validate
validated = refl

abbrev metrics : Dict (Value ℕ)
metrics =
    (codes "sales.net", scalar (num 40))
    ∷ (codes "cost", scalar (num 10))
    ∷ (codes "net", scalar (num 40))
    ∷ []

-- The same for the formula, with another entry.
abbrev other_metrics : Dict (Value ℕ)
other_metrics = (codes "unused", series []) ∷ metrics

abbrev steps : List (TraceStep ℕ)
steps =
    identifier_step (codes "net") (scalar (num 40))
    ∷ identifier_step (codes "cost") (scalar (num 10))
    ∷ call_step (codes "sub") (scalar (num 40) ∷ scalar (num 10) ∷ []) (scalar (num 30))
    ∷ call_step (codes "div") (scalar (num 30) ∷ scalar (num 3) ∷ []) (scalar (num 10))
    ∷ []

evaluated : evaluate floats metrics margin [] ≡ ok (10, steps)
unfolding evaluate two_numbers divide
evaluated = refl

evaluate-trace_example : map step_name steps ≡ postorder margin
evaluate-trace_example = evaluate-trace floats metrics margin [] steps 10 evaluated

agree :
    (t : Text) → member t (collect_identifiers margin) ≡ true → get t metrics ≡ get t other_metrics
unfolding collect_identifiers get
agree t h = ground (arith, text_eq→≡ t (codes "unused"))

evaluate-agree_example : evaluate floats metrics margin [] ≡ evaluate floats other_metrics margin []
evaluate-agree_example = evaluate-agree floats metrics other_metrics margin [] agree

covered :
    (name : Text)
    → member name (build_allowed_identifiers definition []) ≡ true
    → get name metrics ≢ none
unfolding build_allowed_identifiers get
covered name h = ground arith

evaluate-RaisesLocal_example : RaisesLocal (evaluate floats metrics margin [])
evaluate-RaisesLocal_example =
    evaluate-RaisesLocal floats metrics definition margin fields [] [] validated covered

ltb-IsStrict : IsStrict ltb
ltb-IsStrict = record { irreflexive = λ x. ground arith; asymmetric = λ x y h. ground arith }

numeric_num : (x : ℕ) → numeric floats (scalar (num x)) ≡ ok x
unfolding numeric
numeric_num x = refl

clamp_bounds_example :
    (x : ℕ) × (clamp floats (scalar (num 9) ∷ scalar (num 2) ∷ scalar (num 5) ∷ [])
      ≡ ok (scalar (num x)))
    × (ltb x 2 ≡ false)
    × (ltb 5 x ≡ false)
clamp_bounds_example =
    clamp_bounds floats ltb-IsStrict (scalar (num 9)) (scalar (num 2)) (scalar (num 5))
      (numeric_num 9) (numeric_num 2) (numeric_num 5) refl

-- A call with an argument too few passes the validator, and Python's IndexError comes out.
abbrev one_argument : Node ℕ
one_argument = call (codes "add") (cons (identifier (codes "cost")) nil)

one_argument_valid : validate definition one_argument fields [] ≡ ok tt
unfolding validate
one_argument_valid = refl

one_argument_raises : evaluate floats metrics one_argument [] ≡ err index_error
unfolding evaluate two_numbers
one_argument_raises = refl
