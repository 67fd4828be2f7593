-- ===== src/Formula/ResolverTests.antt =====
-- Orders of formulas on concrete dictionaries, and the theorem at one of them.
use backend_business_intelli.Prelude.{◌≡◌, refl, List, [], ◌∷◌}
use backend_business_intelli.Formula.Base.{Text, codes, ok, err, missing_formula, cyclic_dependency}
use backend_business_intelli.Formula.Validator.{FormulaDefinition}
use backend_business_intelli.Formula.Executor.{Dict}
use backend_business_intelli.Formula.Resolver.{keys, resolve_order}
use backend_business_intelli.Formula.Resolver.Kahn.{IsOrder}
use backend_business_intelli.Formula.Resolver.Order.{
  dependencies_in, Answers, resolve_order-Answers,
}

abbrev formula : Text → List Text → FormulaDefinition
formula id metrics = record {
  formula_id = id;
  kpi_id = id;
  name = id;
  expression = codes "1";
  input_metrics = metrics;
  output_type = codes "number";
  output_unit = codes "COUNT";
  precision = 0;
  owner = codes "finance";
  version = 1;
  effective_from = codes "1970-01-01";
}

abbrev margin : Text
margin = codes "f.margin"

abbrev revenue : Text
revenue = codes "f.revenue"

-- The margin is listed first, and is computed after the revenue.
abbrev catalog : Dict FormulaDefinition
catalog =
    (margin, formula margin (codes "formula:f.revenue" ∷ codes "costs" ∷ []))
    ∷ (revenue, formula revenue (codes "sales.net" ∷ []))
    ∷ []

-- The order of insertion.
abbrev as_inserted : List Text → List Text
as_inserted ts = ts

as_inserted-IsOrder : IsOrder as_inserted
as_inserted-IsOrder = record { same = λ ts t. refl; distinct = λ ts d. d }

revenue_first : resolve_order as_inserted catalog ≡ ok (revenue ∷ margin ∷ [])
unfolding resolve_order
revenue_first = refl

-- A metric called `f.…` is a dependency too.
abbrev mutual_catalog : Dict FormulaDefinition
mutual_catalog =
    (margin, formula margin (revenue ∷ [])) ∷ (revenue, formula revenue (margin ∷ [])) ∷ []

a_cycle : resolve_order as_inserted mutual_catalog ≡ err cyclic_dependency
unfolding resolve_order
a_cycle = refl

a_missing_formula :
    resolve_order as_inserted ((margin, formula margin (revenue ∷ [])) ∷ [])
    ≡ err (missing_formula revenue)
unfolding resolve_order
a_missing_formula = refl

resolve_order-Answers_example :
    Answers (keys catalog) (dependencies_in as_inserted catalog) (resolve_order as_inserted catalog)
resolve_order-Answers_example =
    resolve_order-Answers as_inserted as_inserted-IsOrder catalog (refl, (refl, tt))
