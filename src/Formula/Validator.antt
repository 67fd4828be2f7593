-- ===== src/Formula/Validator.antt =====
-- kpi/application/formula_validator.py: `FormulaValidator`, and the definitions of
-- kpi/domain/formula_engine_entities.py.
use backend_business_intelli.Prelude.{
  ℕ, Bool, true, false, ◌&&◌, ◌||◌, List, [], ◌∷◌, ◌++◌, map, ◌==◌, if◌then◌else◌,
}
use backend_business_intelli.Formula.Base.{
  Text, codes, text_eq, Node, Nodes, number, identifier, call, nil, cons, Result, ok, err, ◌>>◌,
  unknown_metric, undeclared_identifier, function_not_allowed,
}

pub record FormulaDefinition : Type 0 where
  pub formula_id : Text
  pub kpi_id : Text
  pub name : Text
  pub expression : Text
  pub input_metrics : List Text
  pub output_type : Text
  pub output_unit : Text
  pub precision : ℕ
  pub owner : Text
  pub version : ℕ
  pub effective_from : Text

-- `in` a set of texts, and `set.add`.
abbrev pub member : Text → List Text → Bool
member t [] = false
member t (u ∷ us) = text_eq t u || member t us

unfoldable pub add : Text → List Text → List Text
add t us = if member t us then us else us ++ t ∷ []

unfoldable pub starts_with : Text → Text → Bool
starts_with [] s = true
starts_with (a ∷ p) [] = false
starts_with (a ∷ p) (c ∷ s) = c == a && starts_with p s

abbrev drop_text : Text → Text → Text
drop_text [] s = s
drop_text (a ∷ p) [] = []
drop_text (a ∷ p) (c ∷ s) = drop_text p s

unfoldable pub remove_prefix : Text → Text → Text
remove_prefix p s = if starts_with p s then drop_text p s else s

unfoldable pub has_dot : Text → Bool
has_dot [] = false
has_dot (c ∷ s) = c == b'.' || has_dot s

-- `metric.split(".")[-1]`
unfoldable pub leaf : Text → Text
unfolding has_dot
leaf [] = []
leaf (c ∷ s) = let rest = leaf s in if has_dot (c ∷ s) then rest else c ∷ s

abbrev pub allowed_functions : List Text
allowed_functions = map codes (
    "add" ∷ "sub" ∷ "mul" ∷ "div" ∷ "abs" ∷ "round" ∷ "sum" ∷ "avg" ∷ "min" ∷ "max" ∷ "count"
    ∷ "count_distinct" ∷ "weighted_avg" ∷ "rolling_sum" ∷ "rolling_avg" ∷ "period_over_period"
    ∷ "trend_slope" ∷ "if" ∷ "coalesce" ∷ "clamp" ∷ [])

-- The test of an input metric, `continue` being true.
unfoldable pub known_metric : List Text → List Text → Text → Bool
unfolding starts_with remove_prefix
known_metric canonical_fields ids metric =
    member metric ids
    || ((starts_with (codes "formula:") metric
          && member (remove_prefix (codes "formula:") metric) ids)
        || (starts_with (codes "kpi_score.") metric || member metric canonical_fields))

unfoldable pub check_metrics : List Text → List Text → List Text → Result (Unit {0})
unfolding known_metric
check_metrics canonical_fields ids [] = ok tt
check_metrics canonical_fields ids (metric ∷ metrics) =
    let rest = check_metrics canonical_fields ids metrics in
    if known_metric canonical_fields ids metric then rest else err (unknown_metric metric)

-- The names that one input metric allows, added to the set.
unfoldable pub allow : List Text → Text → List Text
unfolding add starts_with remove_prefix has_dot leaf
allow allowed metric =
    let a₁ = add metric allowed in
    let a₂ = if has_dot metric then add (leaf metric) a₁ else a₁ in
    let a₃ =
      if starts_with (codes "formula:") metric
      then add (remove_prefix (codes "formula:") metric) a₂
      else a₂ in
    if starts_with (codes "formula.") metric
    then add (remove_prefix (codes "formula.") metric) a₃
    else a₃

unfoldable pub add_all : List Text → List Text → List Text
unfolding add
add_all allowed [] = allowed
add_all allowed (t ∷ ts) = add_all (add t allowed) ts

unfoldable pub allow_all : List Text → List Text → List Text
unfolding allow
allow_all allowed [] = allowed
allow_all allowed (metric ∷ metrics) = allow_all (allow allowed metric) metrics

unfoldable pub build_allowed_identifiers : FormulaDefinition → List Text → List Text
unfolding allow_all add_all
build_allowed_identifiers definition ids = add_all (allow_all [] definition.input_metrics) ids

-- The loop over the identifiers that the tree uses.
unfoldable pub check_identifiers : List Text → List Text → Result (Unit {0})
check_identifiers allowed [] = ok tt
check_identifiers allowed (name ∷ names) =
    let rest = check_identifiers allowed names in
    if member name allowed then rest else err (undeclared_identifier name)

-- `_walk_identifiers` and `_validate_ast`.
module _ {F : Type 0} where
  unfoldable mutual
    unfolding add

    pub walk_identifiers : Node F → List Text → List Text
    walk_identifiers (number v) identifiers = identifiers
    walk_identifiers (identifier name) identifiers = add name identifiers
    walk_identifiers (call name args) identifiers = walk_args args identifiers

    pub walk_args : Nodes F → List Text → List Text
    walk_args nil identifiers = identifiers
    walk_args (cons arg args) identifiers = walk_args args (walk_identifiers arg identifiers)

  unfoldable pub collect_identifiers : Node F → List Text
  unfolding walk_identifiers
  collect_identifiers node = walk_identifiers node []

  unfoldable mutual
    pub validate_ast : Node F → Result (Unit {0})
    validate_ast (number v) = ok tt
    validate_ast (identifier name) = ok tt
    validate_ast (call name args) =
        let inner = validate_args args in
        if member name allowed_functions then inner else err (function_not_allowed name)

    pub validate_args : Nodes F → Result (Unit {0})
    validate_args nil = ok tt
    validate_args (cons arg args) = validate_ast arg >> validate_args args

  unfoldable pub validate : FormulaDefinition → Node F → List Text → List Text → Result (Unit {0})
  unfolding check_metrics validate_ast check_identifiers build_allowed_identifiers
      collect_identifiers
  validate definition ast canonical_fields ids =
      check_metrics canonical_fields ids definition.input_metrics
      >> validate_ast ast
      >> check_identifiers (build_allowed_identifiers definition ids) (collect_identifiers ast)
