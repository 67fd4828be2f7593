-- ===== src/Formula/Resolver.antt =====
-- kpi/application/formula_dependency_resolver.py: `FormulaDependencyResolver`.
pub mod Sets
pub mod Kahn
pub mod Edges
pub mod Order
use backend_business_intelli.Prelude.{
  ℕ, zero, suc, ◌+◌, ◌-◌, Bool, true, false, Option, List, [], ◌∷◌, ◌++◌, ◌==◌, if◌then◌else◌,
  length,
}
use backend_business_intelli.Formula.Base.{
  Text, codes, text_eq, Result, ok, err, ◌>>=◌, missing_formula, cyclic_dependency, out_of_fuel,
}
use backend_business_intelli.Formula.Validator.{
  FormulaDefinition, member, add, starts_with, remove_prefix,
}
use backend_business_intelli.Formula.Executor.{Dict}

-- The name that an input metric depends on, added to the set.
unfoldable pub add_dependency : List Text → Text → List Text
unfolding add starts_with remove_prefix
add_dependency dependencies metric =
    if starts_with (codes "formula:") metric
    then add (remove_prefix (codes "formula:") metric) dependencies
    else (if starts_with (codes "f.") metric
        then add metric dependencies
        else (if starts_with (codes "formula.") metric
            then add (remove_prefix (codes "formula.") metric) dependencies
            else dependencies))

unfoldable pub add_dependencies : List Text → List Text → List Text
unfolding add_dependency
add_dependencies dependencies [] = dependencies
add_dependencies dependencies (metric ∷ metrics) =
    add_dependencies (add_dependency dependencies metric) metrics

unfoldable pub extract_dependencies : FormulaDefinition → List Text
unfolding add_dependencies
extract_dependencies definition = add_dependencies [] definition.input_metrics

abbrev pub keys {ℓ} : {A : Type ℓ} → Dict A → List Text
keys [] = []
keys ((key, value) ∷ dict) = key ∷ keys dict

-- `inbound` and `graph`, as functions of the key: a key that was not set has 0, or no neighbours.
pub record Links : Type 0 where
  pub inbound : Text → ℕ
  pub graph : Text → List Text

abbrev pub update {ℓ} : {A : Type ℓ} → (Text → A) → Text → A → Text → A
update f key value t = if text_eq t key then value else f t

unfoldable pub add_edge : Text → Text → Links → Links
unfolding add
add_edge formula_id dependency links =
    if member formula_id (links.graph dependency) then links else (record links {
      inbound = update links.inbound formula_id (links.inbound formula_id + 1);
      graph = update links.graph dependency (add formula_id (links.graph dependency));
    })

-- The loop over the dependencies of one formula.
unfoldable pub add_edges : List Text → Text → List Text → Links → Result Links
unfolding add_edge
add_edges ids formula_id [] links = ok links
add_edges ids formula_id (dependency ∷ dependencies) links =
    let rest = add_edges ids formula_id dependencies (add_edge formula_id dependency links) in
    if member dependency ids then rest else err (missing_formula dependency)

-- `for neighbor in graph[node]`: the queue and the counters after it.
unfoldable pub release : List Text → (Text → ℕ) → List Text → (Text → ℕ) × List Text
release [] inbound queue = (inbound, queue)
release (neighbor ∷ neighbors) inbound queue =
    let left = inbound neighbor - 1 in
    release neighbors (update inbound neighbor left)
      (if left == 0 then queue ++ neighbor ∷ [] else queue)

-- The nodes of the queue at the start.
abbrev pub without_inbound : (Text → ℕ) → List Text → List Text
without_inbound inbound [] = []
without_inbound inbound (id ∷ ids) =
    if inbound id == 0 then id ∷ without_inbound inbound ids else without_inbound inbound ids

-- `if len(order) != len(formulas): raise`
unfoldable pub check_order : List Text → List Text → Result (List Text)
check_order ids order = if length order == length ids then ok order else err cyclic_dependency

-- A set is a list without repetitions, and Python goes through it in any order: `iterate`.
module _ (iterate : List Text → List Text) where
  unfoldable pub add_all_edges : List Text → Dict FormulaDefinition → Links → Result Links
  unfolding add_edges extract_dependencies
  add_all_edges ids [] links = ok links
  add_all_edges ids ((formula_id, definition) ∷ formulas) links =
      add_edges ids formula_id (iterate (extract_dependencies definition)) links >>= λ more.
      add_all_edges ids formulas more

  -- `while queue`, on fuel; `order` holds the nodes that were taken.
  unfoldable pub take_nodes :
      ℕ → (Text → List Text) → (Text → ℕ) → List Text → List Text → Result (List Text)
  unfolding release
  take_nodes fuel graph inbound [] order = ok order
  take_nodes zero graph inbound (node ∷ queue) order = err out_of_fuel
  take_nodes (suc fuel) graph inbound (node ∷ queue) order =
      let (inbound', queue') = release (iterate (graph node)) inbound queue in
      take_nodes fuel graph inbound' queue' (order ++ node ∷ [])

  unfoldable pub resolve_order : Dict FormulaDefinition → Result (List Text)
  unfolding add_all_edges take_nodes check_order
  resolve_order formulas =
      let ids = keys formulas in
      add_all_edges ids formulas (record { inbound = λ t. 0; graph = λ t. [] }) >>= λ links.
      take_nodes (length ids) links.graph links.inbound (without_inbound links.inbound ids) []
      >>= check_order ids
