-- ===== src/Formula/Resolver/Order.antt =====
-- What `resolve_order` answers.
use backend_business_intelli.Prelude.{
  ◌≡◌, ◌≢◌, ◌⊎◌, refl, sym, ◌∙◌, Bool, true, false, not, ◌&&◌, Option, none, some, List, [], ◌∷◌,
  arith, length, Bool-cases, inl, inr, if◌then◌else◌, ◌==◌,
}
use backend_business_intelli.Formula.Base.{
  Text, codes, text_eq, Result, ok, err, ◌>>=◌, missing_formula, cyclic_dependency,
}
use backend_business_intelli.Formula.Validator.{
  FormulaDefinition, member, add, starts_with, remove_prefix,
}
use backend_business_intelli.Formula.Identifiers.{text_eq_refl}
use backend_business_intelli.Formula.Executor.{Dict, get}
use backend_business_intelli.Formula.Resolver.{
  Links, keys, add_dependency, add_dependencies, extract_dependencies, add_all_edges, take_nodes,
  without_inbound, check_order, resolve_order,
}
use backend_business_intelli.Formula.Resolver.Sets.{
  Distinct, Distinct-snoc, member_same, waiting, waiting-zero,
}
use backend_business_intelli.Formula.Resolver.Kahn.{
  IsOrder, DependenciesFirst, Ended, take_nodes-Ended,
}
use backend_business_intelli.Formula.Resolver.Edges.{Describes, LinkedAll, add_all_edges-LinkedAll}

Distinct-add : (t : Text) (ts : List Text) → Distinct ts → Distinct (add t ts)
unfolding add
Distinct-add t ts d = elim (Bool-cases (member t ts)) [
  | inl e ↦ rw e d
  | inr e ↦ rw e (Distinct-snoc ts t d e)
]

Distinct-if :
    (b : Bool) (ts us : List Text) → Distinct ts → Distinct us → Distinct (if b then ts else us)
Distinct-if true ts us d e = d
Distinct-if false ts us d e = e

add_dependency-Distinct :
    (found : List Text) (metric : Text) → Distinct found → Distinct (add_dependency found metric)
unfolding add_dependency
add_dependency-Distinct found metric d =
    let begins = λ (prefix : Text). starts_with prefix metric in
    let third = add (remove_prefix (codes "formula.") metric) found in
    let last = if begins (codes "formula.") then third else found in
    let rest = if begins (codes "f.") then add metric found else last in
    Distinct-if (begins (codes "formula:")) (add (remove_prefix (codes "formula:") metric) found)
      rest (Distinct-add (remove_prefix (codes "formula:") metric) found d)
      (Distinct-if (begins (codes "f.")) (add metric found) last (Distinct-add metric found d) (
        Distinct-if (begins (codes "formula.")) third found
          (Distinct-add (remove_prefix (codes "formula.") metric) found d) d))

add_dependencies-Distinct :
    (metrics found : List Text) → Distinct found → Distinct (add_dependencies found metrics)
unfolding add_dependencies
add_dependencies-Distinct [] found d = d
add_dependencies-Distinct (metric ∷ metrics) found d =
    add_dependencies-Distinct metrics (add_dependency found metric)
      (add_dependency-Distinct found metric d)

-- A text that is not among those done.
waiting_one :
    (done ts : List Text)
    → waiting done ts ≢ 0
    → (u : Text) × (member u ts ≡ true) × (member u done ≡ false)
waiting_one done [] h = absurd (h refl)
waiting_one done (t ∷ ts) h = elim (Bool-cases (member t done)) [
  | inl e ↦ let (u, m, n) = waiting_one done ts (λ z. h (ground arith)) in (u, ground arith, n)
  | inr e ↦ (t, ground (arith, text_eq_refl t), e)
]

-- What an answer says: an order has each formula once, after those that it depends on. An error
-- is a dependency that is no formula; or there are formulas, one at least, each of which
-- depends on one of them.
abbrev pub Answers : List Text → (Text → List Text) → Result (List Text) → Type 0
Answers ids deps (ok order) =
    Distinct order × ((v : Text) → member v order ≡ member v ids) × DependenciesFirst deps [] order
Answers ids deps (err e) =
    ((v : Text) × (d : Text) × (e ≡ missing_formula d)
      × (member v ids ≡ true)
      × (member d (deps v) ≡ true)
      × (member d ids ≡ false))
    ⊎ ((stuck : Text → Bool) × (e ≡ cyclic_dependency)
        × ((v : Text) × (stuck v ≡ true))
        × ((v : Text)
            → stuck v ≡ true
            → (member v ids ≡ true) × ((u : Text) × (member u (deps v) ≡ true) × (stuck u ≡ true))))

module _ (iterate : List Text → List Text) where
  -- The dependencies of a formula, in the order in which Python goes through them.
  abbrev pub found_dependencies : Option FormulaDefinition → List Text
  found_dependencies none = []
  found_dependencies (some definition) = iterate (extract_dependencies definition)

  abbrev pub dependencies_in : Dict FormulaDefinition → Text → List Text
  dependencies_in formulas v = found_dependencies (get v formulas)

  module _ (order_of : IsOrder iterate) where
    found_Distinct : (o : Option FormulaDefinition) → Distinct (found_dependencies o)
    unfolding extract_dependencies
    found_Distinct none = tt
    found_Distinct (some definition) =
        order_of.distinct (extract_dependencies definition)
          (add_dependencies-Distinct definition.input_metrics [] tt)

    check_order-Answers :
        (ids order : List Text) (deps : Text → List Text)
        → Ended ids deps order
        → ((u v : Text) → member v ids ≡ true → member u (deps v) ≡ true → member u ids ≡ true)
        → Answers ids deps (check_order ids order)
    unfolding check_order
    check_order-Answers ids order deps e known = elim (Bool-cases (length order == length ids)) [
      | inl all ↦
          let none_left : waiting order ids ≡ 0 = ground (arith, e.total) in
          rw all (
            e.order_distinct,
            (λ v. ground (arith, e.within v, waiting-zero order ids v none_left)),
            e.first,
          )
      | inr some_left ↦
          let (v, m, n) = waiting_one order ids (λ z. ground (arith, e.total)) in
          rw some_left (
            inr (
              (λ t. member t ids && not (member t order)),
              refl,
              (v, ground arith),
              λ t stuck.
                  let (u, dep, new) =
                    waiting_one order (deps t) (e.stuck t (ground arith) (ground arith)) in
                  (ground arith, (u, dep, ground (arith, known u t))),
            ))
    ]

    module _ (formulas : Dict FormulaDefinition) (unique : Distinct (keys formulas)) where
      -- A formula's definition is found under its name.
      rest_Describes :
          (more : Dict FormulaDefinition) (deps : Text → List Text)
          → ((id : Text) → member id (keys more) ≡ true → deps id ≡ dependencies_in more id)
          → Distinct (keys more)
          → Describes iterate order_of deps (keys formulas) more
      unfolding get
      rest_Describes [] deps h d = tt
      rest_Describes ((id, definition) ∷ more) deps h (new, d) = (
        sym (h id (ground (arith, text_eq_refl id)) ∙ rw (text_eq_refl id) refl),
        rest_Describes more deps
            (λ v m.
              let other : text_eq v id ≡ false = ground (arith, member_same v id (keys more)) in
              h v (ground arith) ∙ rw other refl)
            d,
      )

      links-Answers :
          (r : Result Links)
          → LinkedAll iterate order_of
              (dependencies_in formulas)
              (keys formulas)
              (λ v. false)
              formulas
              r
          → Answers (keys formulas) (dependencies_in formulas) (
              r >>= λ links.
              take_nodes iterate
                (length (keys formulas))
                links.graph
                links.inbound
                (without_inbound links.inbound (keys formulas))
                []
              >>= check_order (keys formulas))
      links-Answers (err e) h = inl h
      links-Answers (ok links) h =
          let (order, run, ended) =
            take_nodes-Ended iterate order_of (keys formulas) unique (dependencies_in formulas)
              (λ v. found_Distinct (get v formulas)) links.graph h.distinct h.members links.inbound
              h.inbound in
          rw run
            (check_order-Answers (keys formulas) order (dependencies_in formulas) ended h.known)

      -- For a dictionary of formulas, and whatever the order in which Python goes through its
      -- sets, `resolve_order` answers with an order that has each formula once, after all that it
      -- depends on; or it raises on a dependency that is no formula; or it raises that there is a
      -- cycle, and then there are formulas, one at least, each of which depends on one of them.
      pub resolve_order-Answers :
          Answers (keys formulas) (dependencies_in formulas) (resolve_order iterate formulas)
      unfolding resolve_order
      resolve_order-Answers =
          links-Answers
            (add_all_edges iterate (keys formulas) formulas
              (record { inbound = λ t. 0; graph = λ t. [] }))
            (add_all_edges-LinkedAll iterate order_of (dependencies_in formulas) (keys formulas)
              (λ v. false) formulas (record { inbound = λ t. 0; graph = λ t. [] })
              (rest_Describes formulas (dependencies_in formulas) (λ id m. refl) unique)
              (λ v. found_Distinct (get v formulas)) unique (λ v m. refl)
              (record {
                inbound = λ v m. cc;
                untouched = λ v m. refl;
                members = λ u v. refl;
                distinct = λ u. tt;
                known = λ u v m n. cc;
              }))
