-- ===== src/Formula/Identifiers.antt =====
-- What `_collect_identifiers` collects, and what an evaluation reads of the metrics.

use backend_business_intelli.Prelude.{
  ◌≡◌, refl, ap, ◌∙◌, Bool, true, false, ◌||◌, List, [], ◌∷◌, ◌++◌, arith, Bool-cases, inl, inr,
}
use backend_business_intelli.Formula.Base.{
  Text, text_eq, Node, Nodes, number, identifier, call, nil, cons, ok, ◌>>=◌,
}
use backend_business_intelli.Formula.Validator.{
  member, add, walk_identifiers, walk_args, collect_identifiers,
}
use backend_business_intelli.Formula.Values.{Floats, Value}
use backend_business_intelli.Formula.Executor.{Dict, get, TraceStep, eval_node, eval_args, evaluate}

pub text_eq_refl : (t : Text) → text_eq t t ≡ true
text_eq_refl [] = refl
text_eq_refl (a ∷ t) = ground (arith, text_eq_refl t)

pub text_eq→≡ : (t u : Text) → text_eq t u ≡ true → t ≡ u
text_eq→≡ [] [] h = refl
text_eq→≡ [] (b ∷ u) h = cc
text_eq→≡ (a ∷ t) [] h = cc
text_eq→≡ (a ∷ t) (b ∷ u) h = ground (arith, text_eq→≡ t u)

pub member-append :
    (t : Text) (us vs : List Text) → member t (us ++ vs) ≡ (member t us || member t vs)
member-append t [] vs = refl
member-append t (u ∷ us) vs = ground (arith, member-append t us vs)

pub member-add : (t u : Text) (us : List Text) → member t (add u us) ≡ (member t us || text_eq t u)
unfolding add
member-add t u us = elim (Bool-cases (member u us)) [
  | inl e ↦ rw e (elim (Bool-cases (text_eq t u)) [
    | inl same ↦ let h : member t us ≡ true = rw (text_eq→≡ t u same) e in ground arith
    | inr other ↦ ground arith
  ])
  | inr e ↦ rw e (member-append t us (u ∷ []) ∙ ground arith)
]

module _ {F : Type 0} where
  -- The name stands in the tree.
  unfoldable mutual
    pub occurs : Text → Node F → Bool
    occurs t (number v) = false
    occurs t (identifier name) = text_eq t name
    occurs t (call name args) = occurs_args t args

    pub occurs_args : Text → Nodes F → Bool
    occurs_args t nil = false
    occurs_args t (cons arg args) = occurs t arg || occurs_args t args

  mutual
    unfolding walk_identifiers occurs

    member-walk :
        (t : Text) (n : Node F) (us : List Text)
        → member t (walk_identifiers n us) ≡ (member t us || occurs t n)
    member-walk t (number v) us = ground arith
    member-walk t (identifier name) us = member-add t name us
    member-walk t (call name args) us = member-walk_args t args us

    member-walk_args :
        (t : Text) (ns : Nodes F) (us : List Text)
        → member t (walk_args ns us) ≡ (member t us || occurs_args t ns)
    member-walk_args t nil us = ground arith
    member-walk_args t (cons n ns) us =
        ground (arith, member-walk_args t ns (walk_identifiers n us), member-walk t n us)

  pub member-collect : (t : Text) (n : Node F) → member t (collect_identifiers n) ≡ occurs t n
  unfolding collect_identifiers
  member-collect t n = member-walk t n []

module _ {F : Type 0} (floats : Floats F) (m m' : Dict (Value F)) where
  mutual
    unfolding eval_node occurs

    eval-agree :
        (n : Node F) (trace : List (TraceStep F))
        → ((t : Text) → occurs t n ≡ true → get t m ≡ get t m')
        → eval_node floats m n trace ≡ eval_node floats m' n trace
    eval-agree (number v) trace h = refl
    eval-agree (identifier name) trace h = rw (h name (text_eq_refl name)) refl
    eval-agree (call name args) trace h = rw (eval_args-agree args trace h) refl

    eval_args-agree :
        (ns : Nodes F) (trace : List (TraceStep F))
        → ((t : Text) → occurs_args t ns ≡ true → get t m ≡ get t m')
        → eval_args floats m ns trace ≡ eval_args floats m' ns trace
    eval_args-agree nil trace h = refl
    eval_args-agree (cons n ns) trace h = rw (eval-agree n trace (λ t o. h t (ground arith))) (
        ap (λ k. eval_node floats m' n trace >>= k)
          (λ i read. eval_args-agree ns read.1 (λ t o. h t (ground arith)) i >>= λ more.
            ok (read.0 ∷ more.0, more.1)))

  -- Two contexts that agree on the identifiers which the validator collects from a tree give the
  -- same value, the same trace and the same error.
  pub evaluate-agree :
      (n : Node F) (trace : List (TraceStep F))
      → ((t : Text) → member t (collect_identifiers n) ≡ true → get t m ≡ get t m')
      → evaluate floats m n trace ≡ evaluate floats m' n trace
  unfolding evaluate
  evaluate-agree n trace h = rw (eval-agree n trace (λ t o. h t (member-collect t n ∙ o))) refl
