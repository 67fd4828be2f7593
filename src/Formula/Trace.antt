-- ===== src/Formula/Trace.antt =====
-- The trace of an evaluation.
use mathlib.Core.List.{append_assoc, map-append, append-nil}
use backend_business_intelli.Prelude.{◌≡◌, refl, ◌∙◌, List, [], ◌∷◌, ◌++◌, map}
use backend_business_intelli.Formula.Base.{
  Text, Node, Nodes, Result, number, identifier, call, nil, cons, ok, err, ◌>>=◌, or_raise,
}
use backend_business_intelli.Formula.Values.{Floats, Value}
use backend_business_intelli.Formula.Executor.{
  Dict, get, TraceStep, identifier_step, call_step, eval_node, eval_args, get_function, to_float,
  evaluate,
}

module _ {F : Type 0} where
  -- The names of a tree in the order of the evaluation: a call stands after its arguments.
  unfoldable mutual
    pub postorder : Node F → List Text
    postorder (number v) = []
    postorder (identifier name) = name ∷ []
    postorder (call name args) = postorder_args args ++ name ∷ []

    pub postorder_args : Nodes F → List Text
    postorder_args nil = []
    postorder_args (cons arg args) = postorder arg ++ postorder_args args

  abbrev pub step_name : TraceStep F → Text
  step_name (identifier_step name value) = name
  step_name (call_step name values result) = name

-- A run that succeeded, and its parts.
>>=-eq-ok {ℓ κ} :
    {A : Type ℓ} {B : Type κ} (m : Result A) (f : A → Result B) (b : B)
    → (m >>= f) ≡ ok b
    → (a : A) × (m ≡ ok a) × (f a ≡ ok b)
>>=-eq-ok (ok a) f b h = (a, refl, h)
>>=-eq-ok (err e) f b h = cc

module _ {F : Type 0} (floats : Floats F) (metrics : Dict (Value F)) where
  mutual
    unfolding eval_node postorder

    eval-names :
        (n : Node F) (trace steps : List (TraceStep F)) (value : Value F)
        → eval_node floats metrics n trace ≡ ok (value, steps)
        → map step_name steps ≡ map step_name trace ++ postorder n
    eval-names (number v) trace steps value h =
        let same : steps ≡ trace = cc in rw (same, append-nil)
    eval-names (identifier name) trace steps value h =
        let (v, _, done) = >>=-eq-ok (or_raise (get name metrics) _) _ (value, steps) h in
        let same : trace ++ identifier_step name v ∷ [] ≡ steps = cc in
        rw (← same) (map-append step_name trace (identifier_step name v ∷ []))
    eval-names (call name args) trace steps value h =
        let ((values, mid), run, h₁) =
          >>=-eq-ok (eval_args floats metrics args trace) _ (value, steps) h in
        let (fn, _, h₂) = >>=-eq-ok (get_function floats name) _ (value, steps) h₁ in
        let (result, _, done) = >>=-eq-ok (fn values) _ (value, steps) h₂ in
        let same : mid ++ call_step name values result ∷ [] ≡ steps = cc in
        rw (← same) (
          map-append step_name mid (call_step name values result ∷ [])
          ∙ rw (eval_args-names args trace mid values run)
              (append_assoc (map step_name trace) (postorder_args args) (name ∷ [])))

    eval_args-names :
        (ns : Nodes F) (trace steps : List (TraceStep F)) (values : List (Value F))
        → eval_args floats metrics ns trace ≡ ok (values, steps)
        → map step_name steps ≡ map step_name trace ++ postorder_args ns
    eval_args-names nil trace steps values h =
        let same : steps ≡ trace = cc in rw (same, append-nil)
    eval_args-names (cons n ns) trace steps values h =
        let ((v, mid), run, h₁) =
          >>=-eq-ok (eval_node floats metrics n trace) _ (values, steps) h in
        let ((vs, last), run', done) =
          >>=-eq-ok (eval_args floats metrics ns mid) _ (values, steps) h₁ in
        let same : last ≡ steps = cc in
        rw (← same) (
          eval_args-names ns mid last vs run'
          ∙ rw (eval-names n trace mid v run)
              (append_assoc (map step_name trace) (postorder n) (postorder_args ns)))

  -- An evaluation that gives a value has added to the trace one step for each identifier and each
  -- call of the tree, the arguments of a call before the call.
  pub evaluate-trace :
      (n : Node F) (trace steps : List (TraceStep F)) (x : F)
      → evaluate floats metrics n trace ≡ ok (x, steps)
      → map step_name steps ≡ map step_name trace ++ postorder n
  unfolding evaluate
  evaluate-trace n trace steps x h =
      let ((value, mid), run, h₁) = >>=-eq-ok (eval_node floats metrics n trace) _ (x, steps) h in
      let (y, _, done) = >>=-eq-ok (to_float floats value) _ (x, steps) h₁ in
      let same : mid ≡ steps = cc in rw (← same) (eval-names n trace mid value run)
