-- ===== src/Formula/Values.antt =====
-- kpi/application/formula_executor.py: the values of the metrics, and the functions of a formula.
use backend_business_intelli.Prelude.{ℕ, zero, suc, Bool, Option, List, [], ◌∷◌, ◌++◌}
use backend_business_intelli.Formula.Base.{
  Text, Result, ok, err, ◌>>=◌, or_raise, list_as_scalar, index_error, type_error, value_error,
}

-- The floats of Python, and the functions on them that the engine calls. `of_text` is `float` of a
-- text, `none` its ValueError; `none` of `round` and `round_to` is
-- what they raise on an infinity or a NaN.
pub record Floats (F : Type 0) : Type 0 where
  pub of_nat : ℕ → F
  pub of_text : Text → Option F
  pub add : F → F → F
  pub sub : F → F → F
  pub mul : F → F → F
  pub div : F → F → F
  pub abs : F → F
  pub lt : F → F → Bool
  pub eq : F → F → Bool
  pub sum : List F → F
  pub mean : List F → F
  pub distinct : List F → ℕ
  pub round : F → Option F
  pub round_to : F → F → Option F

-- An entry of the metrics: a number, `None`, a text, or a list of these.
pub data Item (F : Type 0) : Type 0 where
  num : F → Item F
  missing : Item F
  text : Text → Item F

pub data Value (F : Type 0) : Type 0 where
  scalar : Item F → Value F
  series : List (Item F) → Value F

-- `v[n]`
unfoldable pub nth {ℓ} : {A : Type ℓ} → ℕ → List A → Result A
nth n [] = err index_error
nth zero (a ∷ more) = ok a
nth (suc n) (a ∷ more) = nth n more

module _ {F : Type 0} (floats : Floats F) where
  open floats use {of_text}

  -- `float(item)`
  unfoldable pub float_of : Item F → Result F
  float_of (num x) = ok x
  float_of missing = err type_error
  float_of (text t) = or_raise (of_text t) value_error

  unfoldable pub numeric : Value F → Result F
  unfolding float_of
  numeric (scalar item) = float_of item
  numeric (series items) = err list_as_scalar

  unfoldable pub all_floats : List (Item F) → Result (List F)
  unfolding float_of
  all_floats [] = ok []
  all_floats (item ∷ items) = float_of item >>= λ x. all_floats items >>= λ xs. ok (x ∷ xs)

  unfoldable pub expand_values : List (Value F) → Result (List F)
  unfolding all_floats
  expand_values [] = ok []
  expand_values (scalar item ∷ values) =
      float_of item >>= λ x. expand_values values >>= λ xs. ok (x ∷ xs)
  expand_values (series items ∷ values) =
      all_floats items >>= λ xs. expand_values values >>= λ ys. ok (xs ++ ys)
