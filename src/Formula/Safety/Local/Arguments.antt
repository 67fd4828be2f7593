-- ===== src/Formula/Safety/Local/Arguments.antt =====
-- What the conversions of arguments raise by themselves.
use backend_business_intelli.Prelude.{
  Bool, true, false, Option, none, some, List, [], ◌∷◌, if◌then◌else◌, ℕ, zero, suc,
}
use backend_business_intelli.Formula.Base.{
  FormulaError, Result, ok, err, ◌>>=◌, or_raise, missing_metric, unsupported_function,
}
use backend_business_intelli.Formula.Values.{
  Floats, Item, Value, num, missing, text, scalar, series, nth, float_of, numeric, all_floats,
  expand_values,
}
use backend_business_intelli.Formula.Functions.{Function, products}

-- The errors that a function or a conversion raises by itself.
abbrev pub IsLocal : FormulaError → Type 0
IsLocal (missing_metric name) = ⊥
IsLocal (unsupported_function name) = ⊥
IsLocal _ = Unit

abbrev pub RaisesLocal {ℓ} : {A : Type ℓ} → Result A → Type 0
RaisesLocal (ok a) = Unit
RaisesLocal (err e) = IsLocal e

pub bind-RaisesLocal {ℓ κ} :
    {A : Type ℓ} {B : Type κ} (m : Result A) (f : A → Result B)
    → RaisesLocal m
    → ((a : A) → RaisesLocal (f a))
    → RaisesLocal (m >>= f)
bind-RaisesLocal (ok a) f h k = k a
bind-RaisesLocal (err e) f h k = h

pub raise-RaisesLocal {ℓ} :
    {A : Type ℓ} (o : Option A) (e : FormulaError) → IsLocal e → RaisesLocal (or_raise o e)
raise-RaisesLocal none e h = h
raise-RaisesLocal (some a) e h = tt

pub if-RaisesLocal {ℓ} :
    {A : Type ℓ} (b : Bool) (x y : Result A)
    → RaisesLocal x
    → RaisesLocal y
    → RaisesLocal (if b then x else y)
if-RaisesLocal true x y hx hy = hx
if-RaisesLocal false x y hx hy = hy

pub nth-RaisesLocal {ℓ} : {A : Type ℓ} (n : ℕ) (xs : List A) → RaisesLocal (nth n xs)
unfolding nth
nth-RaisesLocal n [] = tt
nth-RaisesLocal zero (x ∷ xs) = tt
nth-RaisesLocal (suc n) (x ∷ xs) = nth-RaisesLocal n xs

module _ {F : Type 0} (floats : Floats F) where
  pub float-RaisesLocal : (i : Item F) → RaisesLocal (float_of floats i)
  unfolding float_of
  float-RaisesLocal (num x) = tt
  float-RaisesLocal missing = tt
  float-RaisesLocal (text t) = raise-RaisesLocal (floats.of_text t) _ tt

  pub numeric-RaisesLocal : (v : Value F) → RaisesLocal (numeric floats v)
  unfolding numeric
  numeric-RaisesLocal (scalar i) = float-RaisesLocal i
  numeric-RaisesLocal (series is) = tt

  pub all-RaisesLocal : (is : List (Item F)) → RaisesLocal (all_floats floats is)
  unfolding all_floats
  all-RaisesLocal [] = tt
  all-RaisesLocal (i ∷ is) =
      bind-RaisesLocal (float_of floats i) _ (float-RaisesLocal i)
        λ x. bind-RaisesLocal (all_floats floats is) _ (all-RaisesLocal is) λ xs. tt

  pub expand-RaisesLocal : (vs : List (Value F)) → RaisesLocal (expand_values floats vs)
  unfolding expand_values
  expand-RaisesLocal [] = tt
  expand-RaisesLocal (scalar i ∷ vs) =
      bind-RaisesLocal (float_of floats i) _ (float-RaisesLocal i)
        λ x. bind-RaisesLocal (expand_values floats vs) _ (expand-RaisesLocal vs) λ xs. tt
  expand-RaisesLocal (series is ∷ vs) =
      bind-RaisesLocal (all_floats floats is) _ (all-RaisesLocal is)
        λ x. bind-RaisesLocal (expand_values floats vs) _ (expand-RaisesLocal vs) λ xs. tt

  pub products-RaisesLocal : (ms ws : List (Item F)) → RaisesLocal (products floats ms ws)
  unfolding products
  products-RaisesLocal [] ws = tt
  products-RaisesLocal (m ∷ ms) [] = tt
  products-RaisesLocal (m ∷ ms) (w ∷ ws) =
      bind-RaisesLocal (float_of floats m) _ (float-RaisesLocal m) λ x.
        bind-RaisesLocal (float_of floats w) _ (float-RaisesLocal w)
          λ y. bind-RaisesLocal (products floats ms ws) _ (products-RaisesLocal ms ws) λ zs. tt

  -- A numeric argument, and what goes on with it.
  pub at-RaisesLocal :
      {B : Type 0} (n : ℕ) (v : List (Value F)) (f : F → Result B)
      → ((x : F) → RaisesLocal (f x))
      → RaisesLocal (nth n v >>= numeric floats >>= f)
  at-RaisesLocal n v f k =
      bind-RaisesLocal (nth n v >>= numeric floats) f
        (bind-RaisesLocal (nth n v) (numeric floats) (nth-RaisesLocal n v) numeric-RaisesLocal) k

  abbrev pub AllLocal : Function floats → Type 0
  AllLocal fn = (v : List (Value F)) → RaisesLocal (fn v)
