-- ===== src/Formula/Safety/Local.antt =====
-- What the functions of a formula raise by themselves.
pub mod Arguments
use backend_business_intelli.Prelude.{
  ◌≡◌, refl, Bool, true, false, Option, none, some, List, [], ◌∷◌, ◌==◌, length, Bool-cases, inl,
  inr, if◌then◌else◌, ℕ, zero, suc,
}
use backend_business_intelli.Formula.Base.{
  Text, text_eq, FormulaError, Result, ok, err, ◌>>=◌, or_raise, missing_metric,
  unsupported_function,
}
use backend_business_intelli.Formula.Validator.{member, allowed_functions}
use backend_business_intelli.Formula.Values.{
  Floats, Item, Value, num, missing, text, scalar, series, nth, float_of, numeric, all_floats,
  expand_values,
}
use backend_business_intelli.Formula.Functions.{
  Function, two_numbers, absolute, sum_of, average, average_floats, extreme_floats, extreme_of,
  count_of, count_distinct, divide, rounded, products, weighted, weighted_avg, trend_slope, choose,
  coalesce, clamp, table,
}
use backend_business_intelli.Formula.Executor.{Dict, get, get_function}
use Arguments.{
  IsLocal, RaisesLocal, bind-RaisesLocal, raise-RaisesLocal, if-RaisesLocal, nth-RaisesLocal,
  float-RaisesLocal, numeric-RaisesLocal, all-RaisesLocal, expand-RaisesLocal, products-RaisesLocal,
  at-RaisesLocal, AllLocal,
}

module _ {F : Type 0} (floats : Floats F) where
  two-RaisesLocal : (op : F → F → F) → AllLocal floats (two_numbers floats op)
  unfolding two_numbers
  two-RaisesLocal op v = at-RaisesLocal floats 0 v _ λ x. at-RaisesLocal floats 1 v _ λ y. tt

  absolute-RaisesLocal : AllLocal floats (absolute floats)
  unfolding absolute
  absolute-RaisesLocal v = at-RaisesLocal floats 0 v _ λ x. tt

  sum-RaisesLocal : AllLocal floats (sum_of floats)
  unfolding sum_of
  sum-RaisesLocal v =
      bind-RaisesLocal (expand_values floats v) _ (expand-RaisesLocal floats v) λ xs. tt

  average_floats-RaisesLocal : (xs : List F) → RaisesLocal (average_floats floats xs)
  unfolding average_floats
  average_floats-RaisesLocal [] = tt
  average_floats-RaisesLocal (x ∷ xs) = tt

  average-RaisesLocal : AllLocal floats (average floats)
  unfolding average
  average-RaisesLocal v =
      bind-RaisesLocal (expand_values floats v) _ (expand-RaisesLocal floats v)
        average_floats-RaisesLocal

  extreme_floats-RaisesLocal :
      (beyond : F → F → Bool) (xs : List F) → RaisesLocal (extreme_floats floats beyond xs)
  unfolding extreme_floats
  extreme_floats-RaisesLocal beyond [] = tt
  extreme_floats-RaisesLocal beyond (x ∷ xs) = tt

  extreme-RaisesLocal : (beyond : F → F → Bool) → AllLocal floats (extreme_of floats beyond)
  unfolding extreme_of
  extreme-RaisesLocal beyond v =
      bind-RaisesLocal (expand_values floats v) _ (expand-RaisesLocal floats v)
        (extreme_floats-RaisesLocal beyond)

  count-RaisesLocal : AllLocal floats (count_of floats)
  unfolding count_of
  count-RaisesLocal v =
      bind-RaisesLocal (expand_values floats v) _ (expand-RaisesLocal floats v) λ xs. tt

  distinct-RaisesLocal : AllLocal floats (count_distinct floats)
  unfolding count_distinct
  distinct-RaisesLocal v =
      bind-RaisesLocal (expand_values floats v) _ (expand-RaisesLocal floats v) λ xs. tt

  divide-RaisesLocal : AllLocal floats (divide floats)
  unfolding divide
  divide-RaisesLocal v = at-RaisesLocal floats 1 v _ λ d.
      if-RaisesLocal (floats.eq d (floats.of_nat 0)) _ _ tt (at-RaisesLocal floats 0 v _ λ x. tt)

  rounded-RaisesLocal : AllLocal floats (rounded floats)
  unfolding rounded
  rounded-RaisesLocal v =
      if-RaisesLocal (length v == 1) _ _
        (at-RaisesLocal floats 0 v _
          λ x. bind-RaisesLocal _ _ (raise-RaisesLocal (floats.round x) _ tt) λ y. tt)
        (at-RaisesLocal floats 0 v _ λ x.
          at-RaisesLocal floats 1 v _
            λ d. bind-RaisesLocal _ _ (raise-RaisesLocal (floats.round_to x d) _ tt) λ y. tt)

  weighted-RaisesLocal : (ms ws : List (Item F)) → RaisesLocal (weighted floats ms ws)
  unfolding weighted
  weighted-RaisesLocal ms ws =
      if-RaisesLocal (length ms == length ws) _ _
        (bind-RaisesLocal (all_floats floats ws) _ (all-RaisesLocal floats ws) λ xs.
          if-RaisesLocal (floats.eq (floats.sum xs) (floats.of_nat 0)) _ _ tt (
            bind-RaisesLocal (products floats ms ws) _ (products-RaisesLocal floats ms ws)
              λ zs. tt))
        tt

  weighted_avg-RaisesLocal : AllLocal floats (weighted_avg floats)
  unfolding weighted_avg
  weighted_avg-RaisesLocal (series ms ∷ series ws ∷ []) = weighted-RaisesLocal ms ws
  weighted_avg-RaisesLocal [] = tt
  weighted_avg-RaisesLocal (scalar i ∷ []) = tt
  weighted_avg-RaisesLocal (series ms ∷ []) = tt
  weighted_avg-RaisesLocal (scalar i ∷ b ∷ []) = tt
  weighted_avg-RaisesLocal (series ms ∷ scalar i ∷ []) = tt
  weighted_avg-RaisesLocal (scalar i ∷ b ∷ c ∷ v) = tt
  weighted_avg-RaisesLocal (series ms ∷ scalar i ∷ c ∷ v) = tt
  weighted_avg-RaisesLocal (series ms ∷ series ws ∷ c ∷ v) = tt

  trend-RaisesLocal : AllLocal floats (trend_slope floats)
  unfolding trend_slope
  trend-RaisesLocal (series (a ∷ b ∷ is) ∷ v) =
      bind-RaisesLocal _ _ (float-RaisesLocal floats _)
        λ y. bind-RaisesLocal (float_of floats a) _ (float-RaisesLocal floats a) λ x. tt
  trend-RaisesLocal _ = tt

  choose-RaisesLocal : AllLocal floats (choose floats)
  unfolding choose
  choose-RaisesLocal (a ∷ b ∷ c ∷ []) = tt
  choose-RaisesLocal _ = tt

  coalesce-RaisesLocal : AllLocal floats (coalesce floats)
  unfolding coalesce
  coalesce-RaisesLocal [] = tt
  coalesce-RaisesLocal (scalar missing ∷ v) = coalesce-RaisesLocal v
  coalesce-RaisesLocal (scalar (num x) ∷ v) = tt
  coalesce-RaisesLocal (scalar (text t) ∷ v) = tt
  coalesce-RaisesLocal (series is ∷ v) = tt

  clamp-RaisesLocal : AllLocal floats (clamp floats)
  unfolding clamp
  clamp-RaisesLocal (a ∷ b ∷ c ∷ []) =
      bind-RaisesLocal (numeric floats a) _ (numeric-RaisesLocal floats a) λ x.
        bind-RaisesLocal (numeric floats b) _ (numeric-RaisesLocal floats b) λ y.
          bind-RaisesLocal (numeric floats c) _ (numeric-RaisesLocal floats c)
            λ z. if-RaisesLocal (floats.lt z y) _ _ tt tt
  clamp-RaisesLocal _ = tt

  -- The function that a name of the table stands for, and all functions of the table.
  infixr 20 ◌▸◌
  data Local : Dict (Function floats) → Type 0 where
    done : Local []
    ◌▸◌ :
        {name : Text} {fn : Function floats} {dict : Dict (Function floats)}
        → AllLocal floats fn
        → Local dict
        → Local ((name, fn) ∷ dict)

  table-Local : Local (table floats)
  table-Local =
      two-RaisesLocal floats.add
      ▸ two-RaisesLocal floats.sub
      ▸ two-RaisesLocal floats.mul
      ▸ divide-RaisesLocal
      ▸ absolute-RaisesLocal
      ▸ rounded-RaisesLocal
      ▸ sum-RaisesLocal
      ▸ average-RaisesLocal
      ▸ extreme-RaisesLocal floats.lt
      ▸ extreme-RaisesLocal (λ x y. floats.lt y x)
      ▸ count-RaisesLocal
      ▸ distinct-RaisesLocal
      ▸ weighted_avg-RaisesLocal
      ▸ sum-RaisesLocal
      ▸ average-RaisesLocal
      ▸ two-RaisesLocal floats.sub
      ▸ trend-RaisesLocal
      ▸ choose-RaisesLocal
      ▸ coalesce-RaisesLocal
      ▸ clamp-RaisesLocal
      ▸ done

  abbrev keys : {A : Type 0} → Dict A → List Text
  keys [] = []
  keys ((name, fn) ∷ dict) = name ∷ keys dict

  get-Local :
      (name : Text) (dict : Dict (Function floats))
      → Local dict
      → member name (keys dict) ≡ true
      → (fn : Function floats) × (get name dict ≡ some fn) × AllLocal floats fn
  unfolding get
  get-Local name [] done m = cc
  get-Local name ((key, fn) ∷ dict) (h ▸ hs) m = elim (Bool-cases (text_eq name key)) [
    | inl e ↦ rw e (fn, refl, h)
    | inr e ↦ let m' = rw e at m in rw e (get-Local name dict hs m')
  ]

  -- A name that the validator allows is in the table, and its function raises no error of another
  -- part.
  pub get_function-Local :
      (name : Text)
      → member name allowed_functions ≡ true
      → (fn : Function floats) × (get_function floats name ≡ ok fn) × AllLocal floats fn
  unfolding get_function
  get_function-Local name m =
      let (fn, e, h) = get-Local name (table floats) table-Local m in (fn, rw e refl, h)
