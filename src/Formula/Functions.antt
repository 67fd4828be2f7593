-- ===== src/Formula/Functions.antt =====
-- kpi/application/formula_executor.py: the functions that a formula may call, and their table.
use backend_business_intelli.Prelude.{
  ℕ, Bool, true, false, not, List, [], ◌∷◌, ◌==◌, if◌then◌else◌, length,
}
use backend_business_intelli.Formula.Base.{
  Text, codes, Result, ok, err, ◌>>=◌, or_raise, rounding_error, division_by_zero,
  weighted_avg_arity, weighted_avg_lists, weighted_avg_sizes, weighted_avg_total, if_arity,
  clamp_arity, clamp_order, value_error,
}
use backend_business_intelli.Formula.Values.{
  Floats, Item, Value, num, missing, text, scalar, series, nth, numeric, float_of, all_floats,
  expand_values,
}

module _ {F : Type 0} (floats : Floats F) where
  open floats use {of_nat, add, sub, mul, div, abs, lt, eq, sum, mean, distinct, round, round_to}

  abbrev pub Function : Type 0
  Function = List (Value F) → Result (Value F)

  abbrev number : F → Result (Value F)
  number x = ok (scalar (num x))

  abbrev number_at : ℕ → List (Value F) → Result F
  number_at n v = nth n v >>= numeric floats

  -- The functions `lambda v: self._numeric(v[0]) <op> self._numeric(v[1])`.
  unfoldable pub two_numbers : (F → F → F) → Function
  unfolding nth numeric
  two_numbers op v = number_at 0 v >>= λ x. number_at 1 v >>= λ y. number (op x y)

  unfoldable pub absolute : Function
  unfolding nth numeric
  absolute v = number_at 0 v >>= λ x. number (abs x)

  unfoldable pub sum_of : Function
  unfolding expand_values
  sum_of v = expand_values floats v >>= λ xs. number (sum xs)

  unfoldable pub average_floats : List F → Result (Value F)
  average_floats [] = number (of_nat 0)
  average_floats (x ∷ xs) = number (mean (x ∷ xs))

  unfoldable pub average : Function
  unfolding expand_values average_floats
  average v = expand_values floats v >>= average_floats

  -- `min` and `max` of a list: a later value replaces an earlier one only if it is beyond it.
  unfoldable pub extreme : (F → F → Bool) → F → List F → F
  extreme beyond best [] = best
  extreme beyond best (x ∷ xs) = extreme beyond (if beyond x best then x else best) xs

  unfoldable pub extreme_floats : (F → F → Bool) → List F → Result (Value F)
  unfolding extreme
  extreme_floats beyond [] = err value_error
  extreme_floats beyond (x ∷ xs) = number (extreme beyond x xs)

  unfoldable pub extreme_of : (F → F → Bool) → Function
  unfolding extreme_floats expand_values
  extreme_of beyond v = expand_values floats v >>= extreme_floats beyond

  unfoldable pub count_of : Function
  unfolding expand_values
  count_of v = expand_values floats v >>= λ xs. number (of_nat (length xs))

  unfoldable pub count_distinct : Function
  unfolding expand_values
  count_distinct v = expand_values floats v >>= λ xs. number (of_nat (distinct xs))

  -- `_div`
  unfoldable pub divide : Function
  unfolding nth numeric
  divide v = number_at 1 v >>= λ denominator.
      if eq denominator (of_nat 0)
      then err division_by_zero
      else (number_at 0 v >>= λ x. number (div x denominator))

  -- `_round`
  unfoldable pub rounded : Function
  unfolding nth numeric
  rounded v =
      if length v == 1
      then (number_at 0 v >>= λ x. or_raise (round x) rounding_error >>= λ y. number y)
      else (number_at 0 v >>= λ x.
          number_at 1 v >>= λ digits. or_raise (round_to x digits) rounding_error >>= λ y. number y)

  -- `float(metric) * float(weight)` along the pairs.
  unfoldable pub products : List (Item F) → List (Item F) → Result (List F)
  unfolding float_of
  products (m ∷ ms) (w ∷ ws) = float_of floats m >>= λ x.
      float_of floats w >>= λ y. products ms ws >>= λ zs. ok (mul x y ∷ zs)
  products _ _ = ok []

  unfoldable pub weighted : List (Item F) → List (Item F) → Result (Value F)
  unfolding all_floats products
  weighted metrics weights =
      if length metrics == length weights
      then (all_floats floats weights >>= λ ws.
          if eq (sum ws) (of_nat 0)
          then err weighted_avg_total
          else (products metrics weights >>= λ total. number (div (sum total) (sum ws))))
      else err weighted_avg_sizes

  unfoldable pub weighted_avg : Function
  unfolding weighted
  weighted_avg (series metrics ∷ series weights ∷ []) = weighted metrics weights
  weighted_avg (a ∷ b ∷ []) = err weighted_avg_lists
  weighted_avg _ = err weighted_avg_arity

  -- `series[-1]`
  unfoldable pub last_item : Item F → List (Item F) → Item F
  last_item item [] = item
  last_item item (next ∷ items) = last_item next items

  unfoldable pub trend_slope : Function
  unfolding last_item float_of
  trend_slope (series (first ∷ second ∷ items) ∷ v) =
      float_of floats (last_item second items) >>= λ y.
      float_of floats first >>= λ x. number (sub y x)
  trend_slope _ = number (of_nat 0)

  -- `bool(value)`
  unfoldable pub truthy : Value F → Bool
  truthy (scalar (num x)) = not (eq x (of_nat 0))
  truthy (scalar missing) = false
  truthy (scalar (text [])) = false
  truthy (scalar (text (c ∷ t))) = true
  truthy (series []) = false
  truthy (series (item ∷ items)) = true

  -- `_if`
  unfoldable pub choose : Function
  unfolding truthy
  choose (condition ∷ yields ∷ otherwise ∷ []) = ok (if truthy condition then yields else otherwise)
  choose _ = err if_arity

  unfoldable pub coalesce : Function
  coalesce [] = number (of_nat 0)
  coalesce (scalar missing ∷ v) = coalesce v
  coalesce (value ∷ v) = ok value

  unfoldable pub smaller : F → F → F
  smaller x y = if lt y x then y else x

  unfoldable pub larger : F → F → F
  larger x y = if lt x y then y else x

  unfoldable pub clamp : Function
  unfolding smaller larger numeric
  clamp (value ∷ low ∷ high ∷ []) = numeric floats value >>= λ current.
      numeric floats low >>= λ min_value. numeric floats high >>= λ max_value.
      if lt max_value min_value
      then err clamp_order
      else number (larger min_value (smaller max_value current))
  clamp _ = err clamp_arity

  abbrev pub table : List (Text × Function)
  table =
      (codes "add", two_numbers add)
      ∷ (codes "sub", two_numbers sub)
      ∷ (codes "mul", two_numbers mul)
      ∷ (codes "div", divide)
      ∷ (codes "abs", absolute)
      ∷ (codes "round", rounded)
      ∷ (codes "sum", sum_of)
      ∷ (codes "avg", average)
      ∷ (codes "min", extreme_of lt)
      ∷ (codes "max", extreme_of (λ x y. lt y x))
      ∷ (codes "count", count_of)
      ∷ (codes "count_distinct", count_distinct)
      ∷ (codes "weighted_avg", weighted_avg)
      ∷ (codes "rolling_sum", sum_of)
      ∷ (codes "rolling_avg", average)
      ∷ (codes "period_over_period", two_numbers sub)
      ∷ (codes "trend_slope", trend_slope)
      ∷ (codes "if", choose)
      ∷ (codes "coalesce", coalesce)
      ∷ (codes "clamp", clamp)
      ∷ []
