-- ===== src/ExecutiveScore.antt =====
-- executive_score/application/score_calculator.py and `ScoreInputs` of
-- executive_score/domain/entities.py.
pub mod Bounds
mod Tests
use backend_business_intelli.Prelude.{ℕ, Bool, List, [], ◌∷◌, if◌then◌else◌}

-- The floats of Python and the operations on them that the calculator uses. `of_hundredths` is a
-- literal with two decimals, and `round_4` is `round` to four.
pub record ScoreFloats (F : Type 0) : Type 0 where
  pub of_nat : ℕ → F
  pub of_hundredths : ℕ → F
  pub add : F → F → F
  pub sub : F → F → F
  pub mul : F → F → F
  pub mean : F → List F → F
  pub lt : F → F → Bool
  pub round_4 : F → F

pub record ScoreInputs (F : Type 0) : Type 0 where
  pub financial_values : List F
  pub commercial_values : List F
  pub operational_values : List F
  pub inventory_values : List F
  pub rule_penalty : F
  pub recommendation_bonus : F

-- The tuple that `calculate` returns.
pub record Scores (F : Type 0) : Type 0 where
  pub financial : F
  pub commercial : F
  pub operational : F
  pub inventory : F
  pub executive : F

module _ {F : Type 0} (floats : ScoreFloats F) where
  open floats use {of_nat, of_hundredths, add, sub, mul, mean, lt, round_4}

  -- `sum(values) / len(values)` of a tuple that is not empty is `mean`.
  unfoldable pub avg_or_default : List F → F
  avg_or_default [] = of_nat 70
  avg_or_default (x ∷ xs) = round_4 (mean x xs)

  unfoldable pub clamp : F → F
  clamp value =
      if lt value (of_nat 0)
      then of_nat 0
      else if lt (of_nat 100) value
      then of_nat 100
      else round_4 value

  -- The four averages with their weights.
  unfoldable pub base : ScoreInputs F → F
  unfolding avg_or_default
  base inputs =
      add
        (add
          (add (mul (avg_or_default inputs.financial_values) (of_hundredths 35))
            (mul (avg_or_default inputs.commercial_values) (of_hundredths 25)))
          (mul (avg_or_default inputs.operational_values) (of_hundredths 20)))
        (mul (avg_or_default inputs.inventory_values) (of_hundredths 20))

  unfoldable pub calculate : ScoreInputs F → Scores F
  unfolding base clamp avg_or_default
  calculate inputs = record {
    financial = clamp (avg_or_default inputs.financial_values);
    commercial = clamp (avg_or_default inputs.commercial_values);
    operational = clamp (avg_or_default inputs.operational_values);
    inventory = clamp (avg_or_default inputs.inventory_values);
    executive =
        round_4 (clamp (add (sub (base inputs) inputs.rule_penalty) inputs.recommendation_bonus));
  }
