-- ===== src/ExecutiveScore/Tests.antt =====
-- Scores over whole numbers.
use backend_business_intelli.Prelude.{
  ℕ, ◌+◌, ◌-◌, ◌*◌, ◌/◌, ◌≡◌, refl, false, List, [], ◌∷◌, length, ltb, arith,
}
use backend_business_intelli.ExecutiveScore.{ScoreFloats, ScoreInputs, calculate}
use backend_business_intelli.ExecutiveScore.Bounds.{IsOrdered, Within, calculate_bounds}

abbrev total : List ℕ → ℕ
total [] = 0
total (x ∷ xs) = x + total xs

abbrev whole_numbers : ScoreFloats ℕ
whole_numbers = record {
  of_nat = λ n. n;
  of_hundredths = λ n. n;
  add = λ x y. x + y;
  sub = λ x y. x - y;
  mul = λ x w. x * w / 100;
  mean = λ x xs. total (x ∷ xs) / length (x ∷ xs);
  lt = ltb;
  round_4 = λ x. x;
}

whole_numbers-IsOrdered : IsOrdered whole_numbers
whole_numbers-IsOrdered = record {
  irreflexive = λ x. ground arith;
  transitive = λ x y z p q. ground arith;
  zero_below = refl;
  round_zero = refl;
  round_hundred = refl;
  round_keeps = λ x y h. h;
  sub_turns = λ b x y h. ground arith;
  add_keeps = λ b x y h. ground arith;
}

-- Two values out of range, and no operational ones.
abbrev inputs : ScoreInputs ℕ
inputs = record {
  financial_values = 80 ∷ 60 ∷ [];
  commercial_values = 140 ∷ [];
  operational_values = [];
  inventory_values = 90 ∷ 10 ∷ 20 ∷ [];
  rule_penalty = 5;
  recommendation_bonus = 3;
}

calculated :
    calculate whole_numbers inputs
    ≡ record { financial = 70; commercial = 100; operational = 70; inventory = 40; executive = 79 }
unfolding calculate
calculated = refl

calculate_bounds_example :
    Within whole_numbers (calculate whole_numbers inputs).financial
    × Within whole_numbers (calculate whole_numbers inputs).commercial
    × Within whole_numbers (calculate whole_numbers inputs).operational
    × Within whole_numbers (calculate whole_numbers inputs).inventory
    × Within whole_numbers (calculate whole_numbers inputs).executive
    × (ltb
          (calculate whole_numbers inputs).executive
          (calculate whole_numbers (record inputs { rule_penalty = 9 })).executive
        ≡ false)
calculate_bounds_example = calculate_bounds whole_numbers whole_numbers-IsOrdered inputs 9 refl
