-- ===== src/ExecutiveScore/Bounds.antt =====
-- The range of the scores, and what the penalty does to them.
use backend_business_intelli.Prelude.{◌≡◌, refl, true, false, Bool-cases, inl, inr}
use backend_business_intelli.ExecutiveScore.{
  ScoreFloats, ScoreInputs, avg_or_default, clamp, base, calculate,
}

-- What the code relies on of floats, which holds of every float, a NaN included: `<` is a strict
-- order, and rounding, sums and differences keep its direction.
pub record IsOrdered {F : Type 0} (floats : ScoreFloats F) : Type 0 where
  pub irreflexive : (x : F) → floats.lt x x ≡ false
  pub transitive : (x y z : F) → floats.lt x y ≡ true → floats.lt y z ≡ true → floats.lt x z ≡ true
  pub zero_below : floats.lt (floats.of_nat 0) (floats.of_nat 100) ≡ true
  pub round_zero : floats.round_4 (floats.of_nat 0) ≡ floats.of_nat 0
  pub round_hundred : floats.round_4 (floats.of_nat 100) ≡ floats.of_nat 100
  pub round_keeps :
      (x y : F) → floats.lt x y ≡ false → floats.lt (floats.round_4 x) (floats.round_4 y) ≡ false
  pub sub_turns :
      (b x y : F) → floats.lt y x ≡ false → floats.lt (floats.sub b x) (floats.sub b y) ≡ false
  pub add_keeps :
      (b x y : F) → floats.lt x y ≡ false → floats.lt (floats.add x b) (floats.add y b) ≡ false

module _ {F : Type 0} (floats : ScoreFloats F) where
  open floats use {of_nat, lt}

  -- Not below 0 and not above 100.
  abbrev pub Within : F → Type 0
  Within x = (lt x (of_nat 0) ≡ false) × (lt (of_nat 100) x ≡ false)

module _ {F : Type 0} (floats : ScoreFloats F) (ordered : IsOrdered floats) where
  open floats use {of_nat, lt, round_4, add, sub}
  open ordered use {
    irreflexive, transitive, zero_below, round_zero, round_hundred, round_keeps, sub_turns,
    add_keeps,
  }

  not_below : (x y z : F) → lt x y ≡ true → lt x z ≡ false → lt y z ≡ false
  not_below x y z p q = elim (Bool-cases (lt y z)) [
    | inl e ↦ let impossible = transitive x y z p e in cc
    | inr e ↦ e
  ]

  not_above : (x y z : F) → lt y z ≡ true → lt x z ≡ false → lt x y ≡ false
  not_above x y z p q = elim (Bool-cases (lt x y)) [
    | inl e ↦ let impossible = transitive x y z e p in cc
    | inr e ↦ e
  ]

  hundred_above : lt (of_nat 100) (of_nat 0) ≡ false
  hundred_above =
      not_above (of_nat 100) (of_nat 0) (of_nat 100) zero_below (irreflexive (of_nat 100))

  round_above : (x : F) → lt x (of_nat 0) ≡ false → lt (round_4 x) (of_nat 0) ≡ false
  round_above x h = let k = round_keeps x (of_nat 0) h in cc

  round_below : (x : F) → lt (of_nat 100) x ≡ false → lt (of_nat 100) (round_4 x) ≡ false
  round_below x h = let k = round_keeps (of_nat 100) x h in cc

  round-Within : (x : F) → Within floats x → Within floats (round_4 x)
  round-Within x (p, q) = (round_above x p, round_below x q)

  clamp-Within : (x : F) → Within floats (clamp floats x)
  unfolding clamp
  clamp-Within x = elim (Bool-cases (lt x (of_nat 0))) [
    | inl e ↦ rw e (irreflexive (of_nat 0), hundred_above)
    | inr e ↦ elim (Bool-cases (lt (of_nat 100) x)) [
      | inl k ↦ rw (e, k) (hundred_above, irreflexive (of_nat 100))
      | inr k ↦ rw (e, k) (round_above x e, round_below x k)
    ]
  ]

  clamp_low : (y : F) → lt (of_nat 0) y ≡ false → lt (of_nat 0) (clamp floats y) ≡ false
  unfolding clamp
  clamp_low y h = elim (Bool-cases (lt y (of_nat 0))) [
    | inl e ↦ rw e (irreflexive (of_nat 0))
    | inr e ↦
        let k = not_below (of_nat 0) (of_nat 100) y zero_below h in
        let r = round_keeps (of_nat 0) y h in rw (e, k) cc
  ]

  clamp_middle :
      (x y : F) → lt x (of_nat 0) ≡ false → lt x y ≡ false → lt (round_4 x) (clamp floats y) ≡ false
  unfolding clamp
  clamp_middle x y p h = elim (Bool-cases (lt y (of_nat 0))) [
    | inl e ↦ rw e (round_above x p)
    | inr e ↦ elim (Bool-cases (lt (of_nat 100) y)) [
      | inl k ↦ let r = round_keeps x (of_nat 100) (not_above x (of_nat 100) y k h) in rw (e, k) cc
      | inr k ↦ rw (e, k) (round_keeps x y h)
    ]
  ]

  clamped_low : (x : F) → lt x (of_nat 0) ≡ true → clamp floats x ≡ of_nat 0
  unfolding clamp
  clamped_low x e = rw e refl

  clamped_high :
      (x : F) → lt x (of_nat 0) ≡ false → lt (of_nat 100) x ≡ true → clamp floats x ≡ of_nat 100
  unfolding clamp
  clamped_high x e k = rw (e, k) refl

  clamped_middle :
      (x : F) → lt x (of_nat 0) ≡ false → lt (of_nat 100) x ≡ false → clamp floats x ≡ round_4 x
  unfolding clamp
  clamped_middle x e k = rw (e, k) refl

  clamp_keeps : (x y : F) → lt x y ≡ false → lt (clamp floats x) (clamp floats y) ≡ false
  clamp_keeps x y h = elim (Bool-cases (lt x (of_nat 0))) [
    | inl e ↦
        let low : clamp floats x ≡ of_nat 0 = clamped_low x e in
        rw low (clamp_low y (not_below x (of_nat 0) y e h))
    | inr e ↦ elim (Bool-cases (lt (of_nat 100) x)) [
      | inl k ↦ rw (clamped_high x e k) (clamp-Within y).1
      | inr k ↦ rw (clamped_middle x e k) (clamp_middle x y e h)
    ]
  ]

  -- Each of the five scores is neither below 0 nor above 100, whatever the values, the penalty and
  -- the bonus are, and with a penalty that is not smaller the executive score is not higher.
  pub calculate_bounds :
      (inputs : ScoreInputs F) (penalty : F)
      → lt penalty inputs.rule_penalty ≡ false
      → Within floats (calculate floats inputs).financial
        × Within floats (calculate floats inputs).commercial
        × Within floats (calculate floats inputs).operational
        × Within floats (calculate floats inputs).inventory
        × Within floats (calculate floats inputs).executive
        × (lt
              (calculate floats inputs).executive
              (calculate floats (record inputs { rule_penalty = penalty })).executive
            ≡ false)
  unfolding calculate base
  calculate_bounds inputs penalty h =
      let before = sub (base floats inputs) inputs.rule_penalty in
      let after = sub (base floats inputs) penalty in
      let bonus = inputs.recommendation_bonus in
      (
        clamp-Within (avg_or_default floats inputs.financial_values),
        clamp-Within (avg_or_default floats inputs.commercial_values),
        clamp-Within (avg_or_default floats inputs.operational_values),
        clamp-Within (avg_or_default floats inputs.inventory_values),
        round-Within (clamp floats (add before bonus)) (clamp-Within (add before bonus)),
        round_keeps (clamp floats (add before bonus)) (clamp floats (add after bonus)) (
            clamp_keeps (add before bonus) (add after bonus) (
              add_keeps bonus before after
                (sub_turns (base floats inputs) inputs.rule_penalty penalty h))),
      )
