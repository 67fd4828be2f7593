-- ===== src/Formula/Clamp.antt =====
-- The function `clamp` of the formulas.
use backend_business_intelli.Prelude.{
  ◌≡◌, refl, Bool, true, false, [], ◌∷◌, arith, Bool-cases, inl, inr,
}
use backend_business_intelli.Formula.Base.{ok}
use backend_business_intelli.Formula.Values.{Floats, Value, num, scalar, numeric}
use backend_business_intelli.Formula.Functions.{clamp, smaller, larger}

-- What the code relies on of `<`, which holds of every float, a NaN included.
pub record IsStrict {F : Type 0} (lt : F → F → Bool) : Type 0 where
  pub irreflexive : (x : F) → lt x x ≡ false
  pub asymmetric : (x y : F) → lt x y ≡ true → lt y x ≡ false

module _ {F : Type 0} (floats : Floats F) (strict : IsStrict floats.lt) where
  open floats use {lt}
  open strict use {irreflexive, asymmetric}

  smaller-bound : (h c : F) → lt h (smaller floats h c) ≡ false
  unfolding smaller
  smaller-bound h c = elim (Bool-cases (lt c h)) [
    | inl e ↦ rw e (asymmetric c h e)
    | inr e ↦ rw e (irreflexive h)
  ]

  larger-bound : (l x : F) → lt (larger floats l x) l ≡ false
  unfolding larger
  larger-bound l x = elim (Bool-cases (lt l x)) [
    | inl e ↦ rw e (asymmetric l x e)
    | inr e ↦ rw e (irreflexive l)
  ]

  larger-keeps : (h l x : F) → lt h l ≡ false → lt h x ≡ false → lt h (larger floats l x) ≡ false
  unfolding larger
  larger-keeps h l x p q = ground arith

  -- Where the three arguments are numbers and the upper limit is not below the lower one, `clamp`
  -- gives a number that is neither below the lower limit nor above the upper one.
  pub clamp_bounds :
      (value low high : Value F) {c l h : F}
      → numeric floats value ≡ ok c
      → numeric floats low ≡ ok l
      → numeric floats high ≡ ok h
      → lt h l ≡ false
      → (x : F) × (clamp floats (value ∷ low ∷ high ∷ []) ≡ ok (scalar (num x)))
        × (lt x l ≡ false)
        × (lt h x ≡ false)
  unfolding clamp
  clamp_bounds value low high {c} {l} {h} pc pl ph order = (
    larger floats l (smaller floats h c),
    rw (pc, pl, ph, order) refl,
    larger-bound l (smaller floats h c),
    larger-keeps h l (smaller floats h c) order (smaller-bound h c),
  )
