-- ===== src/Formula/Scan.antt =====
-- The loops of `_ParserState` that pass characters.

use backend_business_intelli.Prelude.{
  ℕ, ◌≤◌, ◌≡◌, refl, ap, Bool, true, false, [], ◌∷◌, ◌++◌, arith, length, length-append, Bool-cases,
  inl, inr,
}
use backend_business_intelli.Formula.Base.{Text, all}
use backend_business_intelli.Formula.Parser.{passed, left}

-- The text does not go on with a character of the class.
abbrev pub Ends : (ℕ → Bool) → Text → Type 0
Ends p [] = Unit
Ends p (c ∷ s) = p c ≡ false

module _ (p : ℕ → Bool) where
  pub passed-append : (s rest : Text) → all p s ≡ true → Ends p rest → passed p (s ++ rest) ≡ s
  unfolding passed
  passed-append [] [] h e = refl
  passed-append [] (c ∷ rest) h e = ground arith
  passed-append (c ∷ s) rest h e = ground (arith, passed-append s rest)

  pub left-append : (s rest : Text) → all p s ≡ true → left p (s ++ rest) ≡ left p rest
  unfolding left
  left-append [] rest h = refl
  left-append (c ∷ s) rest h = ground (arith, left-append s rest)

  pub left-Ends_eq : (rest : Text) → Ends p rest → left p rest ≡ rest
  unfolding left
  left-Ends_eq [] e = refl
  left-Ends_eq (c ∷ rest) e = ground arith

  pub left-Ends : (s : Text) → Ends p (left p s)
  unfolding left
  left-Ends [] = tt
  left-Ends (c ∷ s) = elim (Bool-cases (p c)) [ inl e ↦ rw e (left-Ends s) | inr e ↦ rw e e ]

  pub passed-all : (s : Text) → all p (passed p s) ≡ true
  unfolding passed
  passed-all [] = refl
  passed-all (c ∷ s) = ground (arith, passed-all s)

  pub passed-left : (s : Text) → s ≡ passed p s ++ left p s
  unfolding passed left
  passed-left [] = refl
  passed-left (c ∷ s) = ground (arith, passed-left s)

  pub left-left : (s : Text) → left p (left p s) ≡ left p s
  left-left s = left-Ends_eq (left p s) (left-Ends s)

  pub length-left : (s : Text) → length (left p s) ≤ length s
  length-left s = omega (arith, ap length (passed-left s), length-append (passed p s) (left p s))

  pub left-all : (s : Text) → all p s ≡ true → left p s ≡ []
  unfolding left
  left-all [] h = refl
  left-all (c ∷ s) h = ground (arith, left-all s)

  -- The loop passes the first character, or stops before it.
  pub passed-cons :
      (c : ℕ) (s : Text)
      → p c ≡ true
      → (passed p (c ∷ s) ≡ c ∷ passed p s) × (left p (c ∷ s) ≡ left p s)
  unfolding passed left
  passed-cons c s h = ground arith

  pub passed-stop : (c : ℕ) (s : Text) → p c ≡ false → passed p (c ∷ s) ≡ []
  unfolding passed
  passed-stop c s h = ground arith
