-- ===== src/Formula/Sound/Words.antt =====
-- The words of an accepted text, and outcomes within the fuel.

use mathlib.Core.List.{append_assoc}
use backend_business_intelli.Prelude.{
  ℕ, ◌≤◌, ◌<◌, ◌≡◌, ◌≢◌, refl, ap, ◌∙◌, Bool, true, false, [], ◌∷◌, ◌++◌, arith, length, Bool-cases,
  inl, inr, ◌==◌, if◌then◌else◌,
}
use backend_business_intelli.Formula.Base.{Text, all, Result, ok, err, ◌>>=◌, is_space, out_of_fuel}
use backend_business_intelli.Formula.Parser.{
  at, advance, passed, skip_ws, is_number_start, is_number_char, count_dots, raw_number,
  after_number,
}
use backend_business_intelli.Formula.Scan.{passed-all, passed-left, passed-cons}
use backend_business_intelli.Formula.Grammar.{IsNumeral, IsName}
use backend_business_intelli.Formula.RoundTrip.Words.{lengths}

-- The run kept within its fuel, and `P` holds of its value if it has one.
abbrev pub Yields {ℓ} : {A : Type ℓ} → (A → Type 0) → Result A → Type 0
Yields P (ok a) = P a
Yields P (err e) = e ≢ out_of_fuel

pub Yields-bind {ℓ κ} :
    {A : Type ℓ} {B : Type κ} (P : A → Type 0) (Q : B → Type 0) (r : Result A) (f : A → Result B)
    → Yields P r
    → ((a : A) → P a → Yields Q (f a))
    → Yields Q (r >>= f)
Yields-bind P Q (ok a) f h k = k a h
Yields-bind P Q (err e) f h k = h

pub Yields-if {ℓ} :
    {A : Type ℓ} (P : A → Type 0) (b : Bool) (x y : Result A)
    → (b ≡ true → Yields P x)
    → (b ≡ false → Yields P y)
    → Yields P (if b then x else y)
Yields-if P true x y hx hy = hx refl
Yields-if P false x y hx hy = hy refl

pub at→eq : (c : ℕ) (t : Text) → at c t ≡ true → t ≡ c ∷ advance t
at→eq c [] h = cc
at→eq c (x ∷ t) h = ground arith

-- White space, then the character that was tested.
pub gap_at :
    (c : ℕ) (t : Text) → at c (skip_ws t) ≡ true → t ≡ passed is_space t ++ c ∷ advance (skip_ws t)
gap_at c t h = passed-left is_space t ∙ ap (λ w. passed is_space t ++ w) (at→eq c (skip_ws t) h)

pub raw-after : (s : Text) → s ≡ raw_number s ++ after_number s
unfolding raw_number after_number
raw-after [] = refl
raw-after (c ∷ s) = elim (Bool-cases (c == b'-')) [
  | inl m ↦ rw m (ap (λ t. c ∷ t) (passed-left is_number_char s))
  | inr m ↦ rw m (passed-left is_number_char (c ∷ s))
]

pub raw-IsNumeral :
    (c : ℕ) (s : Text)
    → is_number_start c ≡ true
    → count_dots (raw_number (c ∷ s)) ≤ 1
    → IsNumeral (raw_number (c ∷ s))
unfolding raw_number
raw-IsNumeral c s h d = elim (Bool-cases (c == b'-')) [
  | inl m ↦
      let d' = rw m at d in
      let minus : c ≡ b'-' = ground arith in rw m (inl (minus, passed-all is_number_char s), d')
  | inr m ↦
      let d' = rw m at d in
      let first : is_number_char c ≡ true = unfold is_number_start is_number_char in ground arith in
      let whole = (passed-cons is_number_char c s first).0 in
      let d'' = rw whole at d' in
      let rest : all is_number_char (c ∷ passed is_number_char s) ≡ true =
        ground (arith, passed-all is_number_char s) in
      rw (m, whole) (inr rest, d'')
]

pub shorter : (t gap w : Text) (c : ℕ) → t ≡ gap ++ c ∷ w → length w < length t
shorter t gap w c h = omega (lengths, ap length h)

pub IsName-length : (name : Text) → IsName name → 0 < length name
IsName-length [] n = elim n [ ]
IsName-length (c ∷ s) n = omega arith

pub regroup_empty :
    (s gap name t gap' w gap'' u : Text)
    → s ≡ gap ++ (name ++ t)
    → t ≡ gap' ++ b'(' ∷ w
    → w ≡ gap'' ++ b')' ∷ u
    → s ≡ (gap ++ (name ++ (gap' ++ b'(' ∷ (gap'' ++ b')' ∷ [])))) ++ u
regroup_empty s gap name t gap' w gap'' u p q r = simp (p, q, r, append_assoc)

pub regroup_call :
    (s gap name t gap' w items u : Text)
    → s ≡ gap ++ (name ++ t)
    → t ≡ gap' ++ b'(' ∷ w
    → w ≡ items ++ u
    → s ≡ (gap ++ (name ++ (gap' ++ b'(' ∷ items))) ++ u
regroup_call s gap name t gap' w items u p q r = simp (p, q, r, append_assoc)

pub regroup_item :
    (s e t gap : Text) (c : ℕ) (w items u : Text)
    → s ≡ e ++ t
    → t ≡ gap ++ c ∷ w
    → w ≡ items ++ u
    → s ≡ (e ++ (gap ++ c ∷ items)) ++ u
regroup_item s e t gap c w items u p q r = simp (p, q, r, append_assoc)
