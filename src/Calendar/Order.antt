-- ===== src/Calendar/Order.antt =====
-- Dates compare as their day numbers do.
use native.Mathlib.Nat.{le_refl, le_trans}
use native.Mathlib.Decide.{le_ind}
use backend_business_intelli.Prelude.{ℕ, zero, suc, ◌+◌, ◌-◌, ◌≤◌, ◌<◌, ◌≡◌, arith, leb}
use backend_business_intelli.Calendar.{
  Date, max_year, days_in_month, days_before_year, days_through, ordinal, IsValid, le_date,
}

pub days_before_year-suc :
    (y : ℕ) → 1 ≤ y → days_before_year (suc y) ≡ days_before_year y + days_through y 12
unfolding days_before_year days_through days_in_month
days_before_year-suc y h = ground arith

pub days_before_year_mono : (a b : ℕ) → 1 ≤ a → a ≤ b → days_before_year a ≤ days_before_year b
days_before_year_mono a b h k =
    le_ind (λ m. days_before_year a ≤ days_before_year m) (le_refl _)
      (λ m le ih. omega (arith, days_before_year-suc m (le_trans h le))) b k

days_through_mono : (y a b : ℕ) → a ≤ b → days_through y a ≤ days_through y b
unfolding days_through
days_through_mono y a b k =
    le_ind (λ m. days_through y a ≤ days_through y m) (le_refl _) (λ m le ih. omega arith) b k

pub days_through-pred :
    (y m : ℕ) → 1 ≤ m → days_through y m ≡ days_through y (m - 1) + days_in_month y m
unfolding days_through
days_through-pred y zero h = absurd (omega arith)
days_through-pred y (suc m) h = let e : suc m - 1 ≡ m = omega arith in rw e

-- A day of an earlier month of the year comes before each day of a later one.
month-lt :
    (y m n a b : ℕ)
    → 1 ≤ m
    → m < n
    → a ≤ days_in_month y m
    → 1 ≤ b
    → days_through y (m - 1) + a < days_through y (n - 1) + b
month-lt y m n a b h k ha hb =
    omega (arith, days_through-pred y m h, days_through_mono y m (n - 1) (omega arith))

pub day_of_year-le :
    (t : Date) → IsValid t → days_through t.year (t.month - 1) + t.day ≤ days_through t.year 12
day_of_year-le t v = omega (
  arith,
  days_through-pred t.year t.month v.month_in.0,
  days_through_mono t.year t.month 12 v.month_in.1,
)

year-lt : (a b : Date) → IsValid a → IsValid b → a.year < b.year → ordinal a < ordinal b
unfolding ordinal
year-lt a b va vb h = omega (
  arith,
  day_of_year-le a va,
  days_before_year-suc a.year v.0,
  days_before_year_mono (suc a.year) b.year (omega arith) h,
)
  where
    v : (1 ≤ a.year) × (a.year ≤ max_year)
    v = va.year_in

month_of_year-lt :
    (a b : Date)
    → IsValid a
    → IsValid b
    → a.year ≡ b.year
    → a.month < b.month
    → ordinal a < ordinal b
unfolding ordinal
month_of_year-lt a b va vb e h = rw (← e) (
    omega
      (arith, month-lt a.year a.month b.month a.day b.day va.month_in.0 h va.day_in.1 vb.day_in.0))

day_of_month-eq :
    (a b : Date) → a.year ≡ b.year → a.month ≡ b.month → ordinal a + b.day ≡ ordinal b + a.day
unfolding ordinal
day_of_month-eq a b e f = rw (e, f) (omega arith)

-- The comparison of dates is the comparison of their day numbers.
pub le_date-ordinal :
    (a b : Date) → IsValid a → IsValid b → le_date a b ≡ leb (ordinal a) (ordinal b)
unfolding le_date
le_date-ordinal a b va vb = ground (
  arith,
  year-lt a b va vb,
  year-lt b a vb va,
  month_of_year-lt a b va vb,
  month_of_year-lt b a vb va,
  day_of_month-eq a b,
)
