-- ===== src/Calendar.antt =====
-- Python's `datetime.date`, as the window manager uses it: comparison, `date.toordinal`
-- (which date subtraction goes by), `date + timedelta(days=n)`, `calendar.monthrange`.
-- `none` stands for the OverflowError or ValueError of a date outside years 1 to 9999.
pub mod Order
pub mod Back
pub mod Shift
pub mod Months
use backend_business_intelli.Prelude.{
  ℕ, zero, suc, ◌+◌, ◌<◌, ◌-◌, ◌*◌, ◌/◌, ◌%◌, ◌≤◌, Bool, true, false, not, ◌&&◌, ◌||◌, Option, none,
  some, ltb, leb, ◌==◌, if◌then◌else◌,
}
use backend_business_intelli.Prelude.Int.{ℤ, pos, negsuc}

pub record Date : Type 0 where
  pub day : ℕ
  pub month : ℕ
  pub year : ℕ

abbrev pub date : ℕ → ℕ → ℕ → Date
date year month day = record { day = day; month = month; year = year }

abbrev pub max_year : ℕ
max_year = 9999

unfoldable pub is_leap : ℕ → Bool
is_leap y = (y % 4 == 0) && (not (y % 100 == 0) || (y % 400 == 0))

-- `monthrange(y, m)[1]`
unfoldable pub days_in_month : ℕ → ℕ → ℕ
unfolding is_leap
days_in_month y m =
    if (m == 4) || ((m == 6) || ((m == 9) || (m == 11)))
    then 30
    else if m == 2
    then (if is_leap y then 29 else 28)
    else 31

unfoldable pub days_before_year : ℕ → ℕ
days_before_year y = (y - 1) * 365 + (y - 1) / 4 - (y - 1) / 100 + (y - 1) / 400

-- The days of the first `m` months of the year.
unfoldable pub days_through : ℕ → ℕ → ℕ
days_through y zero = 0
days_through y (suc m) = days_through y m + days_in_month y (suc m)

-- `date.toordinal`: day 1 is the first of January of year 1.
unfoldable pub ordinal : Date → ℕ
ordinal t = days_before_year t.year + days_through t.year (t.month - 1) + t.day

-- A date that the constructor `date(y, m, d)` accepts.
pub record IsValid (t : Date) : Type 0 where
  pub year_in : (0 < t.year) × (t.year ≤ max_year)
  pub month_in : (0 < t.month) × (t.month ≤ 12)
  pub day_in : (0 < t.day) × (t.day ≤ days_in_month t.year t.month)

-- `a <= b`: dates compare by year, then month, then day.
unfoldable pub le_date : Date → Date → Bool
le_date a b =
    if ltb a.year b.year
    then true
    else if ltb b.year a.year
    then false
    else if ltb a.month b.month
    then true
    else if ltb b.month a.month
    then false
    else leb a.day b.day

-- `min(a, b)`
unfoldable pub min_date : Date → Date → Date
min_date a b = if le_date a b then a else b

-- The day after, if it is not past the last date.
unfoldable pub next_day : Date → Option Date
next_day t =
    if ltb t.day (days_in_month t.year t.month)
    then some (date t.year t.month (t.day + 1))
    else if ltb t.month 12
    then some (date t.year (t.month + 1) 1)
    else if ltb t.year max_year
    then some (date (t.year + 1) 1 1)
    else none

-- The day before, if it is not before the first date.
unfoldable pub prev_day : Date → Option Date
prev_day t =
    if ltb 1 t.day
    then some (date t.year t.month (t.day - 1))
    else if ltb 1 t.month
    then some (date t.year (t.month - 1) (days_in_month t.year (t.month - 1)))
    else if ltb 1 t.year
    then some (date (t.year - 1) 12 31)
    else none

-- `t + timedelta(days=n)` and `t - timedelta(days=n)`
unfoldable pub plus_days : Date → ℕ → Option Date
plus_days t zero = some t
plus_days t (suc n) = elim (next_day t) [ none ↦ none | some u ↦ plus_days u n ]

unfoldable pub minus_days : Date → ℕ → Option Date
minus_days t zero = some t
minus_days t (suc n) = elim (prev_day t) [ none ↦ none | some u ↦ minus_days u n ]

-- `t + timedelta(days=z)` for an integer of either sign
unfoldable pub shift : Date → ℤ → Option Date
unfolding plus_days minus_days
shift t (pos n) = plus_days t n
shift t (negsuc n) = minus_days t (suc n)
