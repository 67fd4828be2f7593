-- ===== src/Calendar/Months.antt =====
-- The first and the last day of a month, by day numbers.
use backend_business_intelli.Prelude.{ℕ, suc, ◌+◌, ◌*◌, ◌≤◌, ◌<◌, ◌≡◌, true, false, arith}
use backend_business_intelli.Calendar.{
  Date, max_year, date, days_in_month, ordinal, IsValid, le_date,
}
use backend_business_intelli.Calendar.Shift.{days_in_month_pos, same_year, same_calendar}

-- Months counted through the years.
abbrev pub month_index : ℕ → ℕ → ℕ
month_index y m = y * 12 + m

abbrev pub IsMonth : ℕ → ℕ → Type 0
IsMonth y m = ((1 ≤ y) × (y ≤ max_year)) × ((1 ≤ m) × (m ≤ 12))

pub first_day-IsValid : (y m : ℕ) → IsMonth y m → IsValid (date y m 1)
first_day-IsValid y m h = record {
  year_in = h.0;
  month_in = h.1;
  day_in = (omega arith, days_in_month_pos y m);
}

pub last_day-IsValid : (y m : ℕ) → IsMonth y m → IsValid (date y m (days_in_month y m))
last_day-IsValid y m h = record {
  year_in = h.0;
  month_in = h.1;
  day_in = (days_in_month_pos y m, omega arith);
}

-- From the first to the last day of the month.
pub month_span :
    (y m : ℕ)
    → ordinal (date y m 1) + days_in_month y m ≡ suc (ordinal (date y m (days_in_month y m)))
unfolding ordinal
month_span y m = omega arith

-- The day after the last of a month is the first of the next one.
pub ordinal-month_suc :
    (y m : ℕ)
    → IsMonth y m
    → m < 12
    → ordinal (date y (m + 1) 1) ≡ suc (ordinal (date y m (days_in_month y m)))
ordinal-month_suc y m h k =
    (same_year (date y m (days_in_month y m)) (last_day-IsValid y m h) (omega arith) k).1

pub ordinal-year_suc :
    (y m : ℕ)
    → IsMonth y m
    → ¬ (m < 12)
    → y < max_year
    → ordinal (date (y + 1) 1 1) ≡ suc (ordinal (date y m (days_in_month y m)))
ordinal-year_suc y m h k l =
    (same_calendar (date y m (days_in_month y m)) (last_day-IsValid y m h) (omega arith) k l).1

-- A date on or before another is in its month or an earlier one.
pub le_date-month_index :
    (a b : Date)
    → IsValid a
    → IsValid b
    → le_date a b ≡ true
    → month_index a.year a.month ≤ month_index b.year b.month
unfolding le_date
le_date-month_index a b va vb h = ground arith

-- A date from the first day of a month on, and before its last day, is in that month.
pub in_month :
    (y m : ℕ) (t : Date)
    → le_date (date y m 1) t ≡ true
    → le_date (date y m (days_in_month y m)) t ≡ false
    → (y ≡ t.year) × (m ≡ t.month)
unfolding le_date
in_month y m t e f = ground arith
