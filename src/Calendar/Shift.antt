-- ===== src/Calendar/Shift.antt =====
-- Moving a date by days moves its day number by as much.
use native.Mathlib.Numerals.{add-one}
use backend_business_intelli.Prelude.{
  ap, min, true, false, Bool-cases, ℕ, zero, suc, ◌+◌, ◌-◌, ◌≤◌, ◌<◌, ◌≡◌, refl, inl, inr, Option,
  none, some, arith,
}
use backend_business_intelli.Prelude.Int.{pos}
use backend_business_intelli.Calendar.{
  Date, max_year, date, days_in_month, days_before_year, days_through, ordinal, IsValid, le_date,
  min_date, next_day, plus_days, shift,
}
use backend_business_intelli.Calendar.Order.{
  days_before_year-suc, days_before_year_mono, days_through-pred, day_of_year-le, le_date-ordinal,
}

pub days_in_month_pos : (y m : ℕ) → 1 ≤ days_in_month y m
unfolding days_in_month
days_in_month_pos y m = ground arith

-- The last day number, that of 9999-12-31.
abbrev pub last_ordinal : ℕ
last_ordinal = 3652059

days_before_year_end : days_before_year 10000 ≡ last_ordinal
unfolding days_before_year
days_before_year_end = refl

-- What the day after `t` is: a valid date one later, or none, past the last date.
abbrev pub Follows : Date → Option Date → Type 0
Follows t (some u) = IsValid u × (ordinal u ≡ suc (ordinal t))
Follows t none = ordinal t ≡ last_ordinal

ordinal-new_year : (y : ℕ) → ordinal (date y 1 1) ≡ days_before_year y + 1
unfolding ordinal days_through
ordinal-new_year y = omega arith

module _ (t : Date) (v : IsValid t) where
  same_month :
      t.day < days_in_month t.year t.month → Follows t (some (date t.year t.month (t.day + 1)))
  unfolding ordinal
  same_month h =
      (record { year_in = v.year_in; month_in = v.month_in; day_in = omega arith }, omega arith)

  pub same_year :
      ¬ (t.day < days_in_month t.year t.month)
      → t.month < 12
      → Follows t (some (date t.year (t.month + 1) 1))
  unfolding ordinal
  same_year h k =
      let e : t.month + 1 - 1 ≡ t.month = omega arith in
      (
        record {
          year_in = v.year_in;
          month_in = omega arith;
          day_in = omega (arith, days_in_month_pos t.year (t.month + 1));
        },
        rw e (omega (arith, days_through-pred t.year t.month v.month_in.0)),
      )

  year_end :
      ¬ (t.day < days_in_month t.year t.month)
      → ¬ (t.month < 12)
      → suc (ordinal t) ≡ days_before_year (suc t.year) + 1
  unfolding ordinal
  year_end h k =
      let e : t.month ≡ 12 = omega arith in
      let d : t.day ≡ days_in_month t.year 12 = rw (← e) (omega arith) in
      omega (
        arith,
        days_before_year-suc t.year v.year_in.0,
        days_through-pred t.year 12 (omega arith),
        d,
        ap (λ m. days_through t.year (m - 1)) e,
      )

  pub same_calendar :
      ¬ (t.day < days_in_month t.year t.month)
      → ¬ (t.month < 12)
      → t.year < max_year
      → Follows t (some (date (t.year + 1) 1 1))
  same_calendar h k l = (
    record {
      year_in = omega arith;
      month_in = omega arith;
      day_in = omega (arith, days_in_month_pos (t.year + 1) 1);
    },
    rw (add-one t.year) (omega (arith, ordinal-new_year (suc t.year), year_end h k)),
  )

  last_day :
      ¬ (t.day < days_in_month t.year t.month)
      → ¬ (t.month < 12)
      → ¬ (t.year < max_year)
      → ordinal t ≡ last_ordinal
  last_day h k l =
      let e : t.year ≡ max_year = omega arith in
      omega (arith, year_end h k, ap (λ y. days_before_year (suc y)) e, days_before_year_end)

  next_day-Follows : Follows t (next_day t)
  unfolding next_day
  next_day-Follows = ground (arith, same_month, same_year, same_calendar, last_day)

-- The date `n` days after `t`, found and valid.
pub record Lands (t : Date) (n : ℕ) (o : Option Date) : Type 0 where
  pub landed : Date
  pub found : o ≡ some landed
  pub valid : IsValid landed
  pub moved : ordinal landed ≡ ordinal t + n

plus_days-step :
    (t : Date) (n : ℕ) (o : Option Date)
    → next_day t ≡ o
    → Follows t o
    → ordinal t + suc n ≤ last_ordinal
    → ((w : Date) → IsValid w → ordinal w + n ≤ last_ordinal → Lands w n (plus_days w n))
    → Lands t (suc n) (plus_days t (suc n))
plus_days-step t n none e f h ih = absurd (omega arith)
plus_days-step t n (some w) e f h ih =
    let l = ih w f.0 (omega arith) in
    record {
      landed = l.landed;
      found = unfold plus_days in rw (e, plus_days) l.found;
      valid = l.valid;
      moved = omega (arith, l.moved);
    }

-- Within the calendar, adding `n` days succeeds and moves the day number by `n`.
pub plus_days-Lands :
    (t : Date) (n : ℕ) → IsValid t → ordinal t + n ≤ last_ordinal → Lands t n (plus_days t n)
plus_days-Lands t zero v h = record {
  landed = t;
  found = unfold plus_days in refl;
  valid = v;
  moved = omega arith;
}
plus_days-Lands t (suc n) v h =
    plus_days-step t n (next_day t) refl (next_day-Follows t v) h
      (λ w vw hw. plus_days-Lands w n vw hw)

-- No valid date lies past the last day number.
pub ordinal-le_last : (t : Date) → IsValid t → ordinal t ≤ last_ordinal
unfolding ordinal
ordinal-le_last t v = omega (
  arith,
  day_of_year-le t v,
  days_before_year-suc t.year v.year_in.0,
  days_before_year_mono (suc t.year) 10000 (omega arith) (omega arith),
  days_before_year_end,
)

-- The comparison of valid dates, read on their day numbers.
pub le_date→le : (a b : Date) → IsValid a → IsValid b → le_date a b ≡ true → ordinal a ≤ ordinal b
le_date→le a b va vb h = ground (arith, le_date-ordinal a b va vb)

pub not-le_date→lt :
    (a b : Date) → IsValid a → IsValid b → le_date a b ≡ false → ordinal b < ordinal a
not-le_date→lt a b va vb h = ground (arith, le_date-ordinal a b va vb)

-- `min` of two valid dates is the one with the smaller day number.
pub min_date-ordinal :
    (a b : Date)
    → IsValid a
    → IsValid b
    → IsValid (min_date a b) × (ordinal (min_date a b) ≡ min (ordinal a) (ordinal b))
unfolding min_date
min_date-ordinal a b va vb = elim (Bool-cases (le_date a b)) [
  | inl e ↦ rw e (va, omega (arith, le_date→le a b va vb e))
  | inr e ↦ rw e (vb, omega (arith, not-le_date→lt a b va vb e))
]

pub le→le_date : (a b : Date) → IsValid a → IsValid b → ordinal a ≤ ordinal b → le_date a b ≡ true
le→le_date a b va vb h = ground (arith, le_date-ordinal a b va vb)

pub ordinal-ge_one : (t : Date) → IsValid t → 1 ≤ ordinal t
unfolding ordinal
ordinal-ge_one t v = omega arith

pub min_date_left : (a b : Date) → le_date a b ≡ true → min_date a b ≡ a
unfolding min_date
min_date_left a b e = rw e

pub min_date_right : (a b : Date) → le_date a b ≡ false → min_date a b ≡ b
unfolding min_date
min_date_right a b e = rw e

pub lt→not-le_date :
    (a b : Date) → IsValid a → IsValid b → ordinal a < ordinal b → le_date b a ≡ false
lt→not-le_date a b va vb h = ground (arith, le_date-ordinal b a vb va)

pub shift-pos : (t : Date) (n : ℕ) → shift t (pos n) ≡ plus_days t n
unfolding shift
shift-pos t n = refl
