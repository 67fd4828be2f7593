-- ===== src/Calendar/Back.antt =====
-- Moving a date back by days, as far as the calendar goes.
use backend_business_intelli.Prelude.{
  ℕ, zero, suc, ◌+◌, ◌-◌, ◌≤◌, ◌<◌, ◌≡◌, refl, ap, Option, none, some, arith,
}
use backend_business_intelli.Prelude.Int.{negsuc}
use backend_business_intelli.Calendar.{
  Date, date, days_in_month, days_through, days_before_year, ordinal, IsValid, prev_day, minus_days,
  shift,
}
use backend_business_intelli.Calendar.Order.{days_before_year-suc, days_through-pred}
use backend_business_intelli.Calendar.Shift.{days_in_month_pos}

-- A valid date, `n` days before `t`; or none, where the calendar does not go back as far.
abbrev pub Precedes : Date → ℕ → Option Date → Type 0
Precedes t n none = ordinal t ≤ n
Precedes t n (some u) = IsValid u × (ordinal u + n ≡ ordinal t)

december : (y : ℕ) → 31 ≤ days_in_month y 12
unfolding days_in_month
december y = omega arith

december_end : (y : ℕ) → days_in_month y 12 ≤ 31
unfolding days_in_month
december_end y = omega arith

Precedes-suc :
    (t u : Date) (n : ℕ) (o : Option Date)
    → ordinal u + 1 ≡ ordinal t
    → Precedes u n o
    → Precedes t (suc n) o
Precedes-suc t u n none e p = omega arith
Precedes-suc t u n (some w) e (v, q) = (v, omega arith)

module _ (t : Date) (v : IsValid t) where
  within_month : 1 < t.day → Precedes t 1 (some (date t.year t.month (t.day - 1)))
  unfolding ordinal
  within_month h = (
    record { year_in = v.year_in; month_in = v.month_in; day_in = omega (arith, v.day_in) },
    omega arith,
  )

  month_before :
      ¬ (1 < t.day)
      → 1 < t.month
      → Precedes t 1 (some (date t.year (t.month - 1) (days_in_month t.year (t.month - 1))))
  unfolding ordinal
  month_before h k = (
    record {
      year_in = v.year_in;
      month_in = omega (arith, v.month_in);
      day_in = omega (arith, days_in_month_pos t.year (t.month - 1));
    },
    omega (arith, v.day_in, days_through-pred t.year (t.month - 1) (omega arith)),
  )

  first_month : t.month - 1 ≡ 0 → days_through t.year (t.month - 1) ≡ 0
  unfolding days_through
  first_month e = rw e refl

  year_before :
      ¬ (1 < t.day) → ¬ (1 < t.month) → 1 < t.year → Precedes t 1 (some (date (t.year - 1) 12 31))
  unfolding ordinal
  year_before h k l =
      let e : suc (t.year - 1) ≡ t.year = omega arith in
      let m : t.month - 1 ≡ 0 = omega arith in
      (
        record {
          year_in = omega (arith, v.year_in);
          month_in = omega arith;
          day_in = (omega arith, december (t.year - 1));
        },
        omega (
          arith,
          v.day_in,
          ap days_before_year e,
          days_before_year-suc (t.year - 1) (omega arith),
          days_through-pred (t.year - 1) 12 (omega arith),
          december (t.year - 1),
          december_end (t.year - 1),
          first_month m,
        ),
      )

  calendar_start : ¬ (1 < t.day) → ¬ (1 < t.month) → ¬ (1 < t.year) → Precedes t 1 none
  unfolding ordinal days_before_year
  calendar_start h k l =
      let m : t.month - 1 ≡ 0 = omega arith in
      let y : t.year ≡ 1 = omega (arith, v.year_in) in rw y (omega (arith, rw y at first_month m))

  prev_day-Precedes : Precedes t 1 (prev_day t)
  unfolding prev_day
  prev_day-Precedes = ground (arith, within_month, month_before, year_before, calendar_start)

after_prev :
    (t : Date) (n : ℕ) (o : Option Date)
    → Precedes t 1 o
    → ((u : Date) → IsValid u → Precedes u n (minus_days u n))
    → Precedes t (suc n) (elim o [ none ↦ none | some u ↦ minus_days u n ])
after_prev t n none p ih = omega arith
after_prev t n (some u) p ih = Precedes-suc t u n (minus_days u n) p.1 (ih u p.0)

minus_days-Precedes : (n : ℕ) (t : Date) → IsValid t → Precedes t n (minus_days t n)
unfolding minus_days
minus_days-Precedes zero t v = (v, omega arith)
minus_days-Precedes (suc n) t v =
    after_prev t n (prev_day t) (prev_day-Precedes t v) (λ u vu. minus_days-Precedes n u vu)

-- A shift back gives a valid date that is earlier by as much, or none past the first date.
pub shift-negsuc : (t : Date) (n : ℕ) → IsValid t → Precedes t (suc n) (shift t (negsuc n))
unfolding shift
shift-negsuc t n v = minus_days-Precedes (suc n) t v
