-- ===== src/Sync/Window/Monthly.antt =====
-- `generate_monthly_windows` cuts its range into calendar months, from the first of the month in
-- which it starts.
use backend_business_intelli.Prelude.{
  ℕ, zero, suc, ◌+◌, ◌*◌, ◌≤◌, ◌<◌, ◌≡◌, refl, true, [], ◌∷◌, inl, inr, Bool-cases, arith, ltb,
}
use backend_business_intelli.Calendar.{
  Date, date, max_year, days_in_month, ordinal, IsValid, le_date, min_date,
}
use backend_business_intelli.Calendar.Shift.{
  le_date→le, not-le_date→lt, min_date_left, min_date_right,
}
use backend_business_intelli.Calendar.Months.{
  month_index, IsMonth, first_day-IsValid, last_day-IsValid, month_span, ordinal-month_suc,
  ordinal-year_suc, le_date-month_index, in_month,
}
use backend_business_intelli.Sync.Base.{Result, ok, ◌>>=◌}
use backend_business_intelli.Sync.Window.{
  TimeWindow, time_window, next_month, monthly_loop, generate_monthly_windows,
}
use backend_business_intelli.Sync.Window.Cover.{
  Cuts, Cuts-cons, Cuts-past, CoversOnce, Cuts-CoversOnce, time_window_ordered,
}

-- The month after, found: its first day follows the last of this one.
record NextMonth (y m : ℕ) (r : Result Date) : Type 0 where
  year : ℕ
  month : ℕ
  found : r ≡ ok (date year month 1)
  is_month : IsMonth year month
  index : month_index year month ≡ suc (month_index y m)
  follows : ordinal (date year month 1) ≡ suc (ordinal (date y m (days_in_month y m)))

next_month-NextMonth :
    (y m d : ℕ)
    → IsMonth y m
    → month_index y m < month_index max_year 12
    → NextMonth y m (next_month (date y m d))
unfolding next_month
next_month-NextMonth y m d h k = elim (Bool-cases (ltb m 12)) [
  | inl e ↦ record {
    year = y;
    month = m + 1;
    found = ground arith;
    is_month = ground arith;
    index = omega arith;
    follows = ordinal-month_suc y m h (ground arith);
  }
  | inr e ↦ record {
    year = y + 1;
    month = 1;
    found = ground arith;
    is_month = ground arith;
    index = ground arith;
    follows = ordinal-year_suc y m h (ground arith) (ground arith);
  }
]

-- The window begins and ends in one calendar month.
abbrev pub IsInMonth : TimeWindow → Type 0
IsInMonth w =
    (w.start_date.day ≡ 1)
    × (w.start_date.year ≡ w.end_date.year)
    × (w.start_date.month ≡ w.end_date.month)

monthly_loop-eq :
    (fuel y m : ℕ) (final next : Date) (w : TimeWindow)
    → le_date (date y m 1) final ≡ true
    → time_window (date y m 1) (min_date (date y m (days_in_month y m)) final) ≡ ok w
    → next_month (date y m 1) ≡ ok next
    → monthly_loop (suc fuel) (date y m 1) final
      ≡ (monthly_loop fuel next final >>= λ ws. ok (w ∷ ws))
unfolding monthly_loop
monthly_loop-eq fuel y m final next w e t n = rw (e, monthly_loop) (rw (t, n))

module _ (final : Date) (vf : IsValid final)
    (room : month_index final.year final.month < month_index max_year 12) where
  -- One round from the first of a month, given what the run from the next month returns.
  monthly_round :
      (fuel y m : ℕ)
      → IsMonth y m
      → le_date (date y m 1) final ≡ true
      → (n : NextMonth y m (next_month (date y m 1)))
      → Cuts IsInMonth
          (ordinal (date n.year n.month 1))
          (ordinal final)
          (monthly_loop fuel (date n.year n.month 1) final)
      → Cuts IsInMonth
          (ordinal (date y m 1))
          (ordinal final)
          (monthly_loop (suc fuel) (date y m 1) final)
  monthly_round fuel y m h e n rest =
      let last = date y m (days_in_month y m) in
      let first_ok = first_day-IsValid y m h in
      let last_ok = last_day-IsValid y m h in
      let begun = le_date→le (date y m 1) final first_ok vf e in
      elim (Bool-cases (le_date last final)) [
        | inl f ↦
            let before = le_date→le last final last_ok vf f in
            rw
              (monthly_loop-eq fuel y m final (date n.year n.month 1)
                (record { start_date = date y m 1; end_date = last }) e
                (rw (min_date_left last final f) (
                  time_window_ordered (date y m 1) last first_ok last_ok
                    (omega (arith, month_span y m, last_ok.day_in))))
                n.found)
              (Cuts-cons IsInMonth (ordinal (date y m 1)) (ordinal final)
                (ordinal (date n.year n.month 1))
                (record { start_date = date y m 1; end_date = last }) refl
                (omega (arith, month_span y m, last_ok.day_in)) before (refl, refl, refl) n.follows
                rest)
        | inr f ↦
            let after = not-le_date→lt last final last_ok vf f in
            rw
              (monthly_loop-eq fuel y m final (date n.year n.month 1)
                (record { start_date = date y m 1; end_date = final }) e
                (rw (min_date_right last final f)
                  (time_window_ordered (date y m 1) final first_ok vf begun))
                n.found)
              (Cuts-cons IsInMonth (ordinal (date y m 1)) (ordinal final) (suc (ordinal final))
                (record { start_date = date y m 1; end_date = final }) refl begun (omega arith)
                (let i = in_month y m final e f in (refl, i.0, i.1)) refl
                (Cuts-past IsInMonth (ordinal (date n.year n.month 1)) (suc (ordinal final))
                  (ordinal final) (omega (arith, n.follows)) (omega arith) rest))
      ]

  monthly_loop-Cuts :
      (fuel y m : ℕ)
      → IsMonth y m
      → suc (month_index final.year final.month) < month_index y m + fuel
      → 1 ≤ fuel
      → Cuts IsInMonth (ordinal (date y m 1)) (ordinal final) (monthly_loop fuel (date y m 1) final)
  monthly_loop-Cuts zero y m h k p = absurd (omega arith)
  monthly_loop-Cuts (suc fuel) y m h k p =
      let first_ok = first_day-IsValid y m h in
      elim (Bool-cases (le_date (date y m 1) final)) [
        | inl e ↦
            let near = le_date-month_index (date y m 1) final first_ok vf e in
            let n = next_month-NextMonth y m 1 h (omega arith) in
            monthly_round fuel y m h e n (
              monthly_loop-Cuts fuel n.year n.month n.is_month (omega (arith, n.index))
                (omega (arith, n.index)))
        | inr e ↦ record {
          windows = [];
          returned = unfold monthly_loop in rw (e, monthly_loop);
          tiles = not-le_date→lt (date y m 1) final first_ok vf e;
          kept = tt;
        }
      ]

-- Monthly windows between two valid dates, the last one before December of the year 9999: the call
-- succeeds; each day from the FIRST OF THE MONTH of the start to the last date lies in exactly one
-- window and no other day in any; the lengths add up to that of those days (if there are
-- any); and every window begins on the first of a month and ends in that month.
pub monthly_windows_cover :
    (start end : Date)
    → IsValid start
    → IsValid end
    → month_index end.year end.month < month_index max_year 12
    → CoversOnce IsInMonth
        (ordinal (date start.year start.month 1))
        (ordinal end)
        (generate_monthly_windows start end)
unfolding generate_monthly_windows
monthly_windows_cover start end vs ve room =
    Cuts-CoversOnce IsInMonth (ordinal (date start.year start.month 1)) (ordinal end) (
      monthly_loop-Cuts end ve room (end.year * 12 + end.month + 1) start.year start.month
        (vs.year_in, vs.month_in) (omega (arith, vs.year_in)) (omega arith))
