-- ===== src/Sync/Tests.antt =====
-- Runs of the synchronization code on concrete inputs, and its theorems at such inputs.
use backend_business_intelli.Prelude.{ℕ, ◌≡◌, refl, none, some, [], ◌∷◌, ◌≤◌, ◌<◌, arith}
use backend_business_intelli.Prelude.Int.{pos}
use backend_business_intelli.Calendar.{
  Date, date, ordinal, IsValid, is_leap, days_in_month, days_before_year, days_through, le_date,
  min_date, next_day, plus_days,
}
use backend_business_intelli.Sync.Base.{bad_window, ok, err}
use backend_business_intelli.Sync.Window.{
  time_window, generate_daily_windows, generate_monthly_windows, calculate_windows_for_domain,
  get_next_window_after_checkpoint, daily_loop, monthly_loop, next_month,
}
use backend_business_intelli.Sync.Window.Cover.{CoversOnce}
use backend_business_intelli.Sync.Window.Daily.{IsShort, daily_windows_cover}
use backend_business_intelli.Sync.Window.Monthly.{IsInMonth, monthly_windows_cover}
use backend_business_intelli.Sync.Window.Domain.{zero_days_raises, Resumption, next_window_resumes}

-- Named on an `unfolding` line, it opens the calendar.
abbrev calendar : ℕ
unfolding ordinal days_before_year days_through days_in_month is_leap le_date min_date next_day
calendar = 0

abbrev march_10 : Date
march_10 = date 2024 3 10

abbrev april_2 : Date
april_2 = date 2024 4 2

march_10-IsValid : IsValid march_10
unfolding days_in_month is_leap
march_10-IsValid = omega arith

april_2-IsValid : IsValid april_2
unfolding days_in_month is_leap
april_2-IsValid = omega arith

march_10-ordinal : ordinal march_10 ≡ 738955
unfolding calendar
march_10-ordinal = refl

weeks :
    generate_daily_windows march_10 april_2 10
    ≡ ok (
        record { start_date = march_10; end_date = date 2024 3 19 }
        ∷ record { start_date = date 2024 3 20; end_date = date 2024 3 29 }
        ∷ record { start_date = date 2024 3 30; end_date = april_2 }
        ∷ [])
unfolding calendar generate_daily_windows daily_loop plus_days time_window
weeks = refl

months :
    generate_monthly_windows march_10 april_2
    ≡ ok (
        record { start_date = date 2024 3 1; end_date = date 2024 3 31 }
        ∷ record { start_date = date 2024 4 1; end_date = april_2 }
        ∷ [])
unfolding calendar generate_monthly_windows monthly_loop next_month time_window
months = refl

daily_windows_cover_example :
    CoversOnce
      (IsShort 10)
      (ordinal march_10)
      (ordinal april_2)
      (generate_daily_windows march_10 april_2 10)
unfolding calendar
daily_windows_cover_example =
    daily_windows_cover march_10 april_2 10 march_10-IsValid april_2-IsValid (omega arith)
      (omega arith)

monthly_windows_cover_example :
    CoversOnce IsInMonth
      (ordinal (date 2024 3 1))
      (ordinal april_2)
      (generate_monthly_windows march_10 april_2)
monthly_windows_cover_example =
    monthly_windows_cover march_10 april_2 march_10-IsValid april_2-IsValid (omega arith)

zero_days_raises_example :
    calculate_windows_for_domain march_10 (pos 0) none (some april_2) ≡ err bad_window
unfolding calendar
zero_days_raises_example = zero_days_raises march_10 april_2 april_2-IsValid (omega arith)

next_window_resumes_example :
    (ordinal april_2 ≤ ordinal march_10
      → get_next_window_after_checkpoint march_10 april_2 (pos 7) ≡ ok none)
    × (ordinal march_10 < ordinal april_2
        → Resumption march_10 april_2
            (pos 7)
            (get_next_window_after_checkpoint march_10 april_2 (pos 7)))
unfolding calendar
next_window_resumes_example =
    next_window_resumes march_10 april_2 (pos 7) march_10-IsValid april_2-IsValid (omega arith)
