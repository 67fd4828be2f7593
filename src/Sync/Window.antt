-- ===== src/Sync/Window.antt =====
-- The time windows: class TimeWindow of synchronization/domain/entities.py, and
-- synchronization/infrastructure/window_manager.py. A `while` loop runs on fuel, the number of
-- days (of months, for the monthly loop) from its first date to the last one, plus one.
-- The random `window_id` of a window is left out.
pub mod Cover
pub mod Daily
pub mod Monthly
pub mod Domain
use backend_business_intelli.Prelude.{
  ℕ, zero, suc, ◌+◌, ◌-◌, ◌*◌, Bool, true, false, Option, none, some, List, [], ◌∷◌, ltb, leb, ◌==◌,
  if◌then◌else◌,
}
use backend_business_intelli.Prelude.Int.{ℤ, pos, negsuc, sub_ℕ}
use backend_business_intelli.Calendar.{
  Date, date, max_year, days_in_month, ordinal, le_date, min_date, plus_days, shift,
}
use backend_business_intelli.Sync.Base.{
  Result, ok, err, bad_window, bad_days, overflow, out_of_fuel, ◌>>=◌, ◌>>◌, or_raise, raise_if,
}

pub record TimeWindow : Type 0 where
  pub start_date : Date
  pub end_date : Date

-- The constructor, with `__post_init__`.
unfoldable pub time_window : Date → Date → Result TimeWindow
time_window start end =
    if le_date start end then ok (record { start_date = start; end_date = end }) else err bad_window

-- `TimeWindow.days`; a window that was built has its dates in order, so `-` is exact.
unfoldable pub days : TimeWindow → ℕ
days w = ordinal w.end_date - ordinal w.start_date + 1

-- The first day of the month after that of `t`; `date` refuses the year 10000.
unfoldable pub next_month : Date → Result Date
next_month t =
    if t.month == 12
    then (if leb max_year t.year then err overflow else ok (date (t.year + 1) 1 1))
    else ok (date t.year (t.month + 1) 1)

-- The loop of `generate_monthly_windows`, at `current`.
unfoldable pub monthly_loop : ℕ → Date → Date → Result (List TimeWindow)
monthly_loop zero current final = err out_of_fuel
monthly_loop (suc fuel) current final = elim (le_date current final) [
  | false ↦ ok []
  | true ↦
      time_window current (
        min_date (date current.year current.month (days_in_month current.year current.month)) final)
      >>= λ w. next_month current >>= λ next. monthly_loop fuel next final >>= λ rest. ok (w ∷ rest)
]

unfoldable pub generate_monthly_windows : Date → Date → Result (List TimeWindow)
generate_monthly_windows start_date end_date =
    monthly_loop (end_date.year * 12 + end_date.month + 1) (date start_date.year start_date.month 1)
      end_date

-- The loop of `generate_daily_windows`, at `current`.
unfoldable pub daily_loop : ℕ → ℕ → Date → Date → Result (List TimeWindow)
daily_loop zero days_per_window current final = err out_of_fuel
daily_loop (suc fuel) days_per_window current final = elim (le_date current final) [
  | false ↦ ok []
  | true ↦ or_raise (plus_days current (days_per_window - 1)) overflow >>= λ stop.
      time_window current (min_date stop final) >>= λ w.
      or_raise (plus_days (min_date stop final) 1) overflow >>= λ next.
      daily_loop fuel days_per_window next final >>= λ rest. ok (w ∷ rest)
]

unfoldable pub generate_daily_windows : Date → Date → ℕ → Result (List TimeWindow)
generate_daily_windows start_date end_date days_per_window =
    raise_if (ltb days_per_window 1) bad_days
    >> daily_loop (ordinal end_date + 1) days_per_window start_date end_date

unfoldable pub generate_single_window : Date → Date → Result TimeWindow
generate_single_window start_date end_date = time_window start_date end_date

-- `start_date`, or the default: the last `window_days` days.
unfoldable pub default_start : ℤ → Option Date → Date → Result Date
default_start window_days (some start) end = ok start
default_start (pos n) none end = or_raise (shift end (sub_ℕ 1 n)) overflow
default_start (negsuc n) none end = or_raise (shift end (pos (n + 2))) overflow

-- The branches of `calculate_windows_for_domain` once both dates are known.
unfoldable pub windows_between : ℤ → Date → Date → Result (List TimeWindow)
windows_between (negsuc n) start end = generate_single_window start end >>= λ w. ok (w ∷ [])
windows_between (pos zero) start end = generate_single_window start end >>= λ w. ok (w ∷ [])
windows_between (pos (suc n)) start end =
    if leb 30 (suc n)
    then generate_monthly_windows start end
    else generate_daily_windows start end (suc n)

-- `today` is `date.today()`. The argument `domain` is not used by the code.
unfoldable pub calculate_windows_for_domain :
    Date → ℤ → Option Date → Option Date → Result (List TimeWindow)
calculate_windows_for_domain today window_days start_date none =
    default_start window_days start_date today >>= λ start. windows_between window_days start today
calculate_windows_for_domain today window_days start_date (some end) =
    default_start window_days start_date end >>= λ start. windows_between window_days start end

-- `days_per_window - 1`
abbrev pub less_one : ℤ → ℤ
less_one (pos zero) = negsuc 0
less_one (pos (suc n)) = pos n
less_one (negsuc n) = negsuc (suc n)

-- `none` where the checkpoint has reached the final date. The length is not checked.
unfoldable pub get_next_window_after_checkpoint : Date → Date → ℤ → Result (Option TimeWindow)
get_next_window_after_checkpoint checkpoint_window_end final_end_date days_per_window =
    or_raise (plus_days checkpoint_window_end 1) overflow >>= λ next_start.
    if le_date next_start final_end_date
    then (or_raise (shift next_start (less_one days_per_window)) overflow >>= λ stop.
        time_window next_start (min_date stop final_end_date) >>= λ w. ok (some w))
    else ok none
