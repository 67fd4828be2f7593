-- ===== src/Sync/Window/Daily.antt =====
-- `generate_daily_windows` cuts its range into windows of at most the given number of days.
use backend_business_intelli.Prelude.{
  ℕ, zero, suc, ◌+◌, ◌-◌, ◌≤◌, ◌<◌, ◌≡◌, refl, true, some, [], ◌∷◌, inl, inr, Bool-cases, not-ltb,
  arith,
}
use backend_business_intelli.Calendar.{Date, ordinal, IsValid, le_date, min_date, plus_days}
use backend_business_intelli.Calendar.Shift.{
  plus_days-Lands, last_ordinal, le_date→le, not-le_date→lt, min_date-ordinal, ordinal-ge_one,
}
use backend_business_intelli.Sync.Base.{ok, ◌>>=◌}
use backend_business_intelli.Sync.Window.{
  TimeWindow, time_window, days, daily_loop, generate_daily_windows,
}
use backend_business_intelli.Sync.Window.Cover.{
  Cuts, Cuts-cons, CoversOnce, Cuts-CoversOnce, time_window_ordered,
}

-- Windows of at most `k` days.
abbrev pub IsShort : ℕ → TimeWindow → Type 0
IsShort k w = days w ≤ k

daily_loop-eq :
    (fuel k : ℕ) (current final far next : Date) {w : TimeWindow}
    → le_date current final ≡ true
    → plus_days current (k - 1) ≡ some far
    → time_window current (min_date far final) ≡ ok w
    → plus_days (min_date far final) 1 ≡ some next
    → daily_loop (suc fuel) k current final ≡ (daily_loop fuel k next final >>= λ ws. ok (w ∷ ws))
unfolding daily_loop
daily_loop-eq fuel k current final far next e f t n = rw (e, daily_loop) (rw (f, t, n))

module _ (k : ℕ) (final : Date) (vf : IsValid final) (hk : 1 ≤ k)
    (room : ordinal final + k ≤ last_ordinal) where
  -- One round: the window from `current` to the earlier of `k - 1` days later and the final date.
  daily_round :
      (fuel : ℕ) (current : Date)
      → IsValid current
      → le_date current final ≡ true
      → ((next : Date)
          → IsValid next
          → ordinal current < ordinal next
          → ordinal next ≤ suc (ordinal final)
          → Cuts (IsShort k) (ordinal next) (ordinal final) (daily_loop fuel k next final))
      → Cuts (IsShort k) (ordinal current) (ordinal final) (daily_loop (suc fuel) k current final)
  unfolding days
  daily_round fuel current v e ih =
      let in_range = le_date→le current final v vf e in
      let far = plus_days-Lands current (k - 1) v (omega arith) in
      let stop_lem = min_date-ordinal far.landed final far.valid vf in
      let after =
        plus_days-Lands (min_date far.landed final) 1 stop_lem.0 (omega (arith, stop_lem.1)) in
      let ordered =
        time_window_ordered current (min_date far.landed final) v stop_lem.0
          (omega (arith, far.moved, stop_lem.1)) in
      rw
        (daily_loop-eq fuel k current final far.landed after.landed e far.found ordered after.found)
        (Cuts-cons (IsShort k) (ordinal current) (ordinal final) (ordinal after.landed)
          (record { start_date = current; end_date = min_date far.landed final }) refl
          (omega (arith, far.moved, stop_lem.1)) (omega (arith, stop_lem.1))
          (omega (arith, far.moved, stop_lem.1)) (omega (arith, after.moved))
          (ih after.landed after.valid (omega (arith, far.moved, after.moved, stop_lem.1))
            (omega (arith, after.moved, stop_lem.1))))

  daily_loop-Cuts :
      (fuel : ℕ) (current : Date)
      → IsValid current
      → suc (ordinal final) < ordinal current + fuel
      → 1 ≤ fuel
      → Cuts (IsShort k) (ordinal current) (ordinal final) (daily_loop fuel k current final)
  unfolding daily_loop
  daily_loop-Cuts zero current v h p = absurd (omega arith)
  daily_loop-Cuts (suc fuel) current v h p = elim (Bool-cases (le_date current final)) [
    | inl e ↦
        daily_round fuel current v e
          (λ next vn lt near. daily_loop-Cuts fuel next vn (omega arith) (omega arith))
    | inr e ↦ record {
      windows = [];
      returned = rw (e, daily_loop);
      tiles = not-le_date→lt current final v vf e;
      kept = tt;
    }
  ]

-- Windows of `k` days, `k` at least one, between two valid dates of which the last is `k` days or
-- more before the last day of the calendar: the call succeeds; each day from the first date to the last
-- lies in exactly one window and no other day in any; the lengths add up to that of the range (if
-- it is not empty); and no window is longer than `k` days.
pub daily_windows_cover :
    (start end : Date) (k : ℕ)
    → IsValid start
    → IsValid end
    → 1 ≤ k
    → ordinal end + k ≤ last_ordinal
    → CoversOnce (IsShort k) (ordinal start) (ordinal end) (generate_daily_windows start end k)
unfolding generate_daily_windows
daily_windows_cover start end k vs ve hk room =
    Cuts-CoversOnce (IsShort k) (ordinal start) (ordinal end) (
      rw (not-ltb k 1 hk) (
        daily_loop-Cuts k end ve hk room (ordinal end + 1) start vs
          (omega (arith, ordinal-ge_one start vs)) (omega arith)))
