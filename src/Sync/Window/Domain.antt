-- ===== src/Sync/Window/Domain.antt =====
-- `calculate_windows_for_domain` on its three branches, and the window after a checkpoint.
use backend_business_intelli.Prelude.{
  if◌then◌else◌, leb, ℕ, zero, suc, refl, Option, ◌+◌, ◌≤◌, ◌<◌, ◌≡◌, none, some, not-leb, le→leb,
  arith,
}
use backend_business_intelli.Prelude.Int.{ℤ, pos, negsuc}
use backend_business_intelli.Calendar.{Date, date, max_year, ordinal, IsValid, min_date, shift}
use backend_business_intelli.Calendar.Shift.{
  shift-pos, plus_days-Lands, last_ordinal, lt→not-le_date, le→le_date, min_date-ordinal,
  ordinal-ge_one, ordinal-le_last,
}
use backend_business_intelli.Calendar.Back.{Precedes, shift-negsuc}
use backend_business_intelli.Calendar.Months.{month_index}
use backend_business_intelli.Sync.Base.{Result, ok, err, bad_window, overflow, ◌>>=◌, or_raise}
use backend_business_intelli.Sync.Window.{
  TimeWindow, time_window, generate_single_window, default_start, windows_between,
  calculate_windows_for_domain, less_one, get_next_window_after_checkpoint,
}
use backend_business_intelli.Sync.Window.Cover.{CoversOnce, time_window_ordered}
use backend_business_intelli.Sync.Window.Daily.{IsShort, daily_windows_cover}
use backend_business_intelli.Sync.Window.Monthly.{IsInMonth, monthly_windows_cover}

-- Two dates out of order make no window.
pub time_window_disordered :
    (a b : Date) → IsValid a → IsValid b → ordinal b < ordinal a → time_window a b ≡ err bad_window
unfolding time_window
time_window_disordered a b va vb h = rw (lt→not-le_date b a vb va h)

-- With a window length of zero, no start date and a valid end date before the last day of the
-- calendar, the call always raises: the default start is the day after the end date, and one window
-- cannot start after its end.
pub zero_days_raises :
    (today end : Date)
    → IsValid end
    → ordinal end < last_ordinal
    → calculate_windows_for_domain today (pos 0) none (some end) ≡ err bad_window
unfolding calculate_windows_for_domain default_start windows_between generate_single_window
zero_days_raises today end v h =
    let next = plus_days-Lands end 1 v (omega arith) in
    rw (shift-pos end 1) (
      rw next.found
        (rw (time_window_disordered next.landed end next.valid v (omega (arith, next.moved)))))

-- From 1 to 29 days, with both dates given: windows of at most that many days cover the range.
pub daily_range_cover :
    (today start end : Date) (k : ℕ)
    → IsValid start
    → IsValid end
    → suc k < 30
    → ordinal end + suc k ≤ last_ordinal
    → CoversOnce
        (IsShort (suc k))
        (ordinal start)
        (ordinal end)
        (calculate_windows_for_domain today (pos (suc k)) (some start) (some end))
unfolding calculate_windows_for_domain windows_between default_start
daily_range_cover today start end k vs ve h room =
    rw (not-leb 30 (suc k) h) (daily_windows_cover start end (suc k) vs ve (omega arith) room)

-- From 30 days on, with both dates given: calendar months cover the days from the first of the
-- month of the start date to the end date.
pub monthly_range_cover :
    (today start end : Date) (k : ℕ)
    → IsValid start
    → IsValid end
    → 30 ≤ suc k
    → month_index end.year end.month < month_index max_year 12
    → CoversOnce IsInMonth
        (ordinal (date start.year start.month 1))
        (ordinal end)
        (calculate_windows_for_domain today (pos (suc k)) (some start) (some end))
unfolding calculate_windows_for_domain windows_between default_start
monthly_range_cover today start end k vs ve h room =
    rw (le→leb 30 (suc k) h) (monthly_windows_cover start end vs ve room)

-- The window after a checkpoint that comes before the final date, by the number of days. From one
-- day on, if the calendar goes as far: from the day after the checkpoint to as many days after it,
-- or to the final date if that comes first. Below one day it raises: the window would end
-- before it starts, or the end lies before the first date of the calendar.
abbrev pub Resumption : Date → Date → ℤ → Result (Option TimeWindow) → Type 0
Resumption checkpoint final (pos (suc n)) r =
    ordinal checkpoint + suc n ≤ last_ordinal
    → (w : TimeWindow) × (r ≡ ok (some w))
      × (ordinal w.start_date ≡ suc (ordinal checkpoint))
      × (ordinal w.end_date ≡ (
          if leb (ordinal checkpoint + suc n) (ordinal final)
          then ordinal checkpoint + suc n
          else ordinal final))
Resumption checkpoint final (pos zero) r = r ≡ err bad_window
Resumption checkpoint final (negsuc n) r =
    (suc (suc n) ≤ ordinal checkpoint → r ≡ err bad_window)
    × (ordinal checkpoint < suc (suc n) → r ≡ err overflow)

-- The rest of the computation, once the last day has been looked for.
abbrev ended : Date → Date → Option Date → Result (Option TimeWindow)
ended final next o =
    or_raise o overflow >>= λ stop. time_window next (min_date stop final) >>= λ w. ok (some w)

module _ (checkpoint final : Date) (vc : IsValid checkpoint) (vf : IsValid final) where
  next_window_found :
      (n : ℕ)
      → ordinal checkpoint < ordinal final
      → Resumption checkpoint final
          (pos (suc n))
          (get_next_window_after_checkpoint checkpoint final (pos (suc n)))
  unfolding get_next_window_after_checkpoint shift
  next_window_found n h room =
      let next = plus_days-Lands checkpoint 1 vc (omega arith) in
      let far = plus_days-Lands next.landed n next.valid (omega (arith, next.moved)) in
      let stop = min_date-ordinal far.landed final far.valid vf in
      let in_range = le→le_date next.landed final next.valid vf (omega (arith, next.moved)) in
      let ordered =
        time_window_ordered next.landed (min_date far.landed final) next.valid stop.0
          (ground (arith, next.moved, far.moved, stop.1)) in
      (
        record { start_date = next.landed; end_date = min_date far.landed final },
        rw (next.found) (rw (in_range, far.found, ordered)),
        omega (arith, next.moved),
        ground (arith, next.moved, far.moved, stop.1),
      )

  -- An end that lies `suc n` days before the start.
  end_before_start :
      (next : Date) (n : ℕ) (o : Option Date)
      → IsValid next
      → Precedes next (suc n) o
      → (suc n < ordinal next → ended final next o ≡ err bad_window)
        × (ordinal next ≤ suc n → ended final next o ≡ err overflow)
  end_before_start next n none v p = (λ h. absurd (omega arith), λ h. refl)
  end_before_start next n (some u) v (vu, p) =
      let stop = min_date-ordinal u final vu vf in
      (
        λ h.
            rw (time_window_disordered next (min_date u final) v stop.0 (omega (arith, stop.1)))
              refl,
        λ h. absurd (omega (arith, ordinal-ge_one u vu)),
      )

  next_window_short :
      (k : ℤ) (n : ℕ)
      → less_one k ≡ negsuc n
      → ordinal checkpoint < ordinal final
      → (n < ordinal checkpoint
          → get_next_window_after_checkpoint checkpoint final k ≡ err bad_window)
        × (ordinal checkpoint ≤ n
            → get_next_window_after_checkpoint checkpoint final k ≡ err overflow)
  unfolding get_next_window_after_checkpoint
  next_window_short k n e h =
      let next = plus_days-Lands checkpoint 1 vc (omega (arith, ordinal-le_last final vf)) in
      let in_range = le→le_date next.landed final next.valid vf (omega (arith, next.moved)) in
      let back =
        end_before_start next.landed n (shift next.landed (negsuc n)) next.valid
          (shift-negsuc next.landed n next.valid) in
      (
        λ l. rw (next.found) (rw (in_range, e) (back.0 (omega (arith, next.moved)))),
        λ l. rw (next.found) (rw (in_range, e) (back.1 (omega (arith, next.moved)))),
      )

  next_window :
      (k : ℤ)
      → ordinal checkpoint < ordinal final
      → Resumption checkpoint final k (get_next_window_after_checkpoint checkpoint final k)
  next_window (pos (suc n)) h = next_window_found n h
  next_window (pos zero) h =
      (next_window_short (pos zero) 0 refl h).0 (omega (arith, ordinal-ge_one checkpoint vc))
  next_window (negsuc n) h =
      let s = next_window_short (negsuc n) (suc n) refl h in
      (λ l. s.0 (omega arith), λ l. s.1 (omega arith))

  next_window_none :
      (k : ℤ)
      → ordinal checkpoint + 1 ≤ last_ordinal
      → ordinal final ≤ ordinal checkpoint
      → get_next_window_after_checkpoint checkpoint final k ≡ ok none
  unfolding get_next_window_after_checkpoint
  next_window_none k room h =
      let next = plus_days-Lands checkpoint 1 vc room in
      rw (next.found)
        (rw (lt→not-le_date final next.landed vf next.valid (omega (arith, next.moved))))

-- After a checkpoint at a valid date before the last day of the calendar, for any number of days:
-- there is no window if the final date is not later, and else what `Resumption` says. From one day
-- on, as far as the calendar goes, the next window starts on the day after the checkpoint and ends
-- that many days after the checkpoint, or on the final date if that comes first. Zero days and
-- fewer raise, as a window out of order, or as an overflow before the first date.
pub next_window_resumes :
    (checkpoint final : Date) (k : ℤ)
    → IsValid checkpoint
    → IsValid final
    → ordinal checkpoint < last_ordinal
    → (ordinal final ≤ ordinal checkpoint
        → get_next_window_after_checkpoint checkpoint final k ≡ ok none)
      × (ordinal checkpoint < ordinal final
          → Resumption checkpoint final k (get_next_window_after_checkpoint checkpoint final k))
next_window_resumes checkpoint final k vc vf room =
    (next_window_none checkpoint final vc vf k (omega arith), next_window checkpoint final vc vf k)
