-- ===== src/Sync/Window/Cover.antt =====
-- What it is for a list of windows to cut a range of days into consecutive pieces.
use backend_business_intelli.Prelude.{
  ℕ, suc, ◌+◌, ◌≤◌, ◌<◌, ◌≡◌, ◌&&◌, List, [], ◌∷◌, arith, leb, if◌then◌else◌,
}
use backend_business_intelli.Calendar.{Date, ordinal, IsValid}
use backend_business_intelli.Calendar.Shift.{le→le_date}
use backend_business_intelli.Sync.Base.{Result, ok, ◌>>=◌}
use backend_business_intelli.Sync.Window.{TimeWindow, time_window, days}

-- The windows follow one another without gap or overlap, from day `lo` on, and end at day `hi`.
abbrev pub Tiles : ℕ → ℕ → List TimeWindow → Type 0
Tiles lo hi [] = hi < lo
Tiles lo hi (w ∷ ws) =
    (ordinal w.start_date ≡ lo)
    × (lo ≤ ordinal w.end_date)
    × (ordinal w.end_date ≤ hi)
    × Tiles (suc (ordinal w.end_date)) hi ws

-- How many of the windows the day with number `n` lies in.
abbrev pub covering : ℕ → List TimeWindow → ℕ
covering n [] = 0
covering n (w ∷ ws) =
    (if leb (ordinal w.start_date) n && leb n (ordinal w.end_date) then 1 else 0) + covering n ws

abbrev pub total_days : List TimeWindow → ℕ
total_days [] = 0
total_days (w ∷ ws) = days w + total_days ws

-- Each day of the range lies in one window, and any other day in none.
pub Tiles-covering :
    (n lo hi : ℕ) (ws : List TimeWindow)
    → Tiles lo hi ws
    → covering n ws ≡ (if leb lo n && leb n hi then 1 else 0)
Tiles-covering n lo hi [] t = ground arith
Tiles-covering n lo hi (w ∷ ws) t =
    ground (arith, Tiles-covering n (suc (ordinal w.end_date)) hi ws t.3)

-- The lengths of the windows add up to that of the range.
pub Tiles-total_days :
    (lo hi : ℕ) (ws : List TimeWindow) → Tiles lo hi ws → lo ≤ suc hi → total_days ws + lo ≡ suc hi
unfolding days
Tiles-total_days lo hi [] t h = omega arith
Tiles-total_days lo hi (w ∷ ws) t h =
    omega (arith, Tiles-total_days (suc (ordinal w.end_date)) hi ws t.3 (omega arith))

-- Two dates in order make a window.
pub time_window_ordered :
    (a b : Date)
    → IsValid a
    → IsValid b
    → ordinal a ≤ ordinal b
    → time_window a b ≡ ok (record { start_date = a; end_date = b })
unfolding time_window
time_window_ordered a b va vb h = rw (le→le_date a b va vb h)

abbrev pub AllWindows : (TimeWindow → Type 0) → List TimeWindow → Type 0
AllWindows P [] = Unit
AllWindows P (w ∷ ws) = P w × AllWindows P ws

-- A run that returns windows which cut the days from `lo` to `hi`, each of them as `P` says.
pub record Cuts (P : TimeWindow → Type 0) (lo hi : ℕ) (r : Result (List TimeWindow)) : Type 0 where
  pub windows : List TimeWindow
  pub returned : r ≡ ok windows
  pub tiles : Tiles lo hi windows
  pub kept : AllWindows P windows

-- A window put before a run that starts on the day after it.
pub Cuts-cons :
    (P : TimeWindow → Type 0) (lo hi next_lo : ℕ) (w : TimeWindow) {r : Result (List TimeWindow)}
    → ordinal w.start_date ≡ lo
    → lo ≤ ordinal w.end_date
    → ordinal w.end_date ≤ hi
    → P w
    → next_lo ≡ suc (ordinal w.end_date)
    → Cuts P next_lo hi r
    → Cuts P lo hi (r >>= λ ws. ok (w ∷ ws))
Cuts-cons P lo hi next_lo w first ordered inside good next rest = record {
  windows = w ∷ rest.windows;
  returned = rw rest.returned;
  tiles = (first, ordered, inside, rw next at rest.tiles);
  kept = (good, rest.kept);
}

Tiles-past :
    (lo lo' hi : ℕ) (ws : List TimeWindow) → hi < lo → hi < lo' → Tiles lo hi ws → Tiles lo' hi ws
Tiles-past lo lo' hi [] h k t = k
Tiles-past lo lo' hi (w ∷ ws) h k t = absurd (omega arith)

-- Where no day is left, it does not matter where the run starts.
pub Cuts-past :
    (P : TimeWindow → Type 0) (lo lo' hi : ℕ) {r : Result (List TimeWindow)}
    → hi < lo
    → hi < lo'
    → Cuts P lo hi r
    → Cuts P lo' hi r
Cuts-past P lo lo' hi h k c = record {
  windows = c.windows;
  returned = c.returned;
  tiles = Tiles-past lo lo' hi c.windows h k c.tiles;
  kept = c.kept;
}

-- What such a run says of each day: it lies in one window if it is in the range, in none if not;
-- and the lengths of the windows add up to that of the range.
abbrev pub CoversOnce : (TimeWindow → Type 0) → ℕ → ℕ → Result (List TimeWindow) → Type 0
CoversOnce P lo hi r =
    (ws : List TimeWindow) × (r ≡ ok ws)
    × ((n : ℕ) → covering n ws ≡ (if leb lo n && leb n hi then 1 else 0))
    × (lo ≤ hi → total_days ws + lo ≡ suc hi)
    × AllWindows P ws

pub Cuts-CoversOnce :
    (P : TimeWindow → Type 0) (lo hi : ℕ) {r : Result (List TimeWindow)}
    → Cuts P lo hi r
    → CoversOnce P lo hi r
Cuts-CoversOnce P lo hi c = (
  c.windows,
  c.returned,
  λ n. Tiles-covering n lo hi c.windows c.tiles,
  λ h. Tiles-total_days lo hi c.windows c.tiles (omega arith),
  c.kept,
)
