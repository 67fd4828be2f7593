-- ===== src/Resilience/Limiter.antt =====
-- integrations/providers/shared/resilience.py: `RateLimiter`.
use backend_business_intelli.Prelude.{
  ℕ, ◌+◌, ◌-◌, Option, none, some, List, [], ◌∷◌, ◌++◌, leb, ltb, if◌then◌else◌, length,
}

-- One second, in the milliseconds of the clock.
abbrev pub second : ℕ
second = 1000

-- `calls` is the deque, its left end first.
pub record RateLimiter : Type 0 where
  pub max_requests_per_second : ℕ
  pub calls : List ℕ

-- `while self._calls and self._calls[0] < window_start: self._calls.popleft()`
unfoldable pub expire : ℕ → List ℕ → List ℕ
expire now [] = []
expire now (c ∷ cs) = let rest = expire now cs in if ltb (c + second) now then rest else c ∷ cs

-- The time to sleep; `none` is the IndexError of `self._calls[0]` on an empty deque.
unfoldable pub sleep_time : ℕ → ℕ → List ℕ → Option ℕ
sleep_time limit now [] = if leb limit 0 then none else some 0
sleep_time limit now (c ∷ cs) = some (if leb limit (length (c ∷ cs)) then c + second - now else 0)

-- After the pause, or the IndexError. `late` is the time by which a sleep of so long overshoots,
-- and which the statements take; the result is the time of the grant.
unfoldable pub grant : (ℕ → ℕ) → ℕ → RateLimiter → Option ℕ → RateLimiter × Option ℕ
grant late now r none = (r, none)
grant late now r (some rest) =
    let now' = now + rest + late rest in (record r { calls = r.calls ++ now' ∷ [] }, some now')

unfoldable pub acquire : (ℕ → ℕ) → ℕ → RateLimiter → RateLimiter × Option ℕ
unfolding expire sleep_time grant
acquire late now r =
    let r' = record r { calls = expire now r.calls } in
    grant late now r' (sleep_time r'.max_requests_per_second now r'.calls)
