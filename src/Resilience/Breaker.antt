-- ===== src/Resilience/Breaker.antt =====
-- integrations/providers/shared/resilience.py: `CircuitBreaker`. A time is a whole number of
-- milliseconds of the monotonic clock.
use backend_business_intelli.Prelude.{
  ℕ, ◌+◌, ◌-◌, ◌≤◌, ◌<◌, ◌≡◌, Option, none, some, leb, if◌then◌else◌,
}

pub data BreakerState : Type 0 where
  closed open_ half_open : BreakerState

pub record CircuitBreaker : Type 0 where
  pub failure_threshold : ℕ
  pub recovery_timeout : ℕ
  pub state : BreakerState
  pub consecutive_failures : ℕ
  pub opened_at : Option ℕ

-- What `before_call` does of a state and a time of opening: `none` is the ValueError "provider
-- circuit breaker is open".
unfoldable pub admit : BreakerState → Option ℕ → ℕ → CircuitBreaker → Option CircuitBreaker
admit closed opened now b = some b
admit open_ (some opened) now b =
    if leb b.recovery_timeout (now - opened)
    then some (record b { state = half_open; opened_at = none })
    else none
admit open_ none now b = some b
admit half_open opened now b = some b

unfoldable pub before_call : ℕ → CircuitBreaker → Option CircuitBreaker
unfolding admit
before_call now b = admit b.state b.opened_at now b

unfoldable pub on_success : CircuitBreaker → CircuitBreaker
on_success b = record b { consecutive_failures = 0; state = closed; opened_at = none }

unfoldable pub trip : BreakerState → ℕ → CircuitBreaker → CircuitBreaker
trip half_open now b = record b {
  state = open_;
  opened_at = some now;
  consecutive_failures = b.failure_threshold;
}
trip _ now b =
    if leb b.failure_threshold (b.consecutive_failures + 1)
    then (record b {
      consecutive_failures = b.consecutive_failures + 1;
      state = open_;
      opened_at = some now;
    })
    else (record b { consecutive_failures = b.consecutive_failures + 1 })

unfoldable pub on_failure : ℕ → CircuitBreaker → CircuitBreaker
unfolding trip
on_failure now b = trip b.state now b

-- What the state says of the other fields.
abbrev pub Agrees : BreakerState → ℕ → ℕ → Option ℕ → Type 0
Agrees closed threshold failures opened = (failures < threshold) × (opened ≡ none)
Agrees open_ threshold failures opened = (threshold ≤ failures) × ((t : ℕ) × (opened ≡ some t))
Agrees half_open threshold failures opened = (threshold ≤ failures) × (opened ≡ none)

pub record IsValid (b : CircuitBreaker) : Type 0 where
  pub positive : 0 < b.failure_threshold
  pub agrees : Agrees b.state b.failure_threshold b.consecutive_failures b.opened_at
