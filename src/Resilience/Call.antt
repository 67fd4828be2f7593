-- ===== src/Resilience/Call.antt =====
-- integrations/providers/shared/resilience.py: `RetryPolicy`, `_compute_backoff_delay` and
-- `resilient_call`.
use backend_business_intelli.Prelude.{
  ℕ, zero, suc, ◌+◌, ◌-◌, ◌*◌, ◌^◌, min, max, Bool, true, false, Option, none, some, List, [], ◌∷◌,
  ◌++◌, if◌then◌else◌,
}
use backend_business_intelli.Resilience.Breaker.{
  CircuitBreaker, before_call, on_success, on_failure,
}
use backend_business_intelli.Resilience.Limiter.{RateLimiter, acquire}

pub data BackoffStrategy : Type 0 where
  linear exponential : BackoffStrategy

pub record RetryPolicy : Type 0 where
  pub max_attempts : ℕ
  pub base_delay : ℕ
  pub backoff_strategy : BackoffStrategy
  pub max_delay : Option ℕ

abbrev pub backoff : BackoffStrategy → ℕ → ℕ → ℕ
backoff exponential base attempt = base * 2 ^ (attempt - 1)
backoff linear base attempt = base * attempt

abbrev pub at_most : Option ℕ → ℕ → ℕ
at_most none delay = delay
at_most (some limit) delay = min delay limit

unfoldable pub compute_backoff_delay : RetryPolicy → ℕ → ℕ
compute_backoff_delay retry attempt =
    at_most retry.max_delay (backoff retry.backoff_strategy retry.base_delay attempt)

-- What a call of `fn` does: it returns, raises a RetryableProviderError with the seconds after
-- which to retry, or raises another exception.
pub data Reply (T : Type 0) : Type 0 where
  returned : T → Reply T
  retryable : Option ℕ → Reply T
  failed : ℕ → Reply T

-- What `resilient_call` raises. `too_many_calls` is the IndexError of a limiter of no requests.
pub data CallError : Type 0 where
  breaker_open too_many_calls unexpected_state : CallError
  retryable_error : Option ℕ → CallError
  provider_error : ℕ → CallError

pub data CallResult (T : Type 0) : Type 0 where
  value : T → CallResult T
  raised : CallError → CallResult T

-- The environment: the reply to the call of a number and the time that it takes, and the time by
-- which a sleep overshoots.
pub record Environment (T : Type 0) : Type 0 where
  pub reply : ℕ → Reply T
  pub took : ℕ → ℕ
  pub late : ℕ → ℕ

-- The objects that a call changes, the clock, the number of calls of `fn` so far, and the
-- attempts and delays that `on_retry` was told.
pub record CallState : Type 0 where
  pub breaker : CircuitBreaker
  pub limiter : Option RateLimiter
  pub clock : ℕ
  pub made : ℕ
  pub retries : List (ℕ × ℕ)

-- The delay, which a longer wish of the provider replaces.
abbrev pub delay_after : Option ℕ → ℕ → ℕ
delay_after none delay = delay
delay_after (some wish) delay = max delay wish

abbrev pub granted : CallState → RateLimiter × Option ℕ → CallState × Bool
granted s (r, none) = (record s { limiter = some r }, false)
granted s (r, some now) = (record s { limiter = some r; clock = now }, true)

-- `if rate_limiter is not None: rate_limiter.acquire()`; false where it raises.
unfoldable pub acquire_from : (ℕ → ℕ) → Option RateLimiter → CallState → CallState × Bool
unfolding acquire
acquire_from late none s = (s, true)
acquire_from late (some r) s = granted s (acquire late s.clock r)

unfoldable pub throttle : {T : Type 0} → Environment T → CallState → CallState × Bool
unfolding acquire_from
throttle env s = acquire_from env.late s.limiter s

module _ {T : Type 0} (env : Environment T) (retry : RetryPolicy) where
  -- `fn()`, which takes its time.
  abbrev pub called : CallState → CallState
  called s = record s { clock = s.clock + env.took s.made; made = suc s.made }

  abbrev pub succeeded : CallState → CallState
  succeeded s = record s { breaker = on_success s.breaker }

  abbrev pub missed : CallState → CallState
  missed s = record s { breaker = on_failure s.clock s.breaker }

  -- After a failed attempt that is not the last one: `on_retry` and the sleep.
  abbrev pub rested : ℕ → Option ℕ → CallState → CallState
  rested attempt wish s =
      let delay = delay_after wish (compute_backoff_delay retry attempt) in
      record s {
        clock = s.clock + delay + env.late delay;
        retries = s.retries ++ (attempt, delay) ∷ [];
      }

  -- The `try` block and its handlers: `rounds` are the attempts left after this one, and `again`
  -- goes on with the loop.
  unfoldable pub after_reply :
      (Option ℕ → CallState → CallResult T × CallState)
      → ℕ
      → ℕ
      → Reply T
      → CallState
      → CallResult T × CallState
  unfolding compute_backoff_delay
  after_reply again rounds attempt (returned v) s = (value v, succeeded s)
  after_reply again rounds attempt (failed e) s = (raised (provider_error e), missed s)
  after_reply again zero attempt (retryable wish) s = (raised (retryable_error wish), missed s)
  after_reply again (suc rounds) attempt (retryable wish) s =
      again wish (rested attempt wish (missed s))

  -- The `while` loop: `rounds` are the attempts left, `attempt` those made, `last` the exception
  -- of the last one.
  unfoldable pub attempts : ℕ → ℕ → Option (Option ℕ) → CallState → CallResult T × CallState
  unfolding throttle after_reply
  attempts zero attempt none s = (raised unexpected_state, s)
  attempts zero attempt (some wish) s = (raised (retryable_error wish), s)
  attempts (suc rounds) attempt last s =
      let again =
        λ (wish : Option ℕ) (t : CallState). attempts rounds (attempt + 1) (some wish) t in
      let (s', through) = throttle env s in
      if through
      then after_reply again rounds (attempt + 1) (env.reply s'.made) (called s')
      else (raised too_many_calls, s')

  -- After `before_call`, which may have raised.
  unfoldable pub enter : CallState → Option CircuitBreaker → CallResult T × CallState
  unfolding attempts
  enter s none = (raised breaker_open, s)
  enter s (some b) = attempts retry.max_attempts 0 none (record s { breaker = b })

  unfoldable pub resilient_call : CallState → CallResult T × CallState
  unfolding enter before_call on_success on_failure
  resilient_call s = enter s (before_call s.clock s.breaker)
