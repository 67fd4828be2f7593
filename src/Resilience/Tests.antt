-- ===== src/Resilience/Tests.antt =====
-- Calls through the breaker and the limiter on concrete inputs, and the theorems at such inputs.
use backend_business_intelli.Prelude.{ℕ, zero, suc, ◌≡◌, refl, none, some, [], ◌∷◌, arith}
use backend_business_intelli.Resilience.Breaker.{
  CircuitBreaker, closed, open_, IsValid, before_call, on_success, on_failure,
}
use backend_business_intelli.Resilience.Limiter.{RateLimiter}
use backend_business_intelli.Resilience.Call.{
  RetryPolicy, exponential, Reply, returned, retryable, value, Environment, CallState,
  resilient_call,
}
use backend_business_intelli.Resilience.Valid.{resilient_call-IsValid}
use backend_business_intelli.Resilience.Outcome.{Outcome, resilient_call-Outcome}
use backend_business_intelli.Resilience.Recovery.{resilient_call_recovers}
use backend_business_intelli.Resilience.Tripping.{fail_all, Tripped, failures_trip}
use backend_business_intelli.Resilience.Spacing.{requests, Spaced, requests-Spaced}

abbrev fresh : CircuitBreaker
fresh = record {
  failure_threshold = 2;
  recovery_timeout = 20000;
  state = closed;
  consecutive_failures = 0;
  opened_at = none;
}

fresh-IsValid : IsValid fresh
fresh-IsValid = record { positive = omega arith; agrees = (omega arith, refl) }

abbrev tripped : CircuitBreaker
tripped = record fresh { state = open_; consecutive_failures = 2; opened_at = some 5000 }

abbrev limiter : RateLimiter
limiter = record { max_requests_per_second = 2; calls = [] }

abbrev retry : RetryPolicy
retry = record {
  max_attempts = 3;
  base_delay = 150;
  backoff_strategy = exponential;
  max_delay = some 1000;
}

-- A provider that asks for patience twice, and then answers.
abbrev replies : ℕ → Reply ℕ
replies zero = retryable none
replies (suc zero) = retryable (some 400)
replies (suc (suc n)) = returned 7

abbrev environment : Environment ℕ
environment = record { reply = replies; took = λ n. 30; late = λ n. 1 }

abbrev before : CallState
before = record { breaker = fresh; limiter = some limiter; clock = 6000; made = 0; retries = [] }

-- The third attempt answers, and closes the breaker that the second one had opened.
third_attempt : resilient_call environment retry before ≡ (
  value 7,
  record {
    breaker = fresh;
    limiter = some (record { max_requests_per_second = 2; calls = 6001 ∷ 6183 ∷ 7002 ∷ [] });
    clock = 7032;
    made = 3;
    retries = (1, 150) ∷ (2, 400) ∷ [];
  },
)
unfolding resilient_call
third_attempt = refl

resilient_call-IsValid_example : IsValid (resilient_call environment retry before).1.breaker
resilient_call-IsValid_example = resilient_call-IsValid environment retry before fresh-IsValid

resilient_call-Outcome_example :
    Outcome environment 3 before (resilient_call environment retry before)
unfolding before_call
resilient_call-Outcome_example =
    resilient_call-Outcome environment retry before fresh refl (omega arith) (omega arith)

abbrev soon : CallState
soon = record before { breaker = tripped }

abbrev much_later : CallState
much_later = record soon { clock = 25000; made = 2 }

resilient_call_recovers_example :
    ((resilient_call environment retry much_later).0 ≡ value 7)
    × ((resilient_call environment retry much_later).1.made ≡ 3)
    × ((resilient_call environment retry much_later).1.breaker.state ≡ closed)
    × ((resilient_call environment retry much_later).1.breaker.consecutive_failures ≡ 0)
resilient_call_recovers_example =
    resilient_call_recovers environment retry much_later 5000 refl refl 7 (omega arith)
      (omega arith) (omega arith) refl

-- Four requests in a hurry.
four_requests : requests (λ n. 1) (0 ∷ 10 ∷ 0 ∷ 0 ∷ []) limiter 0 [] ≡ 1013 ∷ 1002 ∷ 12 ∷ 1 ∷ []
unfolding requests
four_requests = refl

requests-Spaced_example : Spaced 2 (requests (λ n. 1) (0 ∷ 10 ∷ 0 ∷ 0 ∷ []) limiter 0 [])
requests-Spaced_example =
    requests-Spaced (λ n. 1) (λ n. omega arith) 2 (omega arith) (0 ∷ 10 ∷ 0 ∷ 0 ∷ []) 0

-- On a clock that stands still after a sleep, three of the grants lie within less than a second.
coarse_clock : requests (λ n. 0) (0 ∷ 10 ∷ 0 ∷ 0 ∷ []) limiter 0 [] ≡ 1000 ∷ 1000 ∷ 10 ∷ 0 ∷ []
unfolding requests
coarse_clock = refl

-- Two failures open the breaker until 20 seconds after the second one.
failures_trip_example :
    Tripped 2 20000 2 300 20299 (on_failure 300 (fail_all (200 ∷ []) (on_success tripped)))
failures_trip_example = failures_trip tripped (200 ∷ []) 300 20299 (omega arith)
