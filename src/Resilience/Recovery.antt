-- ===== src/Resilience/Recovery.antt =====
-- An open circuit breaker, before and after its timeout.
use mathlib.Core.Path.{subst}
use backend_business_intelli.Prelude.{
  ℕ, zero, suc, ◌+◌, ◌-◌, ◌≤◌, ◌<◌, ◌≡◌, refl, some, none, arith, le→leb, ◌∙◌, ap,
}
use backend_business_intelli.Resilience.Breaker.{closed, open_, half_open, admit, before_call}
use backend_business_intelli.Resilience.Call.{
  RetryPolicy, returned, CallResult, value, Environment, CallState, resilient_call,
}
use backend_business_intelli.Resilience.Outcome.{Usable, IsRetryable, Ends, resilient_call-Outcome}

module _ {T : Type 0} (env : Environment T) (s : CallState) (o : CallResult T × CallState) {v : T}
    (reply : env.reply s.made ≡ returned v) where
  -- No retryable error came before a first attempt that returned.
  first_returned :
      (rounds before : ℕ)
      → ((i : ℕ) → i < before → IsRetryable (env.reply (s.made + i)))
      → o.1.made ≡ s.made + suc before
      → Ends (suc before ≡ rounds) (env.reply (s.made + before)) o.0 o.1
      → (o.0 ≡ value v)
        × (o.1.made ≡ suc s.made)
        × (o.1.breaker.state ≡ closed)
        × (o.1.breaker.consecutive_failures ≡ 0)
  first_returned rounds zero retried count ends =
      let here : s.made + 0 ≡ s.made = omega arith in
      let (result, shut, none_counted) =
        subst (λ r. Ends (1 ≡ rounds) r o.0 o.1) (ap env.reply here ∙ reply) ends in
      (result, omega arith, shut, none_counted)
  first_returned rounds (suc before) retried count ends =
      let here : s.made + 0 ≡ s.made = omega arith in
      absurd (subst (λ r. IsRetryable r) (ap env.reply here ∙ reply) (retried 0 (omega arith)))

module _ {T : Type 0} (env : Environment T) (retry : RetryPolicy) (s : CallState) (opened : ℕ)
    (is_open : s.breaker.state ≡ open_) (opened_then : s.breaker.opened_at ≡ some opened) where
  before_call_due :
      opened + s.breaker.recovery_timeout ≤ s.clock
      → before_call s.clock s.breaker
        ≡ some (record s.breaker { state = half_open; opened_at = none })
  unfolding before_call admit
  before_call_due h =
      rw (is_open, opened_then, le→leb s.breaker.recovery_timeout (s.clock - opened) (omega arith))
        refl

  -- After the timeout the next call is made, and if the provider returns, its value is the result
  -- of that one attempt and the breaker is closed again.
  pub resilient_call_recovers :
      (v : T)
      → opened + s.breaker.recovery_timeout ≤ s.clock
      → Usable s.limiter
      → 0 < retry.max_attempts
      → env.reply s.made ≡ returned v
      → ((resilient_call env retry s).0 ≡ value v)
        × ((resilient_call env retry s).1.made ≡ suc s.made)
        × ((resilient_call env retry s).1.breaker.state ≡ closed)
        × ((resilient_call env retry s).1.breaker.consecutive_failures ≡ 0)
  resilient_call_recovers v due usable some_attempt reply =
      let o = resilient_call-Outcome env retry s _ (before_call_due due) usable some_attempt in
      first_returned env s (resilient_call env retry s) reply retry.max_attempts o.before o.retried
        o.count o.ends
