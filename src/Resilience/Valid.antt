-- ===== src/Resilience/Valid.antt =====
-- The circuit breaker's state and its other fields.
use mathlib.Core.Path.{subst}
use backend_business_intelli.Prelude.{
  ℕ, ◌+◌, ◌-◌, ◌≡◌, sym, refl, Option, none, some, leb, arith, Bool-cases, inl, inr, zero, suc,
}
use backend_business_intelli.Resilience.Breaker.{
  CircuitBreaker, BreakerState, closed, open_, half_open, admit, before_call, on_success, trip,
  on_failure, Agrees, IsValid,
}
use backend_business_intelli.Resilience.Limiter.{RateLimiter, acquire}
use backend_business_intelli.Resilience.Call.{
  RetryPolicy, Reply, returned, retryable, failed, CallResult, Environment, CallState, granted,
  acquire_from, throttle, after_reply, attempts, enter, resilient_call, called,
}

on_success-IsValid : {b : CircuitBreaker} → IsValid b → IsValid (on_success b)
unfolding on_success
on_success-IsValid v = record { positive = v.positive; agrees = (v.positive, refl) }

-- The two operations that look at the state, at each state.
admit-IsValid :
    (state : BreakerState) (opened : Option ℕ) (now : ℕ) (b b' : CircuitBreaker)
    → b.state ≡ state
    → IsValid b
    → admit state opened now b ≡ some b'
    → IsValid b'
unfolding admit
admit-IsValid closed opened now b b' e v h = let same : b ≡ b' = cc in subst IsValid same v
admit-IsValid half_open opened now b b' e v h = let same : b ≡ b' = cc in subst IsValid same v
admit-IsValid open_ none now b b' e v h = let same : b ≡ b' = cc in subst IsValid same v
admit-IsValid open_ (some t) now b b' e v h =
    let (reached, _) =
      subst (λ s. Agrees s b.failure_threshold b.consecutive_failures b.opened_at) e v.agrees in
    elim (Bool-cases (leb b.recovery_timeout (now - t))) [
      | inl due ↦
          let h' = rw due at h in
          let same : (record b { state = half_open; opened_at = none }) ≡ b' = cc in
          subst IsValid same (record { positive = v.positive; agrees = (reached, refl) })
      | inr early ↦ let h' = rw early at h in cc
    ]

before_call-IsValid :
    (now : ℕ) (b b' : CircuitBreaker) → before_call now b ≡ some b' → IsValid b → IsValid b'
unfolding before_call
before_call-IsValid now b b' h v = admit-IsValid b.state b.opened_at now b b' refl v h

trip-IsValid :
    (state : BreakerState) (now : ℕ) (b : CircuitBreaker)
    → b.state ≡ state
    → IsValid b
    → IsValid (trip state now b)
unfolding trip
trip-IsValid half_open now b e v = record {
  positive = v.positive;
  agrees = (omega arith, (now, refl));
}
trip-IsValid closed now b e v =
    let (_, shut) =
      subst (λ s. Agrees s b.failure_threshold b.consecutive_failures b.opened_at) e v.agrees in
    elim (Bool-cases (leb b.failure_threshold (b.consecutive_failures + 1))) [
      | inl f ↦ rw f (record { positive = v.positive; agrees = (ground arith, (now, refl)) })
      | inr f ↦ rw f (record {
        positive = v.positive;
        agrees =
            subst (λ s. Agrees s b.failure_threshold (b.consecutive_failures + 1) b.opened_at)
              (sym e) (ground arith, shut);
      })
    ]
trip-IsValid open_ now b e v =
    let (reached, _) =
      subst (λ s. Agrees s b.failure_threshold b.consecutive_failures b.opened_at) e v.agrees in
    elim (Bool-cases (leb b.failure_threshold (b.consecutive_failures + 1))) [
      | inl f ↦ rw f (record { positive = v.positive; agrees = (ground arith, (now, refl)) })
      | inr f ↦ absurd (ground arith)
    ]

on_failure-IsValid : (now : ℕ) {b : CircuitBreaker} → IsValid b → IsValid (on_failure now b)
unfolding on_failure
on_failure-IsValid now {b} v = trip-IsValid b.state now b refl v

-- The limiter leaves the breaker alone.
granted-breaker : (s : CallState) (g : RateLimiter × Option ℕ) → (granted s g).0.breaker ≡ s.breaker
granted-breaker s (r, none) = refl
granted-breaker s (r, some now) = refl

acquire_from-breaker :
    (late : ℕ → ℕ) (limiter : Option RateLimiter) (s : CallState)
    → (acquire_from late limiter s).0.breaker ≡ s.breaker
unfolding acquire_from
acquire_from-breaker late none s = refl
acquire_from-breaker late (some r) s = granted-breaker s (acquire late s.clock r)

module _ {T : Type 0} (env : Environment T) (retry : RetryPolicy) where
  after_reply-IsValid :
      (again : Option ℕ → CallState → CallResult T × CallState) (rounds attempt : ℕ)
      (reply : Reply T) (s : CallState)
      → ((wish : Option ℕ) (t : CallState) → IsValid t.breaker → IsValid (again wish t).1.breaker)
      → IsValid s.breaker
      → IsValid (after_reply env retry again rounds attempt reply s).1.breaker
  unfolding after_reply
  after_reply-IsValid again rounds attempt (returned x) s more v = on_success-IsValid v
  after_reply-IsValid again rounds attempt (failed e) s more v = on_failure-IsValid s.clock v
  after_reply-IsValid again zero attempt (retryable wish) s more v = on_failure-IsValid s.clock v
  after_reply-IsValid again (suc rounds) attempt (retryable wish) s more v =
      more wish _ (on_failure-IsValid s.clock v)

  attempts-IsValid :
      (rounds attempt : ℕ) (last : Option (Option ℕ)) (s : CallState)
      → IsValid s.breaker
      → IsValid (attempts env retry rounds attempt last s).1.breaker
  unfolding attempts throttle
  attempts-IsValid zero attempt none s v = v
  attempts-IsValid zero attempt (some wish) s v = v
  attempts-IsValid (suc rounds) attempt last s v =
      let v' : IsValid (throttle env s).0.breaker =
        subst IsValid (sym (acquire_from-breaker env.late s.limiter s)) v in
      elim (Bool-cases (throttle env s).1) [
        | inl through ↦ rw through (
            after_reply-IsValid (λ wish t. attempts env retry rounds (attempt + 1) (some wish) t)
              rounds (attempt + 1) (env.reply (throttle env s).0.made)
              (called env retry (throttle env s).0)
              (λ wish t w. attempts-IsValid rounds (attempt + 1) (some wish) t w) v')
        | inr raised ↦ rw raised v'
      ]

  enter-IsValid :
      (s : CallState) (entry : Option CircuitBreaker)
      → IsValid s.breaker
      → ((b : CircuitBreaker) → entry ≡ some b → IsValid b)
      → IsValid (enter env retry s entry).1.breaker
  unfolding enter
  enter-IsValid s none v h = v
  enter-IsValid s (some b) v h =
      attempts-IsValid retry.max_attempts 0 none (record s { breaker = b }) (h b refl)

  -- A call through the breaker, whatever the provider does and however long it takes, keeps the
  -- breaker's fields in line with its state: closed below the threshold of failures, open from
  -- the threshold on and with the time of opening, half open without that time.
  pub resilient_call-IsValid :
      (s : CallState) → IsValid s.breaker → IsValid (resilient_call env retry s).1.breaker
  unfolding resilient_call
  resilient_call-IsValid s v =
      enter-IsValid s (before_call s.clock s.breaker) v
        (λ b e. before_call-IsValid s.clock s.breaker b e v)
