-- ===== src/Resilience/Tripping.antt =====
-- What a number of failures in a row does to the circuit breaker.
use backend_business_intelli.Prelude.{
  ℕ, suc, ◌+◌, ◌-◌, ◌≤◌, ◌<◌, ◌≡◌, ◌⊎◌, refl, none, some, List, [], ◌∷◌, arith, leb, length, inl,
  inr, Bool-cases, le→leb, not-leb, if◌then◌else◌,
}
use backend_business_intelli.Resilience.Breaker.{
  closed, open_, half_open, CircuitBreaker, admit, before_call, on_success, trip, on_failure,
}

-- Failures at the given times, with no success between them.
abbrev pub fail_all : List ℕ → CircuitBreaker → CircuitBreaker
fail_all [] b = b
fail_all (t ∷ ts) b = fail_all ts (on_failure t b)

-- After `n` failures in a row, `c` counts them; below the threshold it is closed.
record IsCounted (b : CircuitBreaker) (n : ℕ) (c : CircuitBreaker) : Type 0 where
  same_threshold : c.failure_threshold ≡ b.failure_threshold
  same_timeout : c.recovery_timeout ≡ b.recovery_timeout
  count : c.consecutive_failures ≡ n
  below : n < b.failure_threshold → c.state ≡ closed
  not_half : (c.state ≡ closed) ⊎ (c.state ≡ open_)

-- What `on_failure` does but for a breaker that is half open.
abbrev counted : ℕ → CircuitBreaker → CircuitBreaker
counted t c =
    if leb c.failure_threshold (c.consecutive_failures + 1)
    then (record c {
      consecutive_failures = c.consecutive_failures + 1;
      state = open_;
      opened_at = some t;
    })
    else (record c { consecutive_failures = c.consecutive_failures + 1 })

on_failure-counted :
    (t : ℕ) (c : CircuitBreaker)
    → (c.state ≡ closed) ⊎ (c.state ≡ open_)
    → on_failure t c ≡ counted t c
unfolding on_failure trip
on_failure-counted t c (inl e) = rw e refl
on_failure-counted t c (inr e) = rw e refl

counted-IsCounted :
    (b c : CircuitBreaker) (n t : ℕ)
    → IsCounted b n c
    → IsCounted b (suc n) (counted t c)
      × (b.failure_threshold ≤ suc n
          → ((counted t c).state ≡ open_) × ((counted t c).opened_at ≡ some t))
counted-IsCounted b c n t k =
    elim (Bool-cases (leb c.failure_threshold (c.consecutive_failures + 1))) [
      | inl e ↦
          let reached : b.failure_threshold ≤ suc n = ground (arith, k.same_threshold, k.count) in
          rw e (
            record {
              same_threshold = k.same_threshold;
              same_timeout = k.same_timeout;
              count = omega (arith, k.count);
              below = λ h. absurd (omega arith);
              not_half = inr refl;
            },
            λ h. (refl, refl),
          )
      | inr e ↦
          let below : suc n < b.failure_threshold = ground (arith, k.same_threshold, k.count) in
          rw e (
            record {
              same_threshold = k.same_threshold;
              same_timeout = k.same_timeout;
              count = omega (arith, k.count);
              below = λ h. k.below (omega arith);
              not_half = k.not_half;
            },
            λ h. absurd (omega arith),
          )
    ]

on_failure-IsCounted :
    (b c : CircuitBreaker) (n t : ℕ)
    → IsCounted b n c
    → IsCounted b (suc n) (on_failure t c)
      × (b.failure_threshold ≤ suc n
          → ((on_failure t c).state ≡ open_) × ((on_failure t c).opened_at ≡ some t))
on_failure-IsCounted b c n t k =
    rw (on_failure-counted t c k.not_half) (counted-IsCounted b c n t k)

fail_all-IsCounted :
    (b c : CircuitBreaker) (n : ℕ) (ts : List ℕ)
    → IsCounted b n c
    → IsCounted b (length ts + n) (fail_all ts c)
fail_all-IsCounted b c n [] k = let same : 0 + n ≡ n = omega arith in rw same k
fail_all-IsCounted b c n (t ∷ ts) k =
    let same : length ts + suc n ≡ suc (length ts) + n = omega arith in
    rw same at (fail_all-IsCounted b (on_failure t c) (suc n) ts (on_failure-IsCounted b c n t k).0)

on_success-IsCounted : (b : CircuitBreaker) → IsCounted b 0 (on_success b)
unfolding on_success
on_success-IsCounted b = record {
  same_threshold = refl;
  same_timeout = refl;
  count = refl;
  below = λ h. refl;
  not_half = inl refl;
}

-- The breaker at `now`, which failed last at `t`: whether `n` failures have reached the threshold.
abbrev pub Tripped : (threshold timeout n t now : ℕ) → CircuitBreaker → Type 0
Tripped threshold timeout n t now c =
    (n < threshold → before_call now c ≡ some c)
    × (threshold ≤ n → now < t + timeout → before_call now c ≡ none)
    × (threshold ≤ n
        → t + timeout ≤ now
        → (d : CircuitBreaker) × (before_call now c ≡ some d)
          × ((again later : ℕ)
              → again ≤ later
              → later < again + timeout
              → before_call later (on_failure again d) ≡ none))

closed_admits : (now : ℕ) (c : CircuitBreaker) → c.state ≡ closed → before_call now c ≡ some c
unfolding before_call admit
closed_admits now c e = rw e refl

open_refuses :
    (t now : ℕ) (c : CircuitBreaker)
    → c.state ≡ open_
    → c.opened_at ≡ some t
    → t ≤ now
    → now < t + c.recovery_timeout
    → before_call now c ≡ none
unfolding before_call admit
open_refuses t now c e o h l = rw (e, o, not-leb c.recovery_timeout (now - t) (omega arith)) refl

open_recovers :
    (t now : ℕ) (c : CircuitBreaker)
    → c.state ≡ open_
    → c.opened_at ≡ some t
    → t + c.recovery_timeout ≤ now
    → before_call now c ≡ some (record c { state = half_open; opened_at = none })
unfolding before_call admit
open_recovers t now c e o l = rw (e, o, le→leb c.recovery_timeout (now - t) (omega arith)) refl

half_open_refuses :
    (again later : ℕ) (c : CircuitBreaker)
    → again ≤ later
    → later < again + c.recovery_timeout
    → before_call later (on_failure again (record c { state = half_open; opened_at = none })) ≡ none
half_open_refuses again later c h l =
    open_refuses again later (on_failure again (record c { state = half_open; opened_at = none }))
      (unfold on_failure trip in refl) (unfold on_failure trip in refl) h
      (unfold on_failure trip in l)

-- Failures in a row after a success, the last one at `t`, and a call at `now`: while they are fewer
-- than the threshold the call is admitted and nothing changes; from the threshold on it is refused
-- until the timeout has passed since the last failure. Then it is admitted, and one failure
-- more is enough for the next calls to be refused for the length of the timeout.
pub failures_trip :
    (b : CircuitBreaker) (ts : List ℕ) (t now : ℕ)
    → t ≤ now
    → Tripped b.failure_threshold b.recovery_timeout
        (suc (length ts))
        t
        now
        (on_failure t (fail_all ts (on_success b)))
failures_trip b ts t now h =
    let before = fail_all-IsCounted b (on_success b) 0 ts (on_success-IsCounted b) in
    let same : length ts + 0 ≡ length ts = omega arith in
    let (k, reached) =
      on_failure-IsCounted b (fail_all ts (on_success b)) (length ts) t (rw same at before) in
    let c = on_failure t (fail_all ts (on_success b)) in
    (
      λ l. closed_admits now c (k.below l),
      λ r l. open_refuses t now c (reached r).0 (reached r).1 h (omega (arith, k.same_timeout)),
      λ r l. (
        record c { state = half_open; opened_at = none },
        open_recovers t now c (reached r).0 (reached r).1 (omega (arith, k.same_timeout)),
        λ again later a l'. half_open_refuses again later c a (omega (arith, k.same_timeout)),
      ),
    )
