-- ===== src/Resilience/Outcome.antt =====
-- How a call through `resilient_call` ends.
use mathlib.Core.Path.{subst}
use backend_business_intelli.Prelude.{
  ℕ, zero, suc, ◌+◌, ◌<◌, ◌≡◌, sym, ap, refl, Bool, true, Option, none, some, List, [], ◌∷◌, length,
  length-append, arith,
}
use backend_business_intelli.Resilience.Breaker.{CircuitBreaker, closed, before_call, on_success}
use backend_business_intelli.Resilience.Limiter.{RateLimiter, expire, sleep_time, grant, acquire}
use backend_business_intelli.Resilience.Call.{
  RetryPolicy, Reply, returned, retryable, failed, CallResult, value, raised, retryable_error,
  provider_error, Environment, CallState, granted, acquire_from, throttle, after_reply, attempts,
  enter, resilient_call, called, missed, rested, delay_after, compute_backoff_delay,
}

-- A limiter that lets requests through.
abbrev pub Usable : Option RateLimiter → Type 0
Usable none = Unit
Usable (some r) = 0 < r.max_requests_per_second

-- The limiter only waits.
record Waited (s : CallState) (a : CallState × Bool) : Type 0 where
  through : a.1 ≡ true
  same_made : a.0.made ≡ s.made
  same_retries : a.0.retries ≡ s.retries
  still_usable : Usable a.0.limiter

grant-some :
    (late : ℕ → ℕ) (now : ℕ) (r : RateLimiter) (rest : Option ℕ)
    → (rest ≡ none → ⊥)
    → (t : ℕ) × ((grant late now r rest).1 ≡ some t)
      × ((grant late now r rest).0.max_requests_per_second ≡ r.max_requests_per_second)
unfolding grant
grant-some late now r none h = absurd (h refl)
grant-some late now r (some rest) h = (now + rest + late rest, refl, refl)

sleep_time-ne-none : (limit now : ℕ) (cs : List ℕ) → 0 < limit → sleep_time limit now cs ≡ none → ⊥
unfolding sleep_time
sleep_time-ne-none limit now [] u h = ground arith
sleep_time-ne-none limit now (c ∷ cs) u h = cc

granted-Waited :
    (s : CallState) (g : RateLimiter × Option ℕ) (t : ℕ)
    → g.1 ≡ some t
    → 0 < g.0.max_requests_per_second
    → Waited s (granted s g)
granted-Waited s (r, none) t e u = cc
granted-Waited s (r, some now) t e u = record {
  through = refl;
  same_made = refl;
  same_retries = refl;
  still_usable = u;
}

acquire_from-Waited :
    (late : ℕ → ℕ) (limiter : Option RateLimiter) (s : CallState)
    → s.limiter ≡ limiter
    → Usable limiter
    → Waited s (acquire_from late limiter s)
unfolding acquire_from acquire
acquire_from-Waited late none s e u = record {
  through = refl;
  same_made = refl;
  same_retries = refl;
  still_usable = rw e tt;
}
acquire_from-Waited late (some r) s e u =
    let calls = expire s.clock r.calls in
    let (t, at_t, same) =
      grant-some late s.clock (record r { calls = calls })
        (sleep_time r.max_requests_per_second s.clock calls)
        (sleep_time-ne-none r.max_requests_per_second s.clock calls u) in
    granted-Waited s (acquire late s.clock r) t at_t (rw same u)

abbrev pub IsRetryable : {T : Type 0} → Reply T → Type 0
IsRetryable (retryable wish) = Unit
IsRetryable _ = ⊥

module _ {T : Type 0} where
  -- What the last reply makes of the call; `whole` says that no attempt was left.
  abbrev pub Ends : Type 0 → Reply T → CallResult T → CallState → Type 0
  Ends whole (returned v) r t =
      (r ≡ value v) × (t.breaker.state ≡ closed) × (t.breaker.consecutive_failures ≡ 0)
  Ends whole (failed e) r t = r ≡ raised (provider_error e)
  Ends whole (retryable wish) r t = whole × (r ≡ raised (retryable_error wish))

  -- Of at most `rounds` attempts from `s` on, the outcome: `before` attempts met a retryable
  -- error and were told to `on_retry`, and one more was the last.
  pub record Outcome (env : Environment T) (rounds : ℕ) (s : CallState)
      (o : CallResult T × CallState) : Type 0 where
    pub before : ℕ
    pub enough : before < rounds
    pub count : o.1.made ≡ s.made + suc before
    pub told : length o.1.retries ≡ length s.retries + before
    pub retried : (i : ℕ) → i < before → IsRetryable (env.reply (s.made + i))
    pub ends : Ends (suc before ≡ rounds) (env.reply (s.made + before)) o.0 o.1

  Ends-map :
      (P Q : Type 0) (reply : Reply T) (r : CallResult T) (t : CallState)
      → (P → Q)
      → Ends P reply r t
      → Ends Q reply r t
  Ends-map P Q (returned v) r t f h = h
  Ends-map P Q (failed e) r t f h = h
  Ends-map P Q (retryable wish) r t f h = (f h.0, h.1)

later_retried :
    {T : Type 0} (reply : ℕ → Reply T) (m n before : ℕ)
    → n ≡ suc m
    → IsRetryable (reply m)
    → ((i : ℕ) → i < before → IsRetryable (reply (n + i)))
    → (i : ℕ) → i < suc before
    → IsRetryable (reply (m + i))
later_retried reply m n before e first rest zero below =
    let here : m ≡ m + 0 = omega arith in subst (λ k. IsRetryable (reply k)) here first
later_retried reply m n before e first rest (suc i) below =
    let there : n + i ≡ m + suc i = omega arith in
    subst (λ k. IsRetryable (reply k)) there (rest i (omega arith))

module _ {T : Type 0} (env : Environment T) (retry : RetryPolicy) where
  -- One attempt, and the loop after it.
  last_attempt :
      (rounds : ℕ) (s : CallState) (o : CallResult T × CallState) (reply : Reply T)
      → env.reply s.made ≡ reply
      → o.1.made ≡ suc s.made
      → o.1.retries ≡ s.retries
      → Ends (1 ≡ suc rounds) reply o.0 o.1
      → Outcome env (suc rounds) s o
  last_attempt rounds s o reply e m l h =
      let here : s.made ≡ s.made + 0 = omega arith in
      record {
        before = 0;
        enough = omega arith;
        count = omega arith;
        told = rw l (omega arith);
        retried = λ i below. absurd (omega arith);
        ends = subst (λ k. Ends (1 ≡ suc rounds) (env.reply k) o.0 o.1) here (rw e h);
      }

  one_more :
      (rounds : ℕ) (s t : CallState) (o : CallResult T × CallState) (wish : Option ℕ)
      → env.reply s.made ≡ retryable wish
      → t.made ≡ suc s.made
      → length t.retries ≡ length s.retries + 1
      → Outcome env rounds t o
      → Outcome env (suc rounds) s o
  one_more rounds s t o wish e m l rest =
      let open_at : (i : ℕ) → t.made + i ≡ s.made + suc i = λ i. omega arith in
      record {
        before = suc rest.before;
        enough = omega (arith, rest.enough);
        count = omega (arith, rest.count);
        told = omega (arith, rest.told);
        retried = later_retried env.reply s.made t.made rest.before m (rw e tt) rest.retried;
        ends =
            Ends-map (suc rest.before ≡ rounds) (suc (suc rest.before) ≡ suc rounds) _ o.0 o.1
              (λ w. omega arith)
              (subst (λ k. Ends (suc rest.before ≡ rounds) (env.reply k) o.0 o.1)
                (open_at rest.before) rest.ends);
      }

  after_reply-Outcome :
      (again : Option ℕ → CallState → CallResult T × CallState) (rounds attempt : ℕ)
      (reply : Reply T) (s s' : CallState)
      → env.reply s.made ≡ reply
      → s'.made ≡ suc s.made
      → s'.retries ≡ s.retries
      → Usable s'.limiter
      → ((wish : Option ℕ) (t : CallState)
          → Usable t.limiter
          → 0 < rounds
          → Outcome env rounds t (again wish t))
      → Outcome env (suc rounds) s (after_reply env retry again rounds attempt reply s')
  unfolding after_reply on_success
  after_reply-Outcome again rounds attempt (returned v) s s' e m l u more =
      last_attempt rounds s _ (returned v) e m l (refl, refl, refl)
  after_reply-Outcome again rounds attempt (failed x) s s' e m l u more =
      last_attempt rounds s _ (failed x) e m l refl
  after_reply-Outcome again zero attempt (retryable wish) s s' e m l u more =
      last_attempt 0 s _ (retryable wish) e m l (refl, refl)
  after_reply-Outcome again (suc rounds) attempt (retryable wish) s s' e m l u more =
      let t = rested env retry attempt wish (missed env retry s') in
      one_more (suc rounds) s t (again wish t) wish e m
        (omega (
          arith,
          length-append s'.retries
              ((attempt, delay_after wish (compute_backoff_delay retry attempt)) ∷ []),
          ap (λ (k : List (ℕ × ℕ)). length k) l,
        ))
        (more wish t u (omega arith))

  attempts-Outcome :
      (rounds attempt : ℕ) (last : Option (Option ℕ)) (s : CallState)
      → Usable s.limiter
      → 0 < rounds
      → Outcome env rounds s (attempts env retry rounds attempt last s)
  unfolding attempts throttle
  attempts-Outcome zero attempt last s u h = absurd (omega arith)
  attempts-Outcome (suc rounds) attempt last s u h =
      let w = acquire_from-Waited env.late s.limiter s refl u in
      let s' = (throttle env s).0 in
      rw w.through (
        after_reply-Outcome (λ wish t. attempts env retry rounds (attempt + 1) (some wish) t) rounds
          (attempt + 1) (env.reply s'.made) s (called env retry s') (ap env.reply (sym w.same_made))
          (ap suc w.same_made) w.same_retries w.still_usable
          (λ wish t u' h'. attempts-Outcome rounds (attempt + 1) (some wish) t u' h'))

  -- A call that the breaker admits, with a limiter that lets requests through and an attempt at
  -- least, makes a number of attempts within the limit. All but the last one met a retryable
  -- error, and `on_retry` was told of each of them. The last one returned, and its value is the
  -- result and the breaker closed with no failure counted; or it met another exception, which is
  -- raised; or it was the last allowed and its retryable error is raised.
  pub resilient_call-Outcome :
      (s : CallState) (b : CircuitBreaker)
      → before_call s.clock s.breaker ≡ some b
      → Usable s.limiter
      → 0 < retry.max_attempts
      → Outcome env retry.max_attempts s (resilient_call env retry s)
  unfolding resilient_call enter
  resilient_call-Outcome s b e u h =
      let o = attempts-Outcome retry.max_attempts 0 none (record s { breaker = b }) u h in
      rw e (record {
        before = o.before;
        enough = o.enough;
        count = o.count;
        told = o.told;
        retried = o.retried;
        ends = o.ends;
      })
