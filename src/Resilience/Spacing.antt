-- ===== src/Resilience/Spacing.antt =====
-- What the rate limiter guarantees over any sequence of requests.
use backend_business_intelli.Prelude.{
  ℕ, suc, ◌+◌, ◌-◌, ◌≤◌, ◌<◌, ◌≡◌, refl, sym, ◌∙◌, ◌==◌, Option, none, some, List, [], ◌∷◌, ◌++◌,
  length, length-append, leb, arith, Bool-cases, inl, inr, if◌then◌else◌,
}
use backend_business_intelli.Resilience.Limiter.{
  RateLimiter, second, expire, sleep_time, grant, acquire,
}
use backend_business_intelli.Resilience.Deque.{
  get_elem?, rev_onto, rev_onto-append, get-rev_onto, AllExpired, AllExpired-later, AllExpired-get,
  Fits, length-expire-Fits, expire-Split, Fits-later,
}

-- The time after a request, and the grants with its one; where it raised, both are as before.
abbrev time_after : Option ℕ → ℕ → ℕ
time_after none now = now
time_after (some t) now = t

abbrev noted : Option ℕ → List ℕ → List ℕ
noted none grants = grants
noted (some t) grants = t ∷ grants

-- The grants of a sequence of requests, the last one first. Each request comes some time after
-- the grant before it, and the clock goes on while the limiter works.
unfoldable pub requests : (ℕ → ℕ) → List ℕ → RateLimiter → ℕ → List ℕ → List ℕ
unfolding acquire
requests late [] r now grants = grants
requests late (wait ∷ waits) r now grants =
    let (r', granted) = acquire late (now + wait) r in
    requests late waits r' (time_after granted (now + wait)) (noted granted grants)

-- Any grant comes a second at least after the grant that lies `limit` places before it.
abbrev pub Spaced : ℕ → List ℕ → Type 0
Spaced limit [] = Unit
Spaced limit (t ∷ grants) =
    ((earlier : ℕ) → get_elem? grants (limit - 1) ≡ some earlier → earlier + second ≤ t)
    × Spaced limit grants

-- The limiter and the grants so far, the last one first.
record Holds (limit : ℕ) (r : RateLimiter) (now : ℕ) (grants : List ℕ) : Type 0 where
  same_limit : r.max_requests_per_second ≡ limit
  older : List ℕ
  all_grants : grants ≡ rev_onto r.calls older
  expired : AllExpired now older
  fits : Fits limit now r.calls
  spaced : Spaced limit grants

module _ (late : ℕ → ℕ) (takes_time : (n : ℕ) → 0 < late n) (limit : ℕ) (positive : 0 < limit) where
  -- A grant at the deque after expiry, with the pause that the limiter makes.
  record Granted (now : ℕ) (cs : List ℕ) (t : ℕ) : Type 0 where
    later : now ≤ t
    fits : Fits limit t (cs ++ t ∷ [])
    apart : (c : ℕ) (more : List ℕ) → cs ≡ c ∷ more → length cs ≡ limit → c + second ≤ t

  sleep_time-Granted :
      (now : ℕ) (cs : List ℕ)
      → length cs ≤ limit
      → (rest : ℕ) × (sleep_time limit now cs ≡ some rest) × Granted now cs (now + rest + late rest)
  unfolding sleep_time
  sleep_time-Granted now [] h = (
    0,
    ground arith,
    record {
      later = omega arith;
      fits = (omega arith, λ e. absurd (omega arith));
      apart = λ c more e. cc;
    },
  )
  sleep_time-Granted now (c ∷ cs) h =
      let rest : ℕ = if leb limit (length (c ∷ cs)) then c + second - now else 0 in
      let tail_length = length-append cs ((now + rest + late rest) ∷ []) in
      let enough : length (c ∷ cs) ≡ limit → c + second ≤ now + rest = λ e. ground arith in
      (
        rest,
        refl,
        record {
          later = omega arith;
          fits = (omega arith, λ e. omega (arith, takes_time rest, enough (omega arith)));
          apart = λ d more e l. let first : c ≡ d = cc in omega (arith, enough l);
        },
      )

  head-apart :
      (now : ℕ) (cs older : List ℕ) (t earlier : ℕ)
      → Granted now cs t
      → length cs ≤ limit
      → AllExpired now older
      → get_elem? (rev_onto cs older) (limit - 1) ≡ some earlier
      → earlier + second ≤ t
  head-apart now [] older t earlier g h a e =
      omega (arith, g.later, AllExpired-get now older (limit - 1) earlier a e)
  head-apart now (c ∷ cs) older t earlier g h a e = elim (Bool-cases (length (c ∷ cs) == limit)) [
    | inl full ↦
        let index : limit - 1 ≡ length cs + 0 = ground arith in
        let e' = rw index at e in
        let first : some c ≡ some earlier = sym (get-rev_onto cs (c ∷ older) 0) ∙ e' in
        let same : c ≡ earlier = cc in omega (arith, g.apart c cs refl (ground arith))
    | inr partly ↦
        let index : limit - 1 ≡ length cs + suc (limit - 2 - length cs) = ground arith in
        let e' = rw index at e in
        omega (
          arith,
          g.later,
          AllExpired-get now older (limit - 2 - length cs) earlier a
              (sym (get-rev_onto cs (c ∷ older) (suc (limit - 2 - length cs))) ∙ e'),
        )
  ]

  acquire-Holds :
      (r : RateLimiter) (now wait : ℕ) (grants : List ℕ)
      → Holds limit r now grants
      → (t : ℕ) × ((acquire late (now + wait) r).1 ≡ some t)
        × Holds limit (acquire late (now + wait) r).0 t (t ∷ grants)
  unfolding acquire grant
  acquire-Holds r now wait grants h =
      let start = now + wait in
      let cs = expire start r.calls in
      let short =
        length-expire-Fits limit start r.calls
          (Fits-later limit now start r.calls (omega arith) h.fits) in
      let split =
        expire-Split start r.calls h.older
          (AllExpired-later now start h.older (omega arith) h.expired) in
      let (rest, pauses, g) = sleep_time-Granted start cs short in
      let t = start + rest + late rest in
      let all : grants ≡ rev_onto cs split.rest = h.all_grants ∙ split.same in
      (
        t,
        rw (h.same_limit, pauses) refl,
        rw (h.same_limit, pauses)
            (record {
              same_limit = refl;
              older = split.rest;
              all_grants = rw all (sym (rev_onto-append cs split.rest t));
              expired = AllExpired-later start t split.rest g.later split.expired;
              fits = g.fits;
              spaced = (
                λ earlier e.
                    head-apart start cs split.rest t earlier g short split.expired (rw all at e),
                h.spaced,
              );
            }),
      )

  requests-Holds :
      (waits : List ℕ) (r : RateLimiter) (now : ℕ) (grants : List ℕ)
      → Holds limit r now grants
      → Spaced limit (requests late waits r now grants)
  unfolding requests
  requests-Holds [] r now grants h = h.spaced
  requests-Holds (wait ∷ waits) r now grants h =
      let (t, granted, h') = acquire-Holds r now wait grants h in
      rw granted (requests-Holds waits (acquire late (now + wait) r).0 t (t ∷ grants) h')

  -- With a positive limit and a clock that moves on at each request, a new limiter spaces any
  -- sequence of requests: no more than the limit are granted within less than a second.
  pub requests-Spaced :
      (waits : List ℕ) (now : ℕ)
      → Spaced limit
          (requests late waits (record { max_requests_per_second = limit; calls = [] }) now [])
  requests-Spaced waits now =
      requests-Holds waits (record { max_requests_per_second = limit; calls = [] }) now []
        (record {
          same_limit = refl;
          older = [];
          all_grants = refl;
          expired = tt;
          fits = tt;
          spaced = tt;
        })
