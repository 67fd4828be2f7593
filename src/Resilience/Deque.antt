-- ===== src/Resilience/Deque.antt =====
-- The deque of the rate limiter, as the last of all the grants.
use backend_business_intelli.Prelude.{
  ℕ, zero, suc, ◌+◌, ◌≤◌, ◌<◌, ◌≡◌, refl, ap, ◌∙◌, Option, none, some, List, [], ◌∷◌, ◌++◌, length,
  ltb, arith, Bool-cases, inl, inr,
}
use backend_business_intelli.Resilience.Limiter.{second, expire}

-- The entry of a number.
abbrev pub get_elem? : List ℕ → ℕ → Option ℕ
get_elem? [] i = none
get_elem? (x ∷ xs) zero = some x
get_elem? (x ∷ xs) (suc i) = get_elem? xs i

-- The calls of the deque, the last one first, before older ones.
abbrev pub rev_onto : List ℕ → List ℕ → List ℕ
rev_onto [] older = older
rev_onto (c ∷ cs) older = rev_onto cs (c ∷ older)

pub rev_onto-append :
    (cs older : List ℕ) (t : ℕ) → rev_onto (cs ++ t ∷ []) older ≡ t ∷ rev_onto cs older
rev_onto-append [] older t = refl
rev_onto-append (c ∷ cs) older t = rev_onto-append cs (c ∷ older) t

pub get-rev_onto :
    (cs older : List ℕ) (j : ℕ) → get_elem? (rev_onto cs older) (length cs + j) ≡ get_elem? older j
get-rev_onto [] older j = let same : 0 + j ≡ j = omega arith in ap (λ k. get_elem? older k) same
get-rev_onto (c ∷ cs) older j =
    let same : suc (length cs) + j ≡ length cs + suc j = omega arith in
    ap (λ k. get_elem? (rev_onto cs (c ∷ older)) k) same ∙ get-rev_onto cs (c ∷ older) (suc j)

abbrev pub AllExpired : ℕ → List ℕ → Type 0
AllExpired now [] = Unit
AllExpired now (c ∷ cs) = (c + second < now) × AllExpired now cs

pub AllExpired-later : (now t : ℕ) (cs : List ℕ) → now ≤ t → AllExpired now cs → AllExpired t cs
AllExpired-later now t [] h a = tt
AllExpired-later now t (c ∷ cs) h (e, a) = (omega arith, AllExpired-later now t cs h a)

pub AllExpired-get :
    (now : ℕ) (cs : List ℕ) (j c : ℕ)
    → AllExpired now cs
    → get_elem? cs j ≡ some c
    → c + second < now
AllExpired-get now [] j c a h = cc
AllExpired-get now (d ∷ cs) zero c (e, a) h = let same : d ≡ c = cc in omega arith
AllExpired-get now (d ∷ cs) (suc j) c (e, a) h = AllExpired-get now cs j c a h

pub length-expire : (now : ℕ) (cs : List ℕ) → length (expire now cs) ≤ length cs
unfolding expire
length-expire now [] = omega arith
length-expire now (c ∷ cs) = ground (arith, length-expire now cs)

-- At most one call more than the limit is kept, and then the first one has expired.
abbrev pub Fits : ℕ → ℕ → List ℕ → Type 0
Fits limit now [] = Unit
Fits limit now (c ∷ cs) = (length cs ≤ limit) × (length cs ≡ limit → c + second < now)

pub length-expire-Fits :
    (limit now : ℕ) (cs : List ℕ) → Fits limit now cs → length (expire now cs) ≤ limit
unfolding expire
length-expire-Fits limit now [] f = omega arith
length-expire-Fits limit now (c ∷ cs) (short, full) = elim (Bool-cases (ltb (c + second) now)) [
  | inl old ↦ rw old (omega (arith, length-expire now cs))
  | inr kept ↦ rw kept (ground arith)
]

-- What expires joins the older calls.
pub record Split (now : ℕ) (cs older : List ℕ) : Type 0 where
  pub rest : List ℕ
  pub same : rev_onto cs older ≡ rev_onto (expire now cs) rest
  pub expired : AllExpired now rest

pub expire-Split : (now : ℕ) (cs older : List ℕ) → AllExpired now older → Split now cs older
unfolding expire
expire-Split now [] older a = record { rest = older; same = refl; expired = a }
expire-Split now (c ∷ cs) older a = elim (Bool-cases (ltb (c + second) now)) [
  | inl old ↦
      let s = expire-Split now cs (c ∷ older) (ground arith, a) in
      record { rest = s.rest; same = rw old s.same; expired = s.expired }
  | inr kept ↦ record { rest = older; same = rw kept refl; expired = a }
]

pub Fits-later : (limit now t : ℕ) (cs : List ℕ) → now ≤ t → Fits limit now cs → Fits limit t cs
Fits-later limit now t [] h f = tt
Fits-later limit now t (c ∷ cs) h (short, full) = (short, λ e. omega (arith, full e))
