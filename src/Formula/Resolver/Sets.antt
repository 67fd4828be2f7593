-- ===== src/Formula/Resolver/Sets.antt =====
-- Lists without repetitions, and how many of a list are not in another one.
use backend_business_intelli.Prelude.{
  ℕ, ◌+◌, ◌-◌, ◌≡◌, refl, ap, ◌∙◌, Bool, true, false, ◌&&◌, ◌||◌, List, [], ◌∷◌, ◌++◌, arith,
  length, Bool-cases, inl, inr, if◌then◌else◌, ◌==◌,
}
use backend_business_intelli.Formula.Base.{Text, text_eq}
use backend_business_intelli.Formula.Validator.{member}
use backend_business_intelli.Formula.Identifiers.{text_eq_refl, text_eq→≡, member-append}
use backend_business_intelli.Formula.Resolver.{update, release}

abbrev pub Distinct : List Text → Type 0
Distinct [] = Unit
Distinct (t ∷ ts) = (member t ts ≡ false) × Distinct ts

pub text_eq_sym : (t u : Text) → text_eq t u ≡ text_eq u t
text_eq_sym t u = elim (Bool-cases (text_eq t u)) [
  | inl e ↦ let same = text_eq→≡ t u e in rw same refl
  | inr e ↦ elim (Bool-cases (text_eq u t)) [
    | inl e' ↦ let same = text_eq→≡ u t e' in rw same refl
    | inr e' ↦ rw (e, e') refl
  ]
]

pub along {ℓ} : {A : Type ℓ} (f : Text → A) (t u : Text) → text_eq t u ≡ true → f t ≡ f u
along f t u e = ap f (text_eq→≡ t u e)

pub member-snoc :
    (t u : Text) (ts : List Text) → member t (ts ++ u ∷ []) ≡ (member t ts || text_eq t u)
member-snoc t u ts = ground (arith, member-append t ts (u ∷ []))

pub member_same : (t u : Text) (ts : List Text) → text_eq t u ≡ true → member t ts ≡ member u ts
member_same t u ts e = let same = text_eq→≡ t u e in rw same refl

pub Distinct-snoc :
    (ts : List Text) (u : Text) → Distinct ts → member u ts ≡ false → Distinct (ts ++ u ∷ [])
Distinct-snoc [] u d n = (refl, tt)
Distinct-snoc (t ∷ ts) u (n', d) n =
    (ground (arith, member-snoc t u ts, text_eq_sym t u), Distinct-snoc ts u d (ground arith))

-- How many of a list are not in another one.
abbrev pub waiting : List Text → List Text → ℕ
waiting done [] = 0
waiting done (t ∷ ts) = (if member t done then 0 else 1) + waiting done ts

pub waiting-none : (ts : List Text) → waiting [] ts ≡ length ts
waiting-none [] = refl
waiting-none (t ∷ ts) = omega (arith, waiting-none ts)

pub waiting-zero :
    (done ts : List Text) (t : Text)
    → waiting done ts ≡ 0
    → member t ts ≡ true
    → member t done ≡ true
waiting-zero done [] t z m = cc
waiting-zero done (u ∷ ts) t z m = ground (arith, waiting-zero done ts t, member_same t u done)

-- One more that is done is one less that waits, if it was among them.
pub waiting-snoc :
    (done ts : List Text) (u : Text)
    → Distinct ts
    → member u done ≡ false
    → waiting done ts ≡ waiting (done ++ u ∷ []) ts + (if member u ts then 1 else 0)
waiting-snoc done [] u d n = refl
waiting-snoc done (t ∷ ts) u (fresh, d) n = ground (
  arith,
  waiting-snoc done ts u d n,
  member-snoc t u done,
  member_same t u done,
  member_same t u ts,
  text_eq_sym t u,
)

-- The counters and the queue after the loop over the neighbours of a node.
pub release-inbound :
    (ns : List Text) (inbound : Text → ℕ) (queue : List Text) (v : Text)
    → Distinct ns
    → (release ns inbound queue).0 v ≡ (if member v ns then inbound v - 1 else inbound v)
unfolding release
release-inbound [] inbound queue v d = refl
release-inbound (n ∷ ns) inbound queue v (fresh, d) =
    let left = inbound n - 1 in
    let queue' = if left == 0 then queue ++ n ∷ [] else queue in
    release-inbound ns (update inbound n left) queue' v d ∙ elim (Bool-cases (text_eq v n)) [
      | inl e ↦
          let value = ap inbound (text_eq→≡ v n e) in ground (arith, member_same v n ns, value)
      | inr e ↦ ground arith
    ]

pub member-queued :
    (b : Bool) (v n : Text) (queue : List Text)
    → member v (if b then queue ++ n ∷ [] else queue) ≡ (member v queue || (text_eq v n && b))
member-queued true v n queue = ground (arith, member-snoc v n queue)
member-queued false v n queue = ground arith

pub release-queue :
    (ns : List Text) (inbound : Text → ℕ) (queue : List Text) (v : Text)
    → Distinct ns
    → member v (release ns inbound queue).1
      ≡ (member v queue || (member v ns && (inbound v - 1 == 0)))
unfolding release
release-queue [] inbound queue v d = ground arith
release-queue (n ∷ ns) inbound queue v (fresh, d) =
    let left = inbound n - 1 in
    let queue' = if left == 0 then queue ++ n ∷ [] else queue in
    release-queue ns (update inbound n left) queue' v d
    ∙ rw (member-queued (left == 0) v n queue) (elim (Bool-cases (text_eq v n)) [
      | inl e ↦
          let value = ap inbound (text_eq→≡ v n e) in ground (arith, member_same v n ns, value)
      | inr e ↦ ground arith
    ])

-- A neighbour joins the queue at its last link, so it must not be there yet.
pub release-Distinct :
    (ns : List Text) (inbound : Text → ℕ) (queue : List Text)
    → Distinct ns
    → Distinct queue
    → ((v : Text) → member v ns ≡ true → inbound v - 1 ≡ 0 → member v queue ≡ false)
    → Distinct (release ns inbound queue).1
unfolding release
release-Distinct [] inbound queue d q h = q
release-Distinct (n ∷ ns) inbound queue (fresh, d) q h =
    let left = inbound n - 1 in
    let queue' = if left == 0 then queue ++ n ∷ [] else queue in
    release-Distinct ns (update inbound n left) queue' d
      (elim (Bool-cases (left == 0)) [
        | inl e ↦
            rw e (Distinct-snoc queue n q (h n (ground (arith, text_eq_refl n)) (ground arith)))
        | inr e ↦ rw e q
      ])
      (λ v m z. rw (member-queued (left == 0) v n queue) (ground (arith, member_same v n ns, h v)))
