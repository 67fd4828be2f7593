-- ===== src/Formula/Sound.antt =====
-- Whatever the parser accepts is the text of an expression of the grammar, and its fuel suffices.
mod Words
use mathlib.Core.Path.{subst}
use mathlib.Core.List.{append_assoc, append-nil}
use backend_business_intelli.Prelude.{
  ℕ, zero, suc, ◌≤◌, ◌<◌, ◌≡◌, ◌≢◌, ◌↔◌, refl, ap, sym, ◌∙◌, Bool, true, false, Option, [], ◌∷◌,
  ◌++◌, arith, length, Bool-cases, inl, inr, ◌==◌, if◌then◌else◌, leb, Option-cases,
}
use backend_business_intelli.Formula.Base.{
  Text, all, Node, Nodes, Result, ok, err, ◌>>=◌, cons, is_space, out_of_fuel,
}
use backend_business_intelli.Formula.Parser.{
  at, advance, passed, skip_ws, is_number_start, is_number_char, is_identifier_char, count_dots,
  raw_number, after_number, parse_identifier, parse_number, parse_call, parse_start, parse_next,
  parse_expression, parse_args, finish, parse,
}
use backend_business_intelli.Formula.Scan.{
  passed-all, passed-left, length-left, passed-cons, passed-stop,
}
use backend_business_intelli.Formula.Grammar.{
  Expr, Items, number, identifier, empty_call, call, last, more, render, render_items, denoted,
  denoted_items, IsGap, IsNumeral, IsName, IsExpr, AreItems,
}
use backend_business_intelli.Formula.RoundTrip.{settle, skip_ws-settle, parse-render}
use backend_business_intelli.Formula.RoundTrip.Words.{parse_args-skip_ws, lengths}
use Words.{
  Yields, Yields-bind, Yields-if, at→eq, gap_at, raw-after, raw-IsNumeral, shorter, IsName-length,
  regroup_empty, regroup_call, regroup_item,
}

module _ {F : Type 0} (float : Text → Option F) where
  -- The outcome of reading a name, or a number, off the front.
  abbrev NameRead : Text → Text × Text → Type 0
  NameRead s (name, t) = IsName name × (s ≡ name ++ t)

  name-IsName :
      (c : ℕ) (s : Text)
      → is_number_start c ≡ false
      → Yields (NameRead (c ∷ s)) (parse_identifier (c ∷ s))
  unfolding parse_identifier
  name-IsName c s h = elim (Bool-cases (is_identifier_char c)) [
    | inl e ↦
        let (whole, after) = passed-cons is_identifier_char c s e in
        let letters : all is_identifier_char (c ∷ passed is_identifier_char s) ≡ true =
          ground (arith, passed-all is_identifier_char s) in
        rw (parse_identifier, whole, after)
          ((h, letters), ap (λ t. c ∷ t) (passed-left is_identifier_char s))
    | inr e ↦ rw (parse_identifier, passed-stop is_identifier_char c s e) (cc)
  ]

  abbrev Read : Text → Node F × Text → Type 0
  Read s (n, t) =
      (e : Expr F) × (rest : Text) × IsExpr float e
      × (s ≡ render e ++ rest)
      × (n ≡ denoted e)
      × (t ≡ settle float e rest)

  abbrev ReadItems : Text → Nodes F × Text → Type 0
  ReadItems s (ns, t) =
      (items : Items F) × AreItems float items
      × (s ≡ render_items items ++ t)
      × (ns ≡ denoted_items items)

  number-Read :
      (gap s : Text) (c : ℕ) (u : Text)
      → IsGap gap
      → s ≡ gap ++ c ∷ u
      → is_number_start c ≡ true
      → Yields (Read s) (parse_number float (c ∷ u))
  unfolding parse_number render denoted
  number-Read gap s c u g p h =
      let raw = raw_number (c ∷ u) in
      Yields-if (Read s) (leb (count_dots raw) 1) _ _
        (λ d. elim (Option-cases (float raw)) [
          | inl e ↦ rw e (cc)
          | inr (v, e) ↦ rw e (
            number gap raw v,
            after_number (c ∷ u),
            (g, raw-IsNumeral c u h (ground arith), e),
            p ∙ ap (λ t. gap ++ t) (raw-after (c ∷ u)) ∙ simp append_assoc,
            refl,
            refl,
          )
        ])
        (λ d. cc)

  call-Read :
      (args_at : Text → Result (Nodes F × Text)) (gap name s t : Text)
      → IsGap gap
      → IsName name
      → s ≡ gap ++ (name ++ t)
      → ((w : Text) → length w < length t → Yields (ReadItems w) (args_at (skip_ws w)))
      → Yields (Read s) (parse_call float args_at name (skip_ws t))
  unfolding parse_call render denoted
  call-Read args_at gap name s t g n p args =
      Yields-if (Read s) (at b'(' (skip_ws t)) _ _
        (λ o.
          let w = advance (skip_ws t) in
          let opened = gap_at b'(' t o in
          Yields-if (Read s) (at b')' (skip_ws w)) _ _
            (λ c. (
              empty_call gap name (passed is_space t) (passed is_space w),
              advance (skip_ws w),
              (g, n, passed-all is_space t, passed-all is_space w),
              regroup_empty s gap name t _ w _ _ p opened (gap_at b')' w c),
              refl,
              refl,
            ))
            (λ c.
              Yields-bind (ReadItems w) (Read s) (args_at (skip_ws w)) _
                (args w (shorter t _ w b'(' opened))
                λ (ns, u) (items, a, q, d). (
                  call gap name (passed is_space t) items,
                  u,
                  (g, n, passed-all is_space t, a),
                  regroup_call s gap name t _ w _ u p opened q,
                  ap (λ l. Node.call name l) d,
                  refl,
                )))
        (λ o. (identifier gap name, t, (g, n), p ∙ sym (append_assoc gap name t), refl, refl))

  next-Read :
      (args_at : Text → Result (Nodes F × Text)) (e : Expr F) (s rest : Text)
      → IsExpr float e
      → s ≡ render e ++ rest
      → ((w : Text) → length w < length rest → Yields (ReadItems w) (args_at (skip_ws w)))
      → Yields (ReadItems s) (parse_next float args_at (denoted e) (skip_ws rest))
  unfolding parse_next render denoted
  next-Read args_at e s rest h p args =
      Yields-if (ReadItems s) (at b',' (skip_ws rest)) _ _
        (λ o.
          let w = advance (skip_ws rest) in
          let comma = gap_at b',' rest o in
          Yields-bind (ReadItems w) (ReadItems s) (args_at (skip_ws w)) _
            (args w (shorter rest _ w b',' comma))
            λ (ns, u) (items, a, q, d). (
              more e (passed is_space rest) items,
              (h, passed-all is_space rest, a),
              regroup_item s (render e) rest _ b',' w _ u p comma q,
              ap (λ l. cons (denoted e) l) d,
            ))
        (λ o.
          Yields-if (ReadItems s) (at b')' (skip_ws rest)) _ _
            (λ c. (
              last e (passed is_space rest),
              (h, passed-all is_space rest),
              regroup_item s (render e) rest _ b')' _ [] _ p (gap_at b')' rest c) refl,
              refl,
            ))
            (λ c. cc))

  start-Read :
      (args_at : Text → Result (Nodes F × Text)) (gap s u : Text)
      → IsGap gap
      → s ≡ gap ++ u
      → ((w : Text) → suc (length w) < length u → Yields (ReadItems w) (args_at (skip_ws w)))
      → Yields (Read s) (parse_start float args_at u)
  unfolding parse_start
  start-Read args_at gap s [] g p args = cc
  start-Read args_at gap s (c ∷ u) g p args =
      Yields-if (Read s) (is_number_start c) _ _ (λ h. number-Read gap s c u g p h)
        (λ h.
          Yields-bind (NameRead (c ∷ u)) (Read s) (parse_identifier (c ∷ u)) _ (name-IsName c u h)
            λ (name, t) (n, q).
              call-Read args_at gap name s t g n (p ∙ ap (λ v. gap ++ v) q)
                (λ w l. args w (omega (lengths, ap length q, IsName-length name n))))

  mutual
    unfolding parse_expression parse_args

    expression-Read :
        (f : ℕ) (s : Text) → length s < f → Yields (Read s) (parse_expression float f s)
    expression-Read zero s l = elim l [ ]
    expression-Read (suc f) s l =
        start-Read (parse_args float f) (passed is_space s) s (skip_ws s) (passed-all is_space s)
          (passed-left is_space s)
          (λ w m.
            rw (parse_args-skip_ws float f w)
              (args-Read f w (omega (arith, length-left is_space s))))

    args-Read :
        (f : ℕ) (s : Text) → suc (length s) < f → Yields (ReadItems s) (parse_args float f s)
    args-Read zero s l = elim l [ ]
    args-Read (suc f) s l =
        Yields-bind (Read s) (ReadItems s) (parse_expression float f s) _
          (expression-Read f s (omega arith))
          λ (n, t) (e, rest, h, p, d, q).
            rw (q, skip_ws-settle float e rest, d)
              (next-Read (parse_args float f) e s rest h p (λ w m.
                rw (parse_args-skip_ws float f w) (args-Read f w (omega (lengths, ap length p)))))

  -- The text is that of an expression that denotes the tree, and white space.
  abbrev pub IsText : Text → Node F → Type 0
  IsText s n =
      (e : Expr F) × (gap : Text) × IsExpr float e
      × IsGap gap
      × (s ≡ render e ++ gap)
      × (n ≡ denoted e)

  finish-IsText :
      (s : Text) (e : Expr F) (gap u : Text)
      → IsExpr float e
      → IsGap gap
      → s ≡ render e ++ (gap ++ u)
      → Yields (IsText s) (finish float (denoted e) u)
  unfolding finish
  finish-IsText s e gap [] h g p =
      (e, gap, h, g, p ∙ ap (λ t. render e ++ t) (append-nil gap), refl)
  finish-IsText s e gap (c ∷ u) h g p = cc

  parse-IsText : (s : Text) → Yields (IsText s) (parse float s)
  unfolding parse
  parse-IsText s =
      Yields-bind (Read s) (IsText s) (parse_expression float (suc (length s)) s) _
        (expression-Read (suc (length s)) s (omega arith))
        λ (n, t) (e, rest, h, p, d, q).
          rw (q, skip_ws-settle float e rest, d)
            (finish-IsText s e (passed is_space rest) (skip_ws rest) h (passed-all is_space rest)
              (p ∙ ap (λ t. render e ++ t) (passed-left is_space rest)))

Yields-ok {ℓ} : {A : Type ℓ} (P : A → Type 0) (r : Result A) (a : A) → Yields P r → r ≡ ok a → P a
Yields-ok P (ok b) a h e = let same : b ≡ a = cc in subst P same h
Yields-ok P (err x) a h e = cc

Yields-fuel {ℓ} : {A : Type ℓ} (P : A → Type 0) (r : Result A) → Yields P r → r ≢ err out_of_fuel
Yields-fuel P (ok b) h e = cc
Yields-fuel P (err x) h e = h (cc)

-- The parser gives a tree exactly for the texts of the grammar's expressions that denote it, with
-- white space around, and it never runs out of its fuel.
pub parse_iff :
    {F : Type 0} (float : Text → Option F) (s : Text)
    → ((n : Node F) → (parse float s ≡ ok n) ↔ IsText float s n) × (parse float s ≢ err out_of_fuel)
parse_iff float s = (
  λ n. (
    λ h. Yields-ok (IsText float s) (parse float s) n (parse-IsText float s) h,
    λ (e, gap, h, g, p, d). rw (p, d) (parse-render float e gap h g),
  ),
  Yields-fuel (IsText float s) (parse float s) (parse-IsText float s),
)
