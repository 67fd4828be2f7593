-- ===== src/Formula/RoundTrip.antt =====
-- Every expression of the grammar parses to the tree that it denotes.
pub mod Words
use mathlib.Core.List.{append_assoc}
use backend_business_intelli.Prelude.{
  ℕ, zero, suc, ◌≤◌, ◌<◌, ◌+◌, ◌≡◌, ◌⊎◌, refl, ap, ◌∙◌, Bool, true, false, Option, some, List, [],
  ◌∷◌, ◌++◌, arith, length, length-append, Bool-cases, inl, inr, le→leb, ◌==◌, if◌then◌else◌, leb,
}
use backend_business_intelli.Formula.Base.{
  Text, Node, Nodes, Result, ok, ◌>>=◌, nil, is_space, is_digit, is_alnum,
}
use backend_business_intelli.Formula.Parser.{
  at, left, skip_ws, is_number_start, is_number_char, is_identifier_char, raw_number, after_number,
  parse_identifier, parse_number, parse_call, parse_start, parse_next, parse_expression, parse_args,
  finish, parse,
}
use backend_business_intelli.Formula.Scan.{
  Ends, passed-append, left-append, left-Ends_eq, left-left, left-all,
}
use backend_business_intelli.Formula.Grammar.{
  Expr, Items, number, identifier, empty_call, call, last, more, render, render_items, denoted,
  denoted_items, IsGap, IsNumeral, IsName, IsExpr, AreItems, Stop, Stops,
}
use Words.{
  length-append_text, lengths, space_class, Stops-Ends, gap-Ends, skip_gap, numeral_split,
  numeral_start, name_start, parse_identifier-name, parse_numeral, parse_name,
  parse_expression-skip_ws, parse_args-skip_ws, parse_open, call_closed, call_open, word_open,
  expr_open, items_open,
}

module _ {F : Type 0} (float : Text → Option F) where
  -- What the parser leaves of the text that follows an expression.
  abbrev pub settle : Expr F → Text → Text
  settle (identifier gap name) rest = skip_ws rest
  settle _ rest = rest

  pub skip_ws-settle : (e : Expr F) (rest : Text) → skip_ws (settle e rest) ≡ skip_ws rest
  skip_ws-settle (identifier gap name) rest = left-left is_space rest
  skip_ws-settle (number gap text v) rest = refl
  skip_ws-settle (empty_call gap name gap' gap'') rest = refl
  skip_ws-settle (call gap name gap' items) rest = refl

  -- A gap and a character after an expression are found again.
  settled :
      (e : Expr F) (gap : Text) (c : ℕ) (s : Text)
      → IsGap gap
      → is_space c ≡ false
      → skip_ws (settle e (gap ++ c ∷ s)) ≡ c ∷ s
  settled e gap c s g h = skip_ws-settle e (gap ++ c ∷ s) ∙ skip_gap gap c s g h

  Stop-not_call :
      (args_at : Text → Result (Nodes F × Text)) (name t : Text)
      → Stop t
      → parse_call float args_at name t ≡ ok (Node.identifier name, t)
  unfolding parse_call
  Stop-not_call args_at name [] st = refl
  Stop-not_call args_at name (c ∷ t) st = ground arith

  Reads : Expr F → Type 0
  Reads e =
      (rest : Text) (f : ℕ)
      → IsExpr float e
      → Stops rest
      → length (render e) < f
      → parse_expression float f (render e ++ rest) ≡ ok (denoted e, settle e rest)

  ReadsItems : Items F → Type 0
  ReadsItems items =
      (rest : Text) (f : ℕ)
      → AreItems float items
      → length (render_items items) < f
      → parse_args float f (render_items items ++ rest) ≡ ok (denoted_items items, rest)

  -- After an argument: the end of the list, or the next one.
  args_last :
      (e : Expr F) (gap rest : Text) (f : ℕ)
      → IsGap gap
      → ((t : Text)
          → Stops t
          → parse_expression float f (render e ++ t) ≡ ok (denoted e, settle e t))
      → parse_args float (suc f) (render_items (last e gap) ++ rest)
        ≡ ok (denoted_items (last e gap), rest)
  unfolding parse_args parse_next render denoted
  args_last e gap rest f g ih =
      let stops : Stops (gap ++ b')' ∷ rest) =
        rw (skip_gap gap b')' rest g (unfold is_space in refl)) (inr refl) in
      let grouped : (render e ++ (gap ++ b')' ∷ [])) ++ rest ≡ render e ++ (gap ++ b')' ∷ rest) =
        simp append_assoc in
      rw (grouped, ih _ stops, settled e gap b')' rest g (unfold is_space in refl)) refl

  args_more :
      (e : Expr F) (gap rest : Text) (items : Items F) (f : ℕ)
      → IsGap gap
      → ((t : Text)
          → Stops t
          → parse_expression float f (render e ++ t) ≡ ok (denoted e, settle e t))
      → parse_args float f (render_items items ++ rest) ≡ ok (denoted_items items, rest)
      → parse_args float (suc f) (render_items (more e gap items) ++ rest)
        ≡ ok (denoted_items (more e gap items), rest)
  unfolding parse_args parse_next render denoted
  args_more e gap rest items f g ih ihs =
      let s = render_items items ++ rest in
      let stops : Stops (gap ++ b',' ∷ s) =
        rw (skip_gap gap b',' s g (unfold is_space in refl)) (inl refl) in
      let grouped : (render e ++ (gap ++ b',' ∷ render_items items)) ++ rest
          ≡ render e ++ (gap ++ b',' ∷ s) =
        simp append_assoc in
      rw
        (
          grouped,
          ih _ stops,
          settled e gap b',' s g (unfold is_space in refl),
          parse_args-skip_ws float f s,
          ihs,
        )
        refl

  mutual
    unfolding render denoted Reads ReadsItems

    expr-Reads : (e : Expr F) → Reads e
    expr-Reads e rest zero h st l = elim l [ ]
    expr-Reads (number gap text v) rest (suc f) (g, n, e) st l =
        rw append_assoc (parse_numeral float gap text rest v f g n e (Stops-Ends rest st).0)
    expr-Reads (identifier gap name) rest (suc f) (g, n) st l =
        rw append_assoc
          (parse_name float gap name rest f g n (Stops-Ends rest st).1 ∙ Stop-not_call _ name _ st)
    expr-Reads (empty_call gap name gap' gap'') rest (suc f) (g, n, g', g'') st l =
        parse_open float gap name gap' (gap'' ++ b')' ∷ []) rest f g n g'
        ∙ rw append_assoc (call_closed float _ name gap'' rest g'')
    expr-Reads (call gap name gap' items) rest (suc f) (g, n, g', i) st l =
        parse_open float gap name gap' (render_items items) rest f g n g'
        ∙ call_open float _ name (render_items items ++ rest) (items_open float items rest i)
        ∙ rw
            (
              parse_args-skip_ws float f (render_items items ++ rest),
              items-Reads items rest f i (omega lengths),
            )
            refl

    items-Reads : (items : Items F) → ReadsItems items
    items-Reads items rest zero h l = elim l [ ]
    items-Reads (last e gap) rest (suc f) (h, g) l =
        args_last e gap rest f g (λ t st. expr-Reads e t f h st (omega lengths))
    items-Reads (more e gap items) rest (suc f) (h, g, i) l =
        args_more e gap rest items f g (λ t st. expr-Reads e t f h st (omega lengths))
          (items-Reads items rest f i (omega lengths))

-- The text of an expression, with white space after it, parses to the tree that the expression
-- denotes.
pub parse-render :
    {F : Type 0} (float : Text → Option F) (e : Expr F) (gap : Text)
    → IsExpr float e
    → IsGap gap
    → parse float (render e ++ gap) ≡ ok (denoted e)
unfolding parse Reads
parse-render float e gap h g =
    let blank : skip_ws gap ≡ [] = left-all is_space gap g in
    rw
      (
        expr-Reads float e gap (suc (length (render e ++ gap))) h (rw blank tt) (omega lengths),
        skip_ws-settle float e gap,
        blank,
      )
      (unfold finish in refl)
