-- ===== src/Formula/RoundTrip/Words.antt =====
-- The words of an expression, read by the loops of the parser.
use mathlib.Core.List.{append_assoc}
use backend_business_intelli.Prelude.{
  ℕ, zero, suc, ◌≤◌, ◌<◌, ◌+◌, ◌≡◌, ◌⊎◌, refl, ap, ◌∙◌, Bool, true, false, Option, some, List, [],
  ◌∷◌, ◌++◌, arith, length, length-append, Bool-cases, inl, inr, le→leb, ◌==◌, if◌then◌else◌, leb,
}
use backend_business_intelli.Formula.Base.{
  Text, Node, Nodes, Result, ok, ◌>>=◌, nil, is_space, is_digit, is_alnum,
}
use backend_business_intelli.Formula.Parser.{
  at, left, skip_ws, is_number_start, is_number_char, is_identifier_char, raw_number, after_number,
  parse_identifier, parse_number, parse_call, parse_start, parse_expression, parse_args,
}
use backend_business_intelli.Formula.Scan.{
  Ends, passed-append, left-append, left-Ends_eq, left-left,
}
use backend_business_intelli.Formula.Grammar.{
  Expr, Items, number, identifier, empty_call, call, last, more, render, render_items, IsGap,
  IsNumeral, IsName, IsExpr, AreItems, Stops,
}

pub length-append_text : (s t : Text) → length (s ++ t) ≡ length s + length t
length-append_text = length-append

pub ruleset lengths = (arith, length-append_text)

-- The stop characters are of no class.
pub space_class :
    (c : ℕ)
    → is_space c ≡ true
    → (is_number_char c ≡ false) × (is_identifier_char c ≡ false) × (is_number_start c ≡ false)
unfolding is_space is_number_char is_identifier_char is_number_start is_digit is_alnum
space_class c h = ground arith

pub Stops-Ends :
    (rest : Text) → Stops rest → Ends is_number_char rest × Ends is_identifier_char rest
unfolding left is_space is_number_char is_identifier_char is_digit is_alnum
Stops-Ends [] h = (tt, tt)
Stops-Ends (c ∷ rest) h = ground arith

-- An opening parenthesis ends a name, after white space.
pub gap-Ends : (gap s : Text) → IsGap gap → Ends is_identifier_char (gap ++ b'(' ∷ s)
unfolding is_space is_identifier_char is_digit is_alnum
gap-Ends [] s h = ground arith
gap-Ends (c ∷ gap) s h = ground arith

-- White space before a character that is none.
pub skip_gap :
    (gap : Text) (c : ℕ) (s : Text)
    → IsGap gap
    → is_space c ≡ false
    → skip_ws (gap ++ c ∷ s) ≡ c ∷ s
skip_gap gap c s h e = left-append is_space gap (c ∷ s) h ∙ left-Ends_eq is_space (c ∷ s) e

pub numeral_split :
    (text rest : Text)
    → IsNumeral text
    → Ends is_number_char rest
    → (raw_number (text ++ rest) ≡ text) × (after_number (text ++ rest) ≡ rest)
unfolding raw_number after_number
numeral_split [] rest n e = elim n [ ]
numeral_split (c ∷ s) rest (inl (m, a), d) e = (
  rw m (ap (λ t. b'-' ∷ t) (passed-append is_number_char s rest a e)),
  rw m (left-append is_number_char s rest a ∙ left-Ends_eq is_number_char rest e),
)
numeral_split (c ∷ s) rest (inr a, d) e =
    let sign : (c == b'-') ≡ false = unfold is_number_char is_digit in ground arith in
    (
      rw sign (passed-append is_number_char (c ∷ s) rest a e),
      rw sign (left-append is_number_char (c ∷ s) rest a ∙ left-Ends_eq is_number_char rest e),
    )

pub numeral_start :
    (c : ℕ) (s : Text) → IsNumeral (c ∷ s) → (is_number_start c ≡ true) × (is_space c ≡ false)
unfolding is_number_start is_number_char is_digit is_space
numeral_start c s n = ground arith

pub name_start :
    (c : ℕ) (s : Text)
    → IsName (c ∷ s)
    → (is_number_start c ≡ false) × (is_space c ≡ false) × (c == b')' ≡ false)
unfolding is_identifier_char is_alnum is_digit is_space
name_start c s n = ground arith

pub parse_identifier-name :
    (name rest : Text)
    → IsName name
    → Ends is_identifier_char rest
    → parse_identifier (name ++ rest) ≡ ok (name, rest)
unfolding parse_identifier
parse_identifier-name [] rest n e = elim n [ ]
parse_identifier-name (c ∷ s) rest n e =
    rw
      (
        parse_identifier,
        passed-append is_identifier_char (c ∷ s) rest n.1 e,
        left-append is_identifier_char (c ∷ s) rest n.1,
        left-Ends_eq is_identifier_char rest e,
      )
      refl

module _ {F : Type 0} (float : Text → Option F) where
  pub parse_numeral :
      (gap text rest : Text) (v : F) (f : ℕ)
      → IsGap gap
      → IsNumeral text
      → float text ≡ some v
      → Ends is_number_char rest
      → parse_expression float (suc f) (gap ++ (text ++ rest)) ≡ ok (Node.number v, rest)
  unfolding parse_expression parse_start parse_number
  parse_numeral gap [] rest v f g n e h = elim n [ ]
  parse_numeral gap (c ∷ s) rest v f g n e h =
      let (start, space) = numeral_start c s n in
      let (raw, after) = numeral_split (c ∷ s) rest n h in
      let (_, dots) = n in
      rw (skip_gap gap c (s ++ rest) g space, start, raw, after, le→leb _ 1 dots, e) refl

  pub parse_name :
      (gap name rest : Text) (f : ℕ)
      → IsGap gap
      → IsName name
      → Ends is_identifier_char rest
      → parse_expression float (suc f) (gap ++ (name ++ rest))
        ≡ parse_call float (parse_args float f) name (skip_ws rest)
  unfolding parse_expression parse_start
  parse_name gap [] rest f g n h = elim n [ ]
  parse_name gap (c ∷ s) rest f g n h =
      let (start, space, _) = name_start c s n in
      rw (skip_gap gap c (s ++ rest) g space, start, parse_identifier-name (c ∷ s) rest n h) refl

  pub parse_expression-skip_ws :
      (f : ℕ) (s : Text) → parse_expression float f (skip_ws s) ≡ parse_expression float f s
  unfolding parse_expression
  parse_expression-skip_ws zero s = refl
  parse_expression-skip_ws (suc f) s = rw (left-left is_space s)

  pub parse_args-skip_ws :
      (f : ℕ) (s : Text) → parse_args float f (skip_ws s) ≡ parse_args float f s
  unfolding parse_args
  parse_args-skip_ws zero s = refl
  parse_args-skip_ws (suc f) s = rw (parse_expression-skip_ws f s) refl

  -- A name and its parenthesis, before the arguments.
  pub parse_open :
      (gap name gap' s rest : Text) (f : ℕ)
      → IsGap gap
      → IsName name
      → IsGap gap'
      → parse_expression float (suc f) ((gap ++ (name ++ (gap' ++ b'(' ∷ s))) ++ rest)
        ≡ parse_call float (parse_args float f) name (b'(' ∷ (s ++ rest))
  parse_open gap name gap' s rest f g n g' =
      let grouped : (gap ++ (name ++ (gap' ++ b'(' ∷ s))) ++ rest
          ≡ gap ++ (name ++ (gap' ++ b'(' ∷ (s ++ rest))) =
        simp append_assoc in
      rw
        (
          grouped,
          parse_name gap name (gap' ++ b'(' ∷ (s ++ rest)) f g n (gap-Ends gap' (s ++ rest) g'),
          skip_gap gap' b'(' (s ++ rest) g' (unfold is_space in refl),
        )
        refl

  pub call_closed :
      (args_at : Text → Result (Nodes F × Text)) (name gap rest : Text)
      → IsGap gap
      → parse_call float args_at name (b'(' ∷ (gap ++ b')' ∷ rest)) ≡ ok (Node.call name nil, rest)
  unfolding parse_call
  call_closed args_at name gap rest g = rw (skip_gap gap b')' rest g (unfold is_space in refl)) refl

  pub call_open :
      (args_at : Text → Result (Nodes F × Text)) (name s : Text)
      → at b')' (skip_ws s) ≡ false
      → parse_call float args_at name (b'(' ∷ s)
        ≡ (args_at (skip_ws s) >>= λ (args, u). ok (Node.call name args, u))
  unfolding parse_call
  call_open args_at name s h = rw h

  -- Neither a numeral nor a name is a closing parenthesis.
  pub word_open :
      (gap word rest : Text)
      → IsGap gap
      → IsNumeral word ⊎ IsName word
      → at b')' (skip_ws (gap ++ (word ++ rest))) ≡ false
  unfolding is_number_char is_digit
  word_open gap [] rest g (inl n) = elim n [ ]
  word_open gap [] rest g (inr n) = elim n [ ]
  word_open gap (c ∷ s) rest g (inl n) =
      rw (skip_gap gap c (s ++ rest) g (numeral_start c s n).1) (ground arith)
  word_open gap (c ∷ s) rest g (inr n) =
      let (_, space, close) = name_start c s n in rw (skip_gap gap c (s ++ rest) g space) close

  pub expr_open :
      (e : Expr F) (rest : Text) → IsExpr float e → at b')' (skip_ws (render e ++ rest)) ≡ false
  unfolding render
  expr_open (number gap text v) rest (g, n, _) = rw append_assoc (word_open gap text rest g (inl n))
  expr_open (identifier gap name) rest (g, n) = rw append_assoc (word_open gap name rest g (inr n))
  expr_open (empty_call gap name gap' gap'') rest (g, n, _, _) =
      rw (append_assoc, append_assoc) (word_open gap name _ g (inr n))
  expr_open (call gap name gap' items) rest (g, n, _, _) =
      rw (append_assoc, append_assoc) (word_open gap name _ g (inr n))

  pub items_open :
      (items : Items F) (rest : Text)
      → AreItems float items
      → at b')' (skip_ws (render_items items ++ rest)) ≡ false
  unfolding render
  items_open (last e gap) rest (h, g) = rw append_assoc (expr_open e _ h)
  items_open (more e gap items) rest (h, g, _) = rw append_assoc (expr_open e _ h)
