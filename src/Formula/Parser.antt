-- ===== src/Formula/Parser.antt =====
-- kpi/application/formula_parser.py: `FormulaParser` and `_ParserState`. The state is the source
-- from `idx` on.
use backend_business_intelli.Prelude.{
  ℕ, zero, suc, ◌+◌, Bool, false, ◌||◌, Option, [], ◌∷◌, leb, ◌==◌, if◌then◌else◌, length,
}
use backend_business_intelli.Formula.Base.{
  Text, Node, Nodes, Result, number, identifier, call, nil, cons, ok, err, ◌>>=◌, or_raise,
  is_space, is_digit, is_alnum, unexpected_token, empty_expression, expected_separator,
  expected_identifier, invalid_number, out_of_fuel,
}

-- `current() == c`
abbrev pub at : ℕ → Text → Bool
at c [] = false
at c (x ∷ s) = x == c

-- `idx += 1`
abbrev pub advance : Text → Text
advance [] = []
advance (x ∷ s) = s

-- The characters that a `while` loop passes, and what is left.
unfoldable pub passed : (ℕ → Bool) → Text → Text
passed p [] = []
passed p (c ∷ s) = let more = c ∷ passed p s in if p c then more else []

unfoldable pub left : (ℕ → Bool) → Text → Text
left p [] = []
left p (c ∷ s) = let more = left p s in if p c then more else c ∷ s

abbrev pub skip_ws : Text → Text
skip_ws = left is_space

unfoldable pub is_number_start : ℕ → Bool
unfolding is_digit
is_number_start c = is_digit c || (c == b'-' || c == b'.')

unfoldable pub is_number_char : ℕ → Bool
unfolding is_digit
is_number_char c = is_digit c || c == b'.'

unfoldable pub is_identifier_char : ℕ → Bool
unfolding is_alnum
is_identifier_char c = is_alnum c || (c == b'.' || (c == b'_' || c == b':'))

abbrev pub count_dots : Text → ℕ
count_dots [] = 0
count_dots (c ∷ s) = (if c == b'.' then 1 else 0) + count_dots s

-- The text of the number at the front, and what is left.
unfoldable pub raw_number : Text → Text
raw_number [] = []
raw_number (c ∷ s) =
    if c == b'-' then c ∷ passed is_number_char s else passed is_number_char (c ∷ s)

unfoldable pub after_number : Text → Text
after_number [] = []
after_number (c ∷ s) = if c == b'-' then left is_number_char s else left is_number_char (c ∷ s)

unfoldable pub parse_identifier : Text → Result (Text × Text)
parse_identifier s = elim (passed is_identifier_char s) [
  | [] ↦ err expected_identifier
  | c ∷ name ↦ ok (c ∷ name, left is_identifier_char s)
]

-- `float` of a text is a parameter: `none` is its ValueError.
module _ {F : Type 0} (float : Text → Option F) where
  unfoldable pub parse_number : Text → Result (Node F × Text)
  parse_number s =
      if leb (count_dots (raw_number s)) 1
      then (or_raise (float (raw_number s)) invalid_number >>= λ v. ok (number v, after_number s))
      else err invalid_number

  -- What follows an identifier: its arguments, if a parenthesis opens.
  unfoldable pub parse_call :
      (Text → Result (Nodes F × Text)) → Text → Text → Result (Node F × Text)
  parse_call args_at name t =
      if at b'(' t
      then (if at b')' (skip_ws (advance t))
          then ok (call name nil, advance (skip_ws (advance t)))
          else (args_at (skip_ws (advance t)) >>= λ (args, u). ok (call name args, u)))
      else ok (identifier name, t)

  unfoldable pub parse_start : (Text → Result (Nodes F × Text)) → Text → Result (Node F × Text)
  unfolding parse_call parse_number
  parse_start args_at [] = err empty_expression
  parse_start args_at (c ∷ s) =
      if is_number_start c
      then parse_number (c ∷ s)
      else (parse_identifier (c ∷ s) >>= λ (name, t). parse_call args_at name (skip_ws t))

  -- One round of the `while True` loop over the arguments, after the argument.
  unfoldable pub parse_next :
      (Text → Result (Nodes F × Text)) → Node F → Text → Result (Nodes F × Text)
  parse_next args_at arg t =
      if at b',' t
      then (args_at (skip_ws (advance t)) >>= λ (args, u). ok (cons arg args, u))
      else (if at b')' t then ok (cons arg nil, advance t) else err expected_separator)

  -- The fuel falls at each call; `parse` hands out enough.
  unfoldable mutual
    unfolding parse_start parse_next

    pub parse_expression : ℕ → Text → Result (Node F × Text)
    parse_expression zero s = err out_of_fuel
    parse_expression (suc f) s = parse_start (parse_args f) (skip_ws s)

    pub parse_args : ℕ → Text → Result (Nodes F × Text)
    parse_args zero s = err out_of_fuel
    parse_args (suc f) s =
        parse_expression f s >>= λ (arg, t). parse_next (parse_args f) arg (skip_ws t)

  -- `if not parser.is_eof(): raise`
  unfoldable pub finish : Node F → Text → Result (Node F)
  finish node [] = ok node
  finish node (_ ∷ _) = err unexpected_token

  unfoldable pub parse : Text → Result (Node F)
  unfolding parse_expression parse_args finish left passed parse_identifier raw_number after_number
      is_space is_number_start is_number_char is_identifier_char
  parse s = parse_expression (suc (length s)) s >>= λ (node, t). finish node (skip_ws t)
