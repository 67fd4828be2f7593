-- ===== src/Formula/Base.antt =====
-- The trees of kpi/application/formula_parser.py, texts as lists of code points, and the errors of
-- kpi/domain/formula_engine_errors.py.
use Prim.Native.Char.{code}
use backend_business_intelli.Prelude.{
  ℕ, String, Bool, true, false, ◌&&◌, ◌||◌, Option, none, some, List, [], ◌∷◌, leb, ◌==◌,
}

abbrev pub Text : Type 0
Text = List ℕ

abbrev pub codes : String → Text
codes String.[] = []
codes (String.◌∷◌ c s) = code c ∷ codes s

abbrev pub text_eq : Text → Text → Bool
text_eq [] [] = true
text_eq (a ∷ s) (b ∷ t) = a == b && text_eq s t
text_eq _ _ = false

abbrev pub all : (ℕ → Bool) → Text → Bool
all p [] = true
all p (c ∷ s) = p c && all p s

-- `str.isspace`, `str.isdigit` and `str.isalnum` of an ASCII character.
unfoldable pub is_space : ℕ → Bool
is_space c = (leb 9 c && leb c 13) || (leb 28 c && leb c 32)

unfoldable pub is_digit : ℕ → Bool
is_digit c = leb b'0' c && leb c b'9'

unfoldable pub is_alnum : ℕ → Bool
unfolding is_digit
is_alnum c = is_digit c || ((leb b'a' c && leb c b'z') || (leb b'A' c && leb c b'Z'))

-- `NumberNode`, `IdentifierNode` and `CallNode`, over the type of the floats.
mutual
  pub data Node (F : Type 0) : Type 0 where
    number : F → Node F
    identifier : Text → Node F
    call : Text → Nodes F → Node F

  pub data Nodes (F : Type 0) : Type 0 where
    nil : Nodes F
    cons : Node F → Nodes F → Nodes F

-- What the engine raises, a constructor for each message of a FormulaEngineError. The line
-- before the last holds Python's own exceptions, `rounding_error` for the two that `round` raises;
-- `out_of_fuel` has no counterpart in the code.
pub data FormulaError : Type 0 where
  unexpected_token empty_expression expected_separator expected_identifier : FormulaError
  invalid_number : FormulaError
  unknown_metric undeclared_identifier function_not_allowed : Text → FormulaError
  missing_metric unsupported_function : Text → FormulaError
  list_as_scalar division_by_zero weighted_avg_arity weighted_avg_lists : FormulaError
  weighted_avg_sizes weighted_avg_total if_arity clamp_arity clamp_order : FormulaError
  not_numeric cyclic_dependency : FormulaError
  missing_formula : Text → FormulaError
  index_error type_error value_error rounding_error : FormulaError
  out_of_fuel : FormulaError

pub data Result {ℓ} (A : Type ℓ) : Type ℓ where
  ok : A → Result A
  err : FormulaError → Result A

infixl 5 ◌>>=◌ ◌>>◌
abbrev pub ◌>>=◌ {ℓ κ} : {A : Type ℓ} {B : Type κ} → Result A → (A → Result B) → Result B
ok a >>= f = f a
err e >>= f = err e

abbrev pub ◌>>◌ {ℓ κ} : {A : Type ℓ} {B : Type κ} → Result A → Result B → Result B
m >> k = m >>= λ _. k

-- A result that may be missing, as an exception.
abbrev pub or_raise {ℓ} : {A : Type ℓ} → Option A → FormulaError → Result A
or_raise none e = err e
or_raise (some a) e = ok a
