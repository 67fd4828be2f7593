-- ===== src/Formula/Grammar.antt =====
-- The language of the formulas, described apart from the parser: concrete expressions with their
-- white space, their text, and the tree that each denotes.
use backend_business_intelli.Prelude.{◌≤◌, ◌≡◌, ◌⊎◌, true, false, Option, some, [], ◌∷◌, ◌++◌}
use backend_business_intelli.Formula.Base.{Text, all, Node, Nodes, nil, cons, is_space}
use backend_business_intelli.Formula.Parser.{
  skip_ws, is_number_start, is_number_char, is_identifier_char, count_dots,
}

-- Each text of an expression stands with the white space before it; `Items` are the arguments of
-- a call, with the white space before the comma or the closing parenthesis.
mutual
  pub data Expr (F : Type 0) : Type 0 where
    number : Text → Text → F → Expr F
    identifier : Text → Text → Expr F
    empty_call : Text → Text → Text → Text → Expr F
    call : Text → Text → Text → Items F → Expr F

  pub data Items (F : Type 0) : Type 0 where
    last : Expr F → Text → Items F
    more : Expr F → Text → Items F → Items F

module _ {F : Type 0} where
  unfoldable mutual
    pub render : Expr F → Text
    render (number gap text v) = gap ++ text
    render (identifier gap name) = gap ++ name
    render (empty_call gap name gap' gap'') = gap ++ (name ++ (gap' ++ b'(' ∷ (gap'' ++ b')' ∷ [])))
    render (call gap name gap' items) = gap ++ (name ++ (gap' ++ b'(' ∷ render_items items))

    pub render_items : Items F → Text
    render_items (last e gap) = render e ++ (gap ++ b')' ∷ [])
    render_items (more e gap items) = render e ++ (gap ++ b',' ∷ render_items items)

  unfoldable mutual
    pub denoted : Expr F → Node F
    denoted (number gap text v) = Node.number v
    denoted (identifier gap name) = Node.identifier name
    denoted (empty_call gap name gap' gap'') = Node.call name nil
    denoted (call gap name gap' items) = Node.call name (denoted_items items)

    pub denoted_items : Items F → Nodes F
    denoted_items (last e gap) = cons (denoted e) nil
    denoted_items (more e gap items) = cons (denoted e) (denoted_items items)

abbrev pub IsGap : Text → Type 0
IsGap gap = all is_space gap ≡ true

-- A sign, then digits with a point at most.
abbrev pub IsNumeral : Text → Type 0
IsNumeral [] = ⊥
IsNumeral (c ∷ s) =
    (((c ≡ b'-') × (all is_number_char s ≡ true)) ⊎ (all is_number_char (c ∷ s) ≡ true))
    × (count_dots (c ∷ s) ≤ 1)

-- Letters, digits, points, underscores and colons, of which no digit and no point comes first.
abbrev pub IsName : Text → Type 0
IsName [] = ⊥
IsName (c ∷ s) = (is_number_start c ≡ false) × (all is_identifier_char (c ∷ s) ≡ true)

module _ {F : Type 0} (float : Text → Option F) where
  abbrev mutual
    pub IsExpr : Expr F → Type 0
    IsExpr (number gap text v) = IsGap gap × IsNumeral text × (float text ≡ some v)
    IsExpr (identifier gap name) = IsGap gap × IsName name
    IsExpr (empty_call gap name gap' gap'') = IsGap gap × IsName name × IsGap gap' × IsGap gap''
    IsExpr (call gap name gap' items) = IsGap gap × IsName name × IsGap gap' × AreItems items

    pub AreItems : Items F → Type 0
    AreItems (last e gap) = IsExpr e × IsGap gap
    AreItems (more e gap items) = IsExpr e × IsGap gap × AreItems items

-- What follows an expression: nothing, a comma or a closing parenthesis, after white space.
abbrev pub Stop : Text → Type 0
Stop [] = Unit
Stop (c ∷ s) = (c ≡ b',') ⊎ (c ≡ b')')

abbrev pub Stops : Text → Type 0
Stops rest = Stop (skip_ws rest)
