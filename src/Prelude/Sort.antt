-- ===== src/Prelude/Sort.antt =====
-- Insertion into a list in order, and sorting by it: what an SQL `ORDER BY` returns, rows that
-- compare equal in table order.
use backend_business_intelli.Prelude.{
  ◌≤◌, length, ℕ, suc, ◌+◌, ◌≡◌, refl, Bool, true, false, List, [], ◌∷◌, ◌++◌, arith, if◌then◌else◌,
}

module _ {A : Type 0} (before : A → A → Bool) where
  -- `x` goes in front of the first element that it is strictly before.
  unfoldable pub insert_row : A → List A → List A
  insert_row x [] = x ∷ []
  insert_row x (y ∷ ys) = if before x y then x ∷ y ∷ ys else y ∷ insert_row x ys

  unfoldable pub insert_all : List A → List A → List A
  unfolding insert_row
  insert_all [] acc = acc
  insert_all (x ∷ xs) acc = insert_all xs (insert_row x acc)

  unfoldable pub order_by : List A → List A
  unfolding insert_all
  order_by xs = insert_all xs []

  -- No element is strictly before its predecessor.
  abbrev pub IsOrdered : List A → Type 0
  IsOrdered [] = Unit
  IsOrdered (x ∷ []) = Unit
  IsOrdered (x ∷ y ∷ ys) = (before y x ≡ false) × IsOrdered (y ∷ ys)

abbrev pub where_row {ℓ} : {A : Type ℓ} → (A → Bool) → List A → List A
where_row p [] = []
where_row p (x ∷ xs) = if p x then x ∷ where_row p xs else where_row p xs

abbrev pub count_row {ℓ} : {A : Type ℓ} → (A → Bool) → List A → ℕ
count_row p [] = 0
count_row p (x ∷ xs) = (if p x then 1 else 0) + count_row p xs

abbrev pub limit_to {ℓ} : {A : Type ℓ} → ℕ → List A → List A
limit_to ℕ.zero xs = []
limit_to (suc n) [] = []
limit_to (suc n) (x ∷ xs) = x ∷ limit_to n xs

module _ {A : Type 0} (before : A → A → Bool) (p : A → Bool) where
  count_row-insert_row :
      (x : A) (ys : List A)
      → count_row p (insert_row before x ys) ≡ (if p x then 1 else 0) + count_row p ys
  unfolding insert_row
  count_row-insert_row x [] = refl
  count_row-insert_row x (y ∷ ys) = ground (arith, count_row-insert_row x ys)

  count_row-insert_all :
      (xs acc : List A) → count_row p (insert_all before xs acc) ≡ count_row p xs + count_row p acc
  unfolding insert_all
  count_row-insert_all [] acc = omega arith
  count_row-insert_all (x ∷ xs) acc =
      omega (arith, count_row-insert_all xs (insert_row before x acc), count_row-insert_row x acc)

  -- Sorting keeps how often each kind of row stands in the list.
  pub count_row-order_by : (xs : List A) → count_row p (order_by before xs) ≡ count_row p xs
  unfolding order_by
  count_row-order_by xs = omega (arith, count_row-insert_all xs [])

module _ {A : Type 0} (before : A → A → Bool)
    (asymmetric : (x y : A) → before x y ≡ true → before y x ≡ false) where
  insert_row-IsOrdered :
      (x : A) (ys : List A) → IsOrdered before ys → IsOrdered before (insert_row before x ys)
  unfolding insert_row
  insert_row-IsOrdered x [] o = tt
  insert_row-IsOrdered x (y ∷ []) o = ground (arith, asymmetric x y)
  insert_row-IsOrdered x (y ∷ z ∷ zs) o =
      ground (arith, asymmetric x y, asymmetric x z, insert_row-IsOrdered x (z ∷ zs) o.1)

  insert_all-IsOrdered :
      (xs acc : List A) → IsOrdered before acc → IsOrdered before (insert_all before xs acc)
  unfolding insert_all
  insert_all-IsOrdered [] acc o = o
  insert_all-IsOrdered (x ∷ xs) acc o =
      insert_all-IsOrdered xs (insert_row before x acc) (insert_row-IsOrdered x acc o)

  pub order_by-IsOrdered : (xs : List A) → IsOrdered before (order_by before xs)
  unfolding order_by
  order_by-IsOrdered xs = insert_all-IsOrdered xs [] tt

pub count_row-append {ℓ} :
    {A : Type ℓ} (p : A → Bool) (xs ys : List A)
    → count_row p (xs ++ ys) ≡ count_row p xs + count_row p ys
count_row-append p [] ys = omega arith
count_row-append p (x ∷ xs) ys = omega (arith, count_row-append p xs ys)

pub count_row-le {ℓ} : {A : Type ℓ} (p : A → Bool) (xs : List A) → count_row p xs ≤ length xs
count_row-le p [] = omega arith
count_row-le p (x ∷ xs) = ground (arith, count_row-le p xs)

module _ {A : Type 0} (q p : A → Bool) where
  -- A selection keeps the elements that it wants, drops the others, and adds none.
  pub where_row_wanted :
      (xs : List A)
      → ((x : A) → p x ≡ true → q x ≡ true)
      → count_row p (where_row q xs) ≡ count_row p xs
  where_row_wanted [] h = refl
  where_row_wanted (x ∷ xs) h = ground (arith, h x, where_row_wanted xs h)

  pub where_row_unwanted :
      (xs : List A) → ((x : A) → p x ≡ true → q x ≡ false) → count_row p (where_row q xs) ≡ 0
  where_row_unwanted [] h = refl
  where_row_unwanted (x ∷ xs) h = ground (arith, h x, where_row_unwanted xs h)

  pub where_row_fewer : (xs : List A) → count_row p (where_row q xs) ≤ count_row p xs
  where_row_fewer [] = omega arith
  where_row_fewer (x ∷ xs) = ground (arith, where_row_fewer xs)
