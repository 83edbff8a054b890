-- ===== src/Base/Rows.antt =====
-- A database table as a list of rows, the newest first: queries by a Boolean test, and the change of
-- the row that a query returned (an ORM object that is assigned to).
use Prim.Native.Nat.{ℕ, ◌+◌, ◌≤◌}
use mathlib.Core.Path.{◌≡◌, refl}
use mathlib.Core.Bool.{Bool, true, false}
use mathlib.Core.Option.{Option, none, some}
use mathlib.Core.List.{List, [], ◌∷◌}
use native.Mathlib.Omega.{arith}
use api_kitchen.Base.Tests.{if◌then◌else◌, bit}

module _ {ℓ} {A : Type ℓ} where
  -- `session.scalar(select(...).where(p))` and `session.get`.
  abbrev pub find_row : (A → Bool) → List A → Option A
  find_row p [] = none
  find_row p (x ∷ xs) = if p x then some x else find_row p xs

  -- An assignment to the fields of the row that `find_row p` returns.
  abbrev pub change_row : (A → Bool) → (A → A) → List A → List A
  change_row p f [] = []
  change_row p f (x ∷ xs) = if p x then f x ∷ xs else x ∷ change_row p f xs

  -- `update(...).where(p)`, and a loop that assigns to each row of a query.
  abbrev pub change_rows : (A → Bool) → (A → A) → List A → List A
  change_rows p f [] = []
  change_rows p f (x ∷ xs) = (if p x then f x else x) ∷ change_rows p f xs

  -- `select(...).where(p)`.
  abbrev pub select_rows : (A → Bool) → List A → List A
  select_rows p [] = []
  select_rows p (x ∷ xs) = if p x then x ∷ select_rows p xs else select_rows p xs

  -- `select(func.count()).where(p)`.
  abbrev pub count_rows : (A → Bool) → List A → ℕ
  count_rows p [] = 0
  count_rows p (x ∷ xs) = bit (p x) + count_rows p xs

  -- `select(func.coalesce(func.sum(w), 0)).where(p)`.
  abbrev pub sum_rows : (A → Bool) → (A → ℕ) → List A → ℕ
  sum_rows p w [] = 0
  sum_rows p w (x ∷ xs) = (if p x then w x else 0) + sum_rows p w xs

  abbrev pub all_rows : (A → Bool) → List A → Bool
  all_rows p [] = true
  all_rows p (x ∷ xs) = if p x then all_rows p xs else false

  abbrev pub All {κ} : (A → Type κ) → List A → Type κ
  All P [] = Unit
  All P (x ∷ xs) = P x × All P xs

module _ {ℓ} {A : Type ℓ} (p : A → Bool) where
  -- The row that a query returns passes its test.
  pub find_row_test : (xs : List A) (r : A) → find_row p xs ≡ some r → p r ≡ true
  find_row_test [] r e = cc
  find_row_test (x ∷ xs) r e = ground (arith, find_row_test xs r)

  -- A count of zero says that the query finds nothing.
  pub find_row-count_zero : (xs : List A) → count_rows p xs ≡ 0 → find_row p xs ≡ none
  find_row-count_zero [] e = refl
  find_row-count_zero (x ∷ xs) e = ground (arith, find_row-count_zero xs)

  pub count-find_row-none : (xs : List A) → find_row p xs ≡ none → count_rows p xs ≡ 0
  count-find_row-none [] e = refl
  count-find_row-none (x ∷ xs) e = ground (arith, count-find_row-none xs)

  pub count-find_row-some : (xs : List A) (r : A) → find_row p xs ≡ some r → 1 ≤ count_rows p xs
  count-find_row-some [] r e = cc
  count-find_row-some (x ∷ xs) r e = ground (arith, count-find_row-some xs r)

  -- A row that is found counts in every count that it passes the test of.
  pub count_found :
      (q : A → Bool) (xs : List A) (r : A)
      → find_row p xs ≡ some r
      → q r ≡ true
      → 1 ≤ count_rows q xs
  count_found q [] r e h = absurd (cc)
  count_found q (x ∷ xs) r e h = ground (arith, count_found q xs r)

  -- A changed row leaves a count as it was, but for that row.
  pub count-change_row :
      (q : A → Bool) (f : A → A) (xs : List A) (r : A)
      → find_row p xs ≡ some r
      → count_rows q (change_row p f xs) + bit (q r) ≡ count_rows q xs + bit (q (f r))
  count-change_row q f [] r e = cc
  count-change_row q f (x ∷ xs) r e = ground (arith, count-change_row q f xs r)

  pub find-change_row :
      (f : A → A) (xs : List A) (r : A)
      → find_row p xs ≡ some r
      → p (f r) ≡ true
      → find_row p (change_row p f xs) ≡ some (f r)
  find-change_row f [] r e h = cc
  find-change_row f (x ∷ xs) r e h = ground (arith, find-change_row f xs r)

  -- A query that tells neither the old row nor the new one apart from the others it skips.
  pub find-change_row_other :
      (q : A → Bool) (f : A → A) (xs : List A)
      → ((x : A) → p x ≡ true → (q x ≡ false) × (q (f x) ≡ false))
      → find_row q (change_row p f xs) ≡ find_row q xs
  find-change_row_other q f [] h = refl
  find-change_row_other q f (x ∷ xs) h = ground (arith, h x, find-change_row_other q f xs h)

  pub All-change_row {κ} :
      (P : A → Type κ) (f : A → A) (xs : List A)
      → ((x : A) → p x ≡ true → P x → P (f x))
      → All P xs
      → All P (change_row p f xs)
  All-change_row P f [] h a = a
  All-change_row P f (x ∷ xs) h a = ground (arith, h x, All-change_row P f xs h a.1)

  pub All-find_row {κ} :
      (P : A → Type κ) (xs : List A) (r : A) → All P xs → find_row p xs ≡ some r → P r
  All-find_row P [] r a e = absurd (cc)
  All-find_row P (x ∷ xs) r a e = ground (arith, All-find_row P xs r a.1)

-- A stronger test finds the row that the weaker one finds, where the weaker one has one row at most.
module _ {ℓ} {A : Type ℓ} (p q : A → Bool) (stronger : (x : A) → p x ≡ true → q x ≡ true) where
  pub find_weaker :
      (xs : List A) (r : A) → count_rows q xs ≤ 1 → find_row p xs ≡ some r → find_row q xs ≡ some r
  find_weaker [] r one e = cc
  find_weaker (x ∷ xs) r one e =
      ground (
        arith,
        stronger x,
        stronger r,
        find_weaker xs r,
        find_row_test p xs r,
        count_found p q xs r,
      )

  pub change_weaker :
      (f : A → A) (xs : List A) (r : A)
      → count_rows q xs ≤ 1
      → find_row p xs ≡ some r
      → change_row p f xs ≡ change_row q f xs
  change_weaker f [] r one e = refl
  change_weaker f (x ∷ xs) r one e = ground (
    arith,
    stronger x,
    stronger r,
    change_weaker f xs r,
    find_row_test p xs r,
    count_found p q xs r,
  )
