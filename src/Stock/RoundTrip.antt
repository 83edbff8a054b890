-- ===== src/Stock/RoundTrip.antt =====
-- What an order takes from the stock, and that its cancellation gives back the same.
use api_kitchen.Base.{
  ℕ, ◌==◌, if◌then◌else◌, find_row, change_row, ◌≡◌, refl, ap, ◌∙◌, Option, none, some, List, [],
  ◌∷◌, arith,
}
use api_kitchen.Base.Int.{ℤ, pos, ◌+ℤ◌, negate, int_laws}
use api_kitchen.Store.{Store}
use api_kitchen.Stock.Tables.{Ingredient, MoveReason, for_order, for_cancel}
use api_kitchen.Stock.Movements.{is_ingredient, required, add_qty, move, take_all, give_all}

-- The movements as one change of the table of ingredients.
abbrev pub shift : (ℤ → ℤ) → List (ℕ × ℤ) → List Ingredient → List Ingredient
shift sign [] rows = rows
shift sign ((key, delta) ∷ ds) rows =
    shift sign ds (change_row (is_ingredient key) (add_qty (sign delta)) rows)

abbrev pub as_is : ℤ → ℤ
as_is delta = delta

change_missing :
    (key : ℕ) (delta : ℤ) (rows : List Ingredient)
    → find_row (is_ingredient key) rows ≡ none
    → change_row (is_ingredient key) (add_qty delta) rows ≡ rows
change_missing key delta [] e = refl
change_missing key delta (i ∷ rows) e = ground (arith, change_missing key delta rows)

move-ingredients :
    (key : ℕ) (delta : ℤ) (reason : MoveReason) (user : Option ℕ) (s : Store)
    → (move key delta reason user s).ingredients
      ≡ change_row (is_ingredient key) (add_qty delta) s.ingredients
unfolding move
move-ingredients key delta reason user s = ground (arith, change_missing key delta s.ingredients)

pub take_all-ingredients :
    (order : ℕ) (user : Option ℕ) (ds : List (ℕ × ℤ)) (s : Store)
    → (take_all order user ds s).1.ingredients ≡ shift negate ds s.ingredients
unfolding take_all
take_all-ingredients order user [] s = refl
take_all-ingredients order user ((key, delta) ∷ ds) s =
    let s₁ = move key (negate delta) (for_order order) user s in
    take_all-ingredients order user ds s₁
    ∙ ap (shift negate ds) (move-ingredients key (negate delta) (for_order order) user s)

pub give_all-ingredients :
    (order : ℕ) (user : Option ℕ) (ds : List (ℕ × ℤ)) (s : Store)
    → (give_all order user ds s).ingredients ≡ shift as_is ds s.ingredients
unfolding give_all
give_all-ingredients order user [] s = refl
give_all-ingredients order user ((key, delta) ∷ ds) s =
    let s₁ = move key delta (for_cancel order) user s in
    give_all-ingredients order user ds s₁
    ∙ ap (shift as_is ds) (move-ingredients key delta (for_cancel order) user s)

change_comm :
    (k l : ℕ) (d e : ℤ) (rows : List Ingredient)
    → change_row (is_ingredient k) (add_qty d) (change_row (is_ingredient l) (add_qty e) rows)
      ≡ change_row (is_ingredient l) (add_qty e) (change_row (is_ingredient k) (add_qty d) rows)
change_comm k l d e [] = refl
change_comm k l d e (i ∷ rows) = grind (int_laws, change_comm k l d e rows)

shift_comm :
    (sign : ℤ → ℤ) (k : ℕ) (d : ℤ) (ds : List (ℕ × ℤ)) (rows : List Ingredient)
    → change_row (is_ingredient k) (add_qty d) (shift sign ds rows)
      ≡ shift sign ds (change_row (is_ingredient k) (add_qty d) rows)
shift_comm sign k d [] rows = refl
shift_comm sign k d ((l, e) ∷ ds) rows =
    shift_comm sign k d ds (change_row (is_ingredient l) (add_qty (sign e)) rows)
    ∙ ap (shift sign ds) (change_comm k l d (sign e) rows)

change_undo :
    (k : ℕ) (d : ℤ) (rows : List Ingredient)
    → change_row
        (is_ingredient k)
        (add_qty d)
        (change_row (is_ingredient k) (add_qty (negate d)) rows)
      ≡ rows
change_undo k d [] = refl
change_undo k d (i ∷ rows) = grind (int_laws, change_undo k d rows)

-- What was taken, given back.
pub shift_undo :
    (ds : List (ℕ × ℤ)) (rows : List Ingredient) → shift as_is ds (shift negate ds rows) ≡ rows
shift_undo [] rows = refl
shift_undo ((k, d) ∷ ds) rows =
    let taken = change_row (is_ingredient k) (add_qty (negate d)) rows in
    ap (shift as_is ds) (shift_comm negate k d ds taken)
    ∙ shift_undo ds (change_row (is_ingredient k) (add_qty d) taken)
    ∙ change_undo k d rows

abbrev pub qty_of : ℕ → List Ingredient → Option ℤ
qty_of key rows = elim (find_row (is_ingredient key) rows) [
  | none ↦ none
  | some i ↦ some i.current_qty
]

qty_of-change :
    (key k : ℕ) (d q : ℤ) (rows : List Ingredient)
    → qty_of key rows ≡ some q
    → qty_of key (change_row (is_ingredient k) (add_qty d) rows)
      ≡ some (q +ℤ (if k == key then d else pos 0))
qty_of-change key k d q [] e = cc
qty_of-change key k d q (i ∷ rows) e = grind (int_laws, qty_of-change key k d q rows)

pub qty_of-shift :
    (key : ℕ) (ds : List (ℕ × ℤ)) (q : ℤ) (rows : List Ingredient)
    → qty_of key rows ≡ some q
    → qty_of key (shift negate ds rows) ≡ some (q +ℤ negate (required key ds))
unfolding required
qty_of-shift key [] q rows e = e ∙ ap some (omega int_laws)
qty_of-shift key ((k, d) ∷ ds) q rows e =
    let part = if k == key then negate d else pos 0 in
    let rows' = change_row (is_ingredient k) (add_qty (negate d)) rows in
    qty_of-shift key ds (q +ℤ part) rows' (qty_of-change key k (negate d) q rows e)
    ∙ ap some (grind int_laws)
