-- ===== src/Stock/Movements.antt =====
-- The stock that an order takes and gives back (app/modules/stock/service.py: deduct_for_order,
-- restore_for_order). The overrides of product availability that follow are not modelled.
use api_kitchen.Base.{
  ℕ, ◌==◌, if◌then◌else◌, insufficient_stock, Result, ok, ◌>>◌, raise_if, find_row, change_row,
  Bool, ◌||◌, Option, none, some, List, [], ◌∷◌, ◌++◌,
}
use api_kitchen.Base.Int.{ℤ, pos, ◌+ℤ◌, leb_ℤ, ltb_ℤ, negate}
use api_kitchen.Store.{Store, Env}
use api_kitchen.Stock.Tables.{Ingredient, MoveReason, for_order, for_cancel, Movement}

abbrev pub is_ingredient : ℕ → Ingredient → Bool
is_ingredient key i = i.id == key

-- `required_by_ingredient[key]`.
unfoldable pub required : ℕ → List (ℕ × ℤ) → ℤ
required key [] = pos 0
required key ((i, delta) ∷ ds) = (if i == key then delta else pos 0) +ℤ required key ds

-- The two tests on one ingredient; one that is not there is passed over.
unfoldable pub check_ingredient : Env → List (ℕ × ℤ) → List Ingredient → ℕ → Result (Unit {0})
check_ingredient env ds rows key = elim (find_row (is_ingredient key) rows) [
  | none ↦ ok tt
  | some i ↦
      raise_if (ltb_ℤ i.current_qty (required key ds) || ltb_ℤ (env.usable_qty i) (required key ds))
        insufficient_stock 409
]

unfoldable pub check_all : Env → List (ℕ × ℤ) → List Ingredient → List (ℕ × ℤ) → Result (Unit {0})
check_all env ds rows [] = ok tt
check_all env ds rows ((key, _) ∷ rest) =
    check_ingredient env ds rows key >> check_all env ds rows rest

abbrev pub add_qty : ℤ → Ingredient → Ingredient
add_qty delta i = record i { current_qty = i.current_qty +ℤ delta }

abbrev pub movement : ℕ → ℤ → MoveReason → Option ℕ → Movement
movement key delta reason user = record {
  ingredient_id = key;
  quantity_delta = delta;
  reason = reason;
  user_id = user;
}

-- One movement on an ingredient, if it is there.
unfoldable pub move : ℕ → ℤ → MoveReason → Option ℕ → Store → Store
move key delta reason user s = elim (find_row (is_ingredient key) s.ingredients) [
  | none ↦ s
  | some i ↦ record s {
    ingredients = change_row (is_ingredient key) (add_qty delta) s.ingredients;
    movements = movement key delta reason user ∷ s.movements;
  }
]

-- The keys of the ingredients that a list of movements leaves at their threshold or under it.
abbrev pub low_after : ℕ → Store → List ℕ
low_after key s = elim (find_row (is_ingredient key) s.ingredients) [
  | none ↦ []
  | some i ↦ if leb_ℤ i.current_qty i.alert_threshold then key ∷ [] else []
]

unfoldable pub take_all : ℕ → Option ℕ → List (ℕ × ℤ) → Store → List ℕ × Store
take_all order user [] s = ([], s)
take_all order user ((key, delta) ∷ ds) s =
    let s₁ = move key (negate delta) (for_order order) user s in
    let (low, s₂) = take_all order user ds s₁ in (low_after key s₁ ++ low, s₂)

-- The low ingredients, and the store without what the order takes.
unfoldable pub deduct_for_order : Env → ℕ → Option ℕ → Store → Result (List ℕ × Store)
deduct_for_order env order user s =
    check_all env (env.recipe_deltas order) s.ingredients (env.recipe_deltas order)
    >> ok (take_all order user (env.recipe_deltas order) s)

unfoldable pub give_all : ℕ → Option ℕ → List (ℕ × ℤ) → Store → Store
give_all order user [] s = s
give_all order user ((key, delta) ∷ ds) s =
    give_all order user ds (move key delta (for_cancel order) user s)

unfoldable pub restore_for_order : Env → ℕ → Option ℕ → Store → Store
restore_for_order env order user s = give_all order user (env.recipe_deltas order) s
