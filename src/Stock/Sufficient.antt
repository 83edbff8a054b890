-- ===== src/Stock/Sufficient.antt =====
-- What the checks in front of an order's stock movements give.
use api_kitchen.Base.{
  ℕ, ◌==◌, ok, ◌≡◌, ap, ◌∙◌, Bool, true, false, ◌||◌, Option, some, List, [], ◌∷◌, arith,
}
use api_kitchen.Base.Int.{ℤ, pos, ◌+ℤ◌, ◌≤ℤ◌, negate, int_laws}
use api_kitchen.Store.{Store, Env}
use api_kitchen.Stock.RoundTrip.{take_all-ingredients, qty_of, qty_of-shift}
use api_kitchen.Stock.Tables.{Ingredient}
use api_kitchen.Stock.Movements.{required, check_ingredient, check_all, take_all, deduct_for_order}

-- Whether the recipes of an order use an ingredient.
abbrev pub lists : ℕ → List (ℕ × ℤ) → Bool
lists key [] = false
lists key ((k, _) ∷ ds) = k == key || lists key ds

check_all-covers :
    (env : Env) (ds : List (ℕ × ℤ)) (rows : List Ingredient) (todo : List (ℕ × ℤ)) (key : ℕ) (q : ℤ)
    → check_all env ds rows todo ≡ ok tt
    → lists key todo ≡ true
    → qty_of key rows ≡ some q
    → required key ds ≤ℤ q
unfolding check_all check_ingredient
check_all-covers env ds rows [] key q passed used e = absurd (cc)
check_all-covers env ds rows ((k, d) ∷ todo) key q passed used e =
    grind (int_laws, check_all-covers env ds rows todo key q)

deduct_ok :
    (env : Env) (order : ℕ) (user : Option ℕ) (s : Store) (low : List ℕ) (s' : Store)
    → deduct_for_order env order user s ≡ ok (low, s')
    → (check_all env (env.recipe_deltas order) s.ingredients (env.recipe_deltas order) ≡ ok tt)
      × (s' ≡ (take_all order user (env.recipe_deltas order) s).1)
unfolding deduct_for_order
deduct_ok env order user s low s' e = ground arith

-- When the stock of an order is deducted, an ingredient that its recipes use ends with what it had
-- less what all the recipes together require of it, and that is not below zero.
pub deduct-covered :
    (env : Env) (order : ℕ) (user : Option ℕ) (s : Store) (low : List ℕ) (s' : Store) (key : ℕ)
    (q : ℤ)
    → deduct_for_order env order user s ≡ ok (low, s')
    → lists key (env.recipe_deltas order) ≡ true
    → qty_of key s.ingredients ≡ some q
    → (qty_of key s'.ingredients ≡ some (q +ℤ negate (required key (env.recipe_deltas order))))
      × (pos 0 ≤ℤ q +ℤ negate (required key (env.recipe_deltas order)))
deduct-covered env order user s low s' key q e used held =
    let ds = env.recipe_deltas order in
    let (passed, taken) = deduct_ok env order user s low s' e in
    let covers = check_all-covers env ds s.ingredients ds key q passed used held in
    (
      ap (λ (t : Store). qty_of key t.ingredients) taken
          ∙ ap (qty_of key) (take_all-ingredients order user ds s)
          ∙ qty_of-shift key ds q s.ingredients held,
      omega int_laws,
    )
