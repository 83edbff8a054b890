-- ===== src/Orders/Keeps.antt =====
-- Which tables each part of `update_status` leaves alone.
use api_kitchen.Base.{ℕ, ok, Text, ◌≡◌, Option, List, [], ◌∷◌, arith}
use api_kitchen.Base.Int.{ℤ, negate}
use api_kitchen.Store.{Store, Env}
use api_kitchen.Stock.Tables.{MoveReason, for_order, for_cancel}
use api_kitchen.Stock.Movements.{move, take_all, deduct_for_order, give_all, restore_for_order}
use api_kitchen.Orders.Update.{Change, use_promo, settle_stock}
use api_kitchen.Orders.Tables.{Order}
use api_kitchen.Orders.Status.{OrderStatus}

-- The two stores agree on orders and deliveries.
pub record Agrees (s s' : Store) : Type 0 where
  pub orders : s'.orders ≡ s.orders
  pub history : s'.history ≡ s.history
  pub deliveries : s'.deliveries ≡ s.deliveries
  pub runs : s'.runs ≡ s.runs
  pub settings : s'.settings ≡ s.settings
  pub failures : s'.failures ≡ s.failures

move-Agrees :
    (key : ℕ) (delta : ℤ) (reason : MoveReason) (user : Option ℕ) (s : Store)
    → Agrees s (move key delta reason user s)
unfolding move
move-Agrees key delta reason user s = ground arith

take_all-Agrees :
    (order : ℕ) (user : Option ℕ) (ds : List (ℕ × ℤ)) (s : Store)
    → Agrees s (take_all order user ds s).1
unfolding take_all
take_all-Agrees order user [] s = ground arith
take_all-Agrees order user ((key, delta) ∷ ds) s = ground (
  arith,
  move-Agrees key (negate delta) (for_order order) user s,
  take_all-Agrees order user ds (move key (negate delta) (for_order order) user s),
)

give_all-Agrees :
    (order : ℕ) (user : Option ℕ) (ds : List (ℕ × ℤ)) (s : Store)
    → Agrees s (give_all order user ds s)
unfolding give_all
give_all-Agrees order user [] s = ground arith
give_all-Agrees order user ((key, delta) ∷ ds) s = ground (
  arith,
  move-Agrees key delta (for_cancel order) user s,
  give_all-Agrees order user ds (move key delta (for_cancel order) user s),
)

use_promo-Agrees : (code : Option Text) (s : Store) → Agrees s (use_promo code s)
use_promo-Agrees code s = ground arith

-- The stock of an order moves no order and no delivery.
pub settle_stock-Agrees :
    (env : Env) (c : Change) (o : Order) (actual : OrderStatus) (s : Store) (low : List ℕ)
    (s' : Store)
    → settle_stock env c o actual s ≡ ok (low, s')
    → Agrees s s'
unfolding settle_stock deduct_for_order restore_for_order
settle_stock-Agrees env c o actual s low s' e =
    let taken = take_all c.order_id c.actor_user_id (env.recipe_deltas c.order_id) s in
    ground (
      arith,
      take_all-Agrees c.order_id c.actor_user_id (env.recipe_deltas c.order_id) s,
      use_promo-Agrees o.promo_code taken.1,
      give_all-Agrees c.order_id c.actor_user_id (env.recipe_deltas c.order_id) s,
    )
