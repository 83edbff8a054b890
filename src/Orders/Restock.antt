-- ===== src/Orders/Restock.antt =====
-- The stock of an order over its confirmation and its cancellation.
use api_kitchen.Base.{
  ℕ, if◌then◌else◌, Result, ok, Text, ◌≡◌, refl, sym, ap, ◌∙◌, Option, none, some, List, arith,
}
use api_kitchen.Base.Int.{ℤ, negate}
use api_kitchen.Store.{Store, Env}
use api_kitchen.Payments.Guarantee.{release_tx, release_guarantee, release_best_effort}
use api_kitchen.Stock.RoundTrip.{
  shift, as_is, take_all-ingredients, give_all-ingredients, shift_undo,
}
use api_kitchen.Stock.Tables.{Ingredient}
use api_kitchen.Stock.Movements.{take_all, deduct_for_order, restore_for_order}
use api_kitchen.Orders.Stays.{status_of_found}
use api_kitchen.Orders.Service.{update_status}
use api_kitchen.Orders.Update.{
  Change, is_confirmation, count_out_of_graph, route, write_status, follow, use_promo, settle_stock,
}
use api_kitchen.Orders.Parts.{Applied, update_status_ok, apply_change_ok, admit_ok}
use api_kitchen.Orders.Routes.{route-count}
use api_kitchen.Orders.Transitions.{status_of, update_status-status_of}
use api_kitchen.Orders.Tables.{Order}
use api_kitchen.Orders.Status.{
  OrderStatus, confirmed, out_for_delivery, delivered, cancelled, rejected, delivery_failed,
}
use api_kitchen.Orders.AfterCommit.{Effect, ensure_nonce, after_commit}
use api_kitchen.Delivery.Lifecycle.{
  refresh_estimate, open_run, on_departure, complete_run_if_done, close_active, on_delivered,
  on_order_closed,
}
use api_kitchen.Delivery.Tables.{DeliveryStatus, EventKind, Note}

abbrev stock_after : OrderStatus → OrderStatus → List (ℕ × ℤ) → List Ingredient → List Ingredient
stock_after confirmed previous ds rows = shift negate ds rows
stock_after cancelled previous ds rows =
    if is_confirmation previous then shift as_is ds rows else rows
stock_after _ previous ds rows = rows

on_departure-ingredients :
    (env : Env) (o : Order) (actor : Option ℕ) (s : Store)
    → (on_departure env o actor s).ingredients ≡ s.ingredients
unfolding on_departure refresh_estimate open_run
on_departure-ingredients env o actor s = ground arith

close_active-ingredients :
    (env : Env) (order : ℕ) (status : DeliveryStatus) (kind : EventKind) (actor : Option ℕ)
    (remark : Option Note) (s : Store)
    → (close_active env order status kind actor remark s).ingredients ≡ s.ingredients
unfolding close_active complete_run_if_done
close_active-ingredients env order status kind actor remark s = ground arith

release-ingredients :
    (env : Env) (order : ℕ) (user : Option ℕ) (s : Store)
    → (release_best_effort env order user s).ingredients ≡ s.ingredients
unfolding release_best_effort release_guarantee release_tx
release-ingredients env order user s = ground arith

after_commit-ingredients :
    (env : Env) (actor : Option ℕ) (actual : OrderStatus) (o : Order) (s : Store)
    → (after_commit env actor actual o s).ingredients ≡ s.ingredients
unfolding after_commit ensure_nonce
after_commit-ingredients env actor actual o s = ground (arith, release-ingredients env o.id actor s)

follow-ingredients :
    (env : Env) (c : Change) (o : Order) (status : OrderStatus) (s : Store)
    → (follow env c o status s).ingredients ≡ s.ingredients
unfolding follow on_delivered on_order_closed
follow-ingredients env c o out_for_delivery s = on_departure-ingredients env o c.actor_user_id s
follow-ingredients env c o delivered s = close_active-ingredients env o.id _ _ _ _ s
follow-ingredients env c o cancelled s = close_active-ingredients env o.id _ _ _ _ s
follow-ingredients env c o rejected s = close_active-ingredients env o.id _ _ _ _ s
follow-ingredients env c o delivery_failed s = close_active-ingredients env o.id _ _ _ _ s
follow-ingredients env c o _ s = refl

use_promo-ingredients :
    (code : Option Text) (s : Store) → (use_promo code s).ingredients ≡ s.ingredients
use_promo-ingredients none s = refl
use_promo-ingredients (some t) s = ground arith

count-ingredients :
    (c : Change) (o : Order) (s : Store) → (count_out_of_graph c o s).ingredients ≡ s.ingredients
count-ingredients c o s = ground arith

-- What the change of one order does to the ingredients.
settle_stock-ingredients :
    (env : Env) (c : Change) (o : Order) (status : OrderStatus) (s : Store) (low : List ℕ)
    (s' : Store)
    → settle_stock env c o status s ≡ ok (low, s')
    → s'.ingredients ≡ stock_after status o.status (env.recipe_deltas c.order_id) s.ingredients
unfolding settle_stock deduct_for_order restore_for_order
settle_stock-ingredients env c o confirmed s low s' e =
    let ds = env.recipe_deltas c.order_id in
    let taken = take_all c.order_id c.actor_user_id ds s in
    ground (
      arith,
      take_all-ingredients c.order_id c.actor_user_id ds s,
      use_promo-ingredients o.promo_code taken.1,
    )
settle_stock-ingredients env c o cancelled s low s' e =
    ground (arith, give_all-ingredients c.order_id c.actor_user_id (env.recipe_deltas c.order_id) s)
settle_stock-ingredients env c o _ s low s' e = ground arith

update_status-ingredients :
    (env : Env) (c : Change) (s : Store) (a : Applied env c s)
    → (update_status env c s).1.ingredients
      ≡ stock_after a.actual a.order.status (env.recipe_deltas c.order_id) s.ingredients
update_status-ingredients env c s a =
    let o = a.order in
    let s₁ = count_out_of_graph c o s in
    let (routed, stock) = apply_change_ok env c o s₁ a.actual a.low a.committed a.applied in
    let written = write_status c a.actual s₁ in
    let followed = follow env c o a.actual written in
    let ds = env.recipe_deltas c.order_id in
    ap (λ (t : Store). t.ingredients) a.tables
    ∙ after_commit-ingredients env c.actor_user_id a.actual o a.committed
    ∙ settle_stock-ingredients env c o a.actual followed a.low a.committed stock
    ∙ ap (stock_after a.actual o.status ds)
        (follow-ingredients env c o a.actual written ∙ count-ingredients c o s)

pub route_cancelled : (s : Store) → route cancelled s ≡ cancelled
unfolding route
route_cancelled s = refl

-- The route of a change that keeps nothing in the queue.
pub actual_of :
    (env : Env) (c : Change) (s : Store) (a : Applied env c s) → a.actual ≡ route c.status s
actual_of env c s a =
    let counted = count_out_of_graph c a.order s in
    (apply_change_ok env c a.order counted a.actual a.low a.committed a.applied).0
    ∙ route-count c a.order s

-- An order that is confirmed, past the queue, and then cancelled with the recipes it was confirmed
-- with, leaves the quantity of every ingredient as it was before.
pub confirm_then_cancel :
    (env env' : Env) (c c' : Change) (s s₁ s₂ : Store) (fx fx' : List Effect)
    → c.status ≡ confirmed
    → c'.status ≡ cancelled
    → c'.order_id ≡ c.order_id
    → env'.recipe_deltas c.order_id ≡ env.recipe_deltas c.order_id
    → route confirmed s ≡ confirmed
    → update_status env c s ≡ (ok fx, s₁)
    → update_status env' c' s₁ ≡ (ok fx', s₂)
    → s₂.ingredients ≡ s.ingredients
confirm_then_cancel env env' c c' s s₁ s₂ fx fx' asked asked' same recipes free e e' =
    let a = update_status_ok env c s fx (ap (λ p. p.0) e) in
    let a' = update_status_ok env' c' s₁ fx' (ap (λ p. p.0) e') in
    let ds = env.recipe_deltas c.order_id in
    let first : a.actual ≡ confirmed =
      actual_of env c s a ∙ ap (λ status. route status s) asked ∙ free in
    let second : a'.actual ≡ cancelled =
      actual_of env' c' s₁ a' ∙ ap (λ status. route status s₁) asked' ∙ route_cancelled s₁ in
    let after : status_of c.order_id s₁.orders ≡ some confirmed =
      sym (ap (λ (r : Result (List Effect) × Store). status_of c.order_id r.1.orders) e)
      ∙ update_status-status_of env c s a
      ∙ ap some first in
    let (found, passed, lawful) = admit_ok c' s₁ a'.order a'.admitted in
    let was : a'.order.status ≡ confirmed =
      status_of_found c'.order_id s₁.orders a'.order confirmed found (rw same after) in
    let taken : s₁.ingredients ≡ shift negate ds s.ingredients =
      sym (ap (λ (r : Result (List Effect) × Store). r.1.ingredients) e)
      ∙ update_status-ingredients env c s a
      ∙ ap (λ status. stock_after status a.order.status ds s.ingredients) first in
    let given : s₂.ingredients ≡ shift as_is ds s₁.ingredients =
      sym (ap (λ (r : Result (List Effect) × Store). r.1.ingredients) e')
      ∙ update_status-ingredients env' c' s₁ a'
      ∙ cc in
    given ∙ ap (shift as_is ds) taken ∙ shift_undo ds s.ingredients
