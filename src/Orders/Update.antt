-- ===== src/Orders/Update.antt =====
-- `update_status` of app/modules/orders/service.py: a change of an order's status.
-- The guards, the effect on the tables up to the commit, and what follows the commit.
use api_kitchen.Base.{
  ℕ, leb, if◌then◌else◌, is_some, order_not_found, invalid_status_transition,
  delivery_failure_reason_required, payment_required, payment_settlement_required,
  delivery_proof_required, Result, ok, ◌>>=◌, ◌>>◌, raise_if, or_raise, Text, strip, is_empty,
  text_eq, upper, find_row, change_row, count_rows, ◌+◌, Bool, true, false, not, ◌&&◌, ◌||◌, Option,
  none, some, List, [], ◌∷◌,
}
use api_kitchen.Store.{Store, Env}
use api_kitchen.Stock.Movements.{deduct_for_order, restore_for_order}
use api_kitchen.Orders.Tables.{
  is_delivery, is_paid, is_guaranteed, Order, Authority, is_internal, Promotion, is_order,
}
use api_kitchen.Orders.Status.{
  OrderStatus, queued, ready, out_for_delivery, delivered, rejected, delivery_failed,
  valid_transition, is_load, confirmed, cancelled,
}
use api_kitchen.Delivery.Lifecycle.{
  ensure_driver_for_departure, on_departure, proof_required_for, on_delivered, on_order_closed,
}
use api_kitchen.Delivery.Tables.{Proof}

pub record Change : Type 0 where
  pub order_id : ℕ
  pub status : OrderStatus
  pub note : Option Text
  pub actor_user_id : Option ℕ
  pub authority : Authority
  pub delivery_proof : Option Proof
  pub allow_redelivery : Bool

abbrev pub is_failure : OrderStatus → Bool
is_failure delivery_failed = true
is_failure _ = false

abbrev pub is_confirmation : OrderStatus → Bool
is_confirmation confirmed = true
is_confirmation _ = false

abbrev pub is_departure : OrderStatus → Bool
is_departure out_for_delivery = true
is_departure _ = false

abbrev pub is_handover : OrderStatus → Bool
is_handover delivered = true
is_handover _ = false

abbrev pub is_cancellation : OrderStatus → Bool
is_cancellation cancelled = true
is_cancellation _ = false

-- `not (note or "").strip()`.
abbrev pub is_blank : Option Text → Bool
is_blank none = true
is_blank (some t) = is_empty (strip t)

-- Paid, or a card guarantee on an order that is delivered.
abbrev pub is_covered : Order → Bool
is_covered o =
    is_paid o.payment_status || (is_guaranteed o.payment_status && is_delivery o.order_type)

-- The checks in front of the transition graph, in the source's order.
unfoldable pub guards : Change → Order → Store → Result (Unit {0})
guards c o s = do
  raise_if (is_failure c.status && is_internal c.authority && is_blank c.note)
      delivery_failure_reason_required 422
  raise_if (is_confirmation c.status && not (is_covered o)) payment_required 409
  if is_departure c.status && is_internal c.authority
      then ensure_driver_for_departure o s
      else ok tt
  raise_if
      (is_handover c.status
        && not (is_some c.delivery_proof)
        && is_internal c.authority
        && proof_required_for o s)
      delivery_proof_required 409
  raise_if (is_handover c.status && is_guaranteed o.payment_status) payment_settlement_required 409

-- `delivery_failed -> ready`, which only the treatment of a failure asks for.
abbrev pub is_redelivery : OrderStatus → OrderStatus → Bool
is_redelivery delivery_failed ready = true
is_redelivery _ _ = false

abbrev pub is_graph_transition : Change → Order → Bool
is_graph_transition c o =
    valid_transition o.status c.status || (c.allow_redelivery && is_redelivery o.status c.status)

-- The order, once the guards and the graph let the change pass.
unfoldable pub admit : Change → Store → Result Order
admit c s = do
  o ← or_raise (find_row (is_order c.order_id) s.orders) order_not_found 404
  guards c o s
  raise_if (is_internal c.authority && not (is_graph_transition c o)) invalid_status_transition 422
  ok o

-- An external change outside the graph is counted, in a counter that no rollback undoes.
abbrev pub count_out_of_graph : Change → Order → Store → Store
count_out_of_graph c o s =
    if is_graph_transition c o
    then s
    else record s { out_of_graph_total = s.out_of_graph_total + 1 }

abbrev pub is_loaded : Order → Bool
is_loaded o = is_load o.status

-- A confirmation goes to the queue when the kitchen is at its threshold.
unfoldable pub route : OrderStatus → Store → OrderStatus
route confirmed s = elim s.peak_orders_threshold [
  | none ↦ confirmed
  | some threshold ↦ if leb threshold (count_rows is_loaded s.orders) then queued else confirmed
]
route status s = status

abbrev pub set_status : OrderStatus → Order → Order
set_status status o = record o { status = status }

-- The new status, with its row of history.
abbrev pub write_status : Change → OrderStatus → Store → Store
write_status c actual s = record s {
  orders = change_row (is_order c.order_id) (set_status actual) s.orders;
  history =
      record { order_id = c.order_id; status = actual; note = c.note; authority = c.authority }
      ∷ s.history;
}

unfoldable pub follow : Env → Change → Order → OrderStatus → Store → Store
follow env c o out_for_delivery s = on_departure env o c.actor_user_id s
follow env c o delivered s = on_delivered env o c.actor_user_id c.delivery_proof s
follow env c o cancelled s = on_order_closed env o cancelled c.actor_user_id s
follow env c o rejected s = on_order_closed env o rejected c.actor_user_id s
follow env c o delivery_failed s = on_order_closed env o delivery_failed c.actor_user_id s
follow env c o status s = s

abbrev pub has_code : Text → Promotion → Bool
has_code code p = text_eq p.code code

abbrev pub switch_off : Promotion → Promotion
switch_off p = record p { is_active = false }

abbrev pub use_promo : Option Text → Store → Store
use_promo none s = s
use_promo (some code) s =
    if is_empty code
    then s
    else record s { promotions = change_row (has_code (upper code)) switch_off s.promotions }

-- The stock of a confirmed order, and its return when a confirmed order is cancelled. The list
-- holds the ingredients that fell to their threshold.
unfoldable pub settle_stock : Env → Change → Order → OrderStatus → Store → Result (List ℕ × Store)
settle_stock env c o confirmed s = do
  (low, s') ← deduct_for_order env c.order_id c.actor_user_id s
  ok (low, use_promo o.promo_code s')
settle_stock env c o cancelled s =
    ok (
      [],
      if is_confirmation o.status then restore_for_order env c.order_id c.actor_user_id s else s,
    )
settle_stock env c o status s = ok ([], s)

-- Everything up to the commit: the new status, the stores and the low ingredients.
unfoldable pub apply_change : Env → Change → Order → Store → Result (OrderStatus × List ℕ × Store)
apply_change env c o s = do
  let actual = route c.status s
  let s₁ = follow env c o actual (write_status c actual s)
  (low, s₂) ← settle_stock env c o actual s₁
  ok (actual, low, s₂)
