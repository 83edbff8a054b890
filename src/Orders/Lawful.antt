-- ===== src/Orders/Lawful.antt =====
-- What an accepted change of status has gone through.
use api_kitchen.Base.{
  ℕ, leb, Bool-cases, Option-cases, ok, Text, strip, is_empty, find_row, count_rows, ◌≤◌, ◌<◌, ◌≡◌,
  refl, ap, ◌∙◌, ◌≢◌, ◌⊎◌, inl, inr, true, false, none, some, List, arith, subst,
}
use api_kitchen.Orders.Status.{
  OrderStatus, confirmed, queued, out_for_delivery, delivered, delivery_failed,
}
use api_kitchen.Store.{Store, Env}
use api_kitchen.Orders.Routes.{route-count}
use api_kitchen.Orders.Service.{update_status}
use api_kitchen.Orders.Update.{Change, is_graph_transition, count_out_of_graph, is_loaded, route}
use api_kitchen.Orders.Parts.{update_status_ok, apply_change_ok, admit_ok}
use api_kitchen.Orders.Transitions.{status_of, update_status-status_of}
use api_kitchen.Orders.Tables.{OrderType, guaranteed, Order, is_internal, is_order}
use api_kitchen.Orders.AfterCommit.{Effect}
use api_kitchen.Orders.Funded.{
  Edge, IsSecond, on_graph, IsFunded, guards-IsFunded, HasDriver, guards-HasDriver, guards-settled,
  guards-noted,
}
use api_kitchen.Delivery.Tables.{Settings}

-- The orders that wait for the kitchen or are cooked.
abbrev pub load : Store → ℕ
load s = count_rows is_loaded s.orders

-- The status that an accepted change ends with.
pub data Ends (asked : OrderStatus) (s : Store) : OrderStatus → Type 0 where
  as_asked : asked ≢ confirmed → Ends asked s asked
  no_threshold : asked ≡ confirmed → s.peak_orders_threshold ≡ none → Ends asked s confirmed
  with_room :
      (threshold : ℕ)
      → asked ≡ confirmed
      → s.peak_orders_threshold ≡ some threshold
      → load s < threshold
      → Ends asked s confirmed
  to_queue :
      (threshold : ℕ)
      → asked ≡ confirmed
      → s.peak_orders_threshold ≡ some threshold
      → threshold ≤ load s
      → Ends asked s queued

route-confirmed : (s : Store) → Ends confirmed s (route confirmed s)
unfolding route
route-confirmed s = elim (Option-cases s.peak_orders_threshold) [
  | inl off ↦
      let same : confirmed ≡ route confirmed s = ground arith in
      subst (Ends confirmed s) same (no_threshold refl off)
  | inr (t, set) ↦ elim (Bool-cases (leb t (load s))) [
    | inl full ↦
        let same : queued ≡ route confirmed s = ground arith in
        subst (Ends confirmed s) same (to_queue t refl set (ground arith))
    | inr room ↦
        let same : confirmed ≡ route confirmed s = ground arith in
        subst (Ends confirmed s) same (with_room t refl set (ground arith))
  ]
]

route-Ends : (status : OrderStatus) (s : Store) → Ends status s (route status s)
unfolding route
route-Ends confirmed s = route-confirmed s
route-Ends _ s = as_asked (λ e. absurd (cc))

-- What an accepted change of the restaurant itself says of its order and of the tables before it.
pub record Lawful (c : Change) (o : Order) (s : Store) : Type 0 where
  pub step : Edge o.status c.status ⊎ IsSecond c o.status
  pub funded : c.status ≡ confirmed → IsFunded o
  pub with_driver :
      (r : Settings)
      → c.status ≡ out_for_delivery
      → o.order_type ≡ OrderType.delivery
      → s.settings ≡ some r
      → r.driver_dispatch_enabled ≡ true
      → HasDriver o s
  pub settled : c.status ≡ delivered → o.payment_status ≢ guaranteed
  pub noted :
      c.status ≡ delivery_failed → (t : Text) × (c.note ≡ some t) × (is_empty (strip t) ≡ false)

-- When a change that the restaurant itself asks for returns, its order was there and the step is one
-- of the fourteen of the transition graph, or the second delivery of a failed order that the change
-- allows. A confirmed order was paid, or guaranteed and for delivery; a delivery that left, where
-- drivers are dispatched, had one assigned, on the way or at the door; a delivered order had no card
-- guarantee left to settle; a failed delivery has a note that is not blank. The order ends with the
-- status that was asked for, but a confirmation ends in the queue exactly when a threshold is set and
-- as many orders or more are confirmed, queued or in preparation.
pub update_status-Lawful :
    (env : Env) (c : Change) (s : Store) (fx : List Effect)
    → is_internal c.authority ≡ true
    → (update_status env c s).0 ≡ ok fx
    → (o : Order) × (actual : OrderStatus) × (find_row (is_order c.order_id) s.orders ≡ some o)
      × Lawful c o s
      × Ends c.status s actual
      × (status_of c.order_id (update_status env c s).1.orders ≡ some actual)
update_status-Lawful env c s fx own e =
    let a = update_status_ok env c s fx e in
    let o = a.order in
    let (found, passed, lawful) = admit_ok c s o a.admitted in
    let counted = count_out_of_graph c o s in
    let routed = (apply_change_ok env c o counted a.actual a.low a.committed a.applied).0 in
    let inside : is_graph_transition c o ≡ true = ground arith in
    (
      o,
      route c.status s,
      found,
      record {
        step = on_graph c o inside;
        funded = guards-IsFunded c o s passed;
        with_driver =
            λ r asked by_ride set on. guards-HasDriver c o s r passed own asked by_ride set on;
        settled = guards-settled c o s passed;
        noted = guards-noted c o s passed own;
      },
      route-Ends c.status s,
      update_status-status_of env c s a ∙ ap some (routed ∙ route-count c o s),
    )
