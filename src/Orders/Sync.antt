-- ===== src/Orders/Sync.antt =====
-- A change of status keeps orders and deliveries together (the aim of
-- app/modules/delivery/lifecycle.py: the table of deliveries never diverges from the orders).
use api_kitchen.Base.{
  ℕ, ErrorCode, Result, ok, err, ◌≡◌, refl, Bool, true, false, none, some, List, arith,
  find_row_test, find_row, subst,
}
use api_kitchen.Store.{Store, Env}
use api_kitchen.Orders.Service.{update_status}
use api_kitchen.Orders.Update.{Change, count_out_of_graph, route, write_status, follow}
use api_kitchen.Orders.Parts.{
  Applied, count_out_of_graph-Agrees, update_status_ok, apply_change_ok, after_commit-deliveries,
  follow-OneLive, admit_ok,
}
use api_kitchen.Orders.Tables.{Order, is_order}
use api_kitchen.Orders.Keeps.{settle_stock-Agrees}
use api_kitchen.Orders.Status.{OrderStatus, delivered, cancelled, rejected, delivery_failed}
use api_kitchen.Orders.AfterCommit.{Effect}
use api_kitchen.Delivery.Lifecycle.{
  active_delivery, proof_note, on_delivered, on_order_closed, is_live_of,
}
use api_kitchen.Delivery.Tables.{
  handed_over, failed, called_off, was_delivered, was_failed, was_cancelled, closed_by,
}
use api_kitchen.Delivery.OneLive.{OneLive, close_active_clears}

committed-deliveries :
    (env : Env) (c : Change) (s : Store) (a : Applied env c s)
    → let s₁ = count_out_of_graph c a.order s in
      (update_status env c s).1.deliveries
      ≡ (follow env c a.order a.actual (write_status c a.actual s₁)).deliveries
committed-deliveries env c s a =
    let s₁ = count_out_of_graph c a.order s in
    let (routed, settled) = apply_change_ok env c a.order s₁ a.actual a.low a.committed a.applied in
    let followed = follow env c a.order a.actual (write_status c a.actual s₁) in
    let stock = settle_stock-Agrees env c a.order a.actual followed a.low a.committed settled in
    rw (a.tables, after_commit-deliveries env c.actor_user_id a.actual a.order a.committed)
      stock.deliveries

refused-deliveries :
    (env : Env) (c : Change) (s : Store) (e : ErrorCode) (n : ℕ)
    → (update_status env c s).0 ≡ err e n
    → (update_status env c s).1.deliveries ≡ s.deliveries
unfolding update_status
refused-deliveries env c s e n refused = ground arith

-- A change of status, accepted or refused, leaves each order with at most one live delivery.
pub update_status-OneLive :
    (env : Env) (c : Change) (s : Store)
    → OneLive s.deliveries
    → OneLive (update_status env c s).1.deliveries
update_status-OneLive env c s h = go (update_status env c s).0 refl
  where
    go :
        (r : Result (List Effect))
        → (update_status env c s).0 ≡ r
        → OneLive (update_status env c s).1.deliveries
    go (err e n) k = rw (refused-deliveries env c s e n k) h
    go (ok fx) k =
        let a = update_status_ok env c s fx k in
        let s₁ = count_out_of_graph c a.order s in
        let before : OneLive (write_status c a.actual s₁).deliveries =
          rw ((count_out_of_graph-Agrees c a.order s).deliveries) h in
        rw (committed-deliveries env c s a) (follow-OneLive env c a.order a.actual _ before)

abbrev pub is_closing : OrderStatus → Bool
is_closing delivered = true
is_closing cancelled = true
is_closing rejected = true
is_closing delivery_failed = true
is_closing _ = false

follow_clears :
    (env : Env) (c : Change) (o : Order) (status : OrderStatus) (s : Store)
    → OneLive s.deliveries
    → is_closing status ≡ true
    → active_delivery o.id (follow env c o status s) ≡ none
unfolding follow on_delivered on_order_closed
follow_clears env c o delivered s h e =
    close_active_clears env o.id handed_over was_delivered c.actor_user_id
      (proof_note c.delivery_proof) s h refl
follow_clears env c o cancelled s h e =
    close_active_clears env o.id called_off was_cancelled c.actor_user_id
      (some (closed_by cancelled)) s h refl
follow_clears env c o rejected s h e =
    close_active_clears env o.id called_off was_cancelled c.actor_user_id
      (some (closed_by rejected)) s h refl
follow_clears env c o delivery_failed s h e =
    close_active_clears env o.id failed was_failed c.actor_user_id
      (some (closed_by delivery_failed)) s h refl
follow_clears env c o _ s h e = cc

route_closing :
    (status : OrderStatus) (s : Store) → is_closing status ≡ true → route status s ≡ status
unfolding route
route_closing status s e = ground arith

-- From a store with at most one live delivery for each order, an order that was delivered,
-- cancelled, rejected or failed by a change that returned has no live delivery left.
pub update_status_closes :
    (env : Env) (c : Change) (s : Store) (fx : List Effect)
    → OneLive s.deliveries
    → is_closing c.status ≡ true
    → (update_status env c s).0 ≡ ok fx
    → active_delivery c.order_id (update_status env c s).1 ≡ none
update_status_closes env c s fx h closing e =
    let a = update_status_ok env c s fx e in
    let s₁ = count_out_of_graph c a.order s in
    let (routed, settled) = apply_change_ok env c a.order s₁ a.actual a.low a.committed a.applied in
    let before : OneLive (write_status c a.actual s₁).deliveries =
      rw ((count_out_of_graph-Agrees c a.order s).deliveries) h in
    let found = (admit_ok c s a.order a.admitted).0 in
    let key : a.order.id ≡ c.order_id =
      ground (arith, find_row_test (is_order c.order_id) s.orders a.order found) in
    let ends : is_closing a.actual ≡ true =
      rw (routed, route_closing c.status s₁ closing) closing in
    let followed = follow env c a.order a.actual (write_status c a.actual s₁) in
    rw (committed-deliveries env c s a) (
      subst (λ k. find_row (is_live_of k) followed.deliveries ≡ none) key
        (follow_clears env c a.order a.actual (write_status c a.actual s₁) before ends))
