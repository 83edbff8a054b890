-- ===== src/Orders/Queue.antt =====
-- The queue in front of the kitchen: an order that waits in it counts in the load itself.
use api_kitchen.Base.{
  ℕ, Result, ok, count_rows, ◌≤◌, ◌≡◌, refl, sym, ap, ◌∙◌, some, List, arith, count_found,
}
use api_kitchen.Store.{Store, Env}
use api_kitchen.Orders.Stays.{status_of_found}
use api_kitchen.Orders.Service.{update_status}
use api_kitchen.Orders.Update.{Change, is_loaded, route}
use api_kitchen.Orders.Restock.{actual_of}
use api_kitchen.Orders.Parts.{update_status_ok, admit_ok}
use api_kitchen.Orders.Transitions.{status_of, update_status-status_of}
use api_kitchen.Orders.Tables.{is_order}
use api_kitchen.Orders.Status.{confirmed, queued}
use api_kitchen.Orders.AfterCommit.{Effect}

route_full :
    (s : Store) (threshold : ℕ)
    → s.peak_orders_threshold ≡ some threshold
    → threshold ≤ count_rows is_loaded s.orders
    → route confirmed s ≡ queued
unfolding route
route_full s threshold set full = ground arith

-- With a threshold of one, or of none, an order that is in the queue is still in it after its
-- confirmation was asked for and returned, even when it is the only order of the restaurant: the
-- load counts the order itself.
pub queue_stuck :
    (env : Env) (c : Change) (s s' : Store) (fx : List Effect) (threshold : ℕ)
    → c.status ≡ confirmed
    → status_of c.order_id s.orders ≡ some queued
    → s.peak_orders_threshold ≡ some threshold
    → threshold ≤ 1
    → update_status env c s ≡ (ok fx, s')
    → status_of c.order_id s'.orders ≡ some queued
queue_stuck env c s s' fx threshold asked waits set low e =
    let a = update_status_ok env c s fx (ap (λ p. p.0) e) in
    let (found, passed, lawful) = admit_ok c s a.order a.admitted in
    let here : a.order.status ≡ queued =
      status_of_found c.order_id s.orders a.order queued found waits in
    let counted =
      count_found (is_order c.order_id) is_loaded s.orders a.order found (rw here refl) in
    sym (ap (λ (r : Result (List Effect) × Store). status_of c.order_id r.1.orders) e)
    ∙ update_status-status_of env c s a
    ∙ ap some (
        actual_of env c s a
        ∙ ap (λ status. route status s) asked
        ∙ route_full s threshold set (omega arith))
