-- ===== src/Orders/Transitions.antt =====
-- The status graph, as `update_status` keeps it.
use api_kitchen.Base.{
  ℕ, Bool-cases, Option-cases, find_row, change_row, count_rows, ◌≡◌, refl, ap, ◌∙◌, inl, inr,
  Option, none, some, List, [], ◌∷◌, arith,
}
use api_kitchen.Store.{Store, Env}
use api_kitchen.Payments.Guarantee.{
  set_payment_status, release_tx, release_guarantee, release_best_effort,
}
use api_kitchen.Orders.Service.{update_status}
use api_kitchen.Orders.Update.{Change, count_out_of_graph, set_status, write_status, follow}
use api_kitchen.Orders.Parts.{Applied, count_out_of_graph-Agrees, apply_change_ok, admit_ok}
use api_kitchen.Orders.Tables.{is_delivery, guarantee_released, Order, is_order}
use api_kitchen.Orders.Keeps.{settle_stock-Agrees}
use api_kitchen.Orders.Status.{
  OrderStatus, out_for_delivery, delivered, cancelled, rejected, delivery_failed,
}
use api_kitchen.Orders.AfterCommit.{set_nonce, ensure_nonce, after_commit}
use api_kitchen.Delivery.Lifecycle.{
  active_delivery, set_estimate, refresh_estimate, open_run, is_other_stop, on_departure,
  complete_run_if_done, close_active, on_delivered, on_order_closed,
}
use api_kitchen.Delivery.Tables.{DeliveryStatus, EventKind, Note}

abbrev pub status_of : ℕ → List Order → Option OrderStatus
status_of key os = elim (find_row (is_order key) os) [ none ↦ none | some o ↦ some o.status ]

-- A change of orders that keeps their keys and statuses is not seen by `status_of`.
status_of-change_row :
    (key k : ℕ) (f : Order → Order) (os : List Order)
    → ((o : Order) → ((f o).id ≡ o.id) × ((f o).status ≡ o.status))
    → status_of key (change_row (is_order k) f os) ≡ status_of key os
status_of-change_row key k f [] same = refl
status_of-change_row key k f (o ∷ os) same =
    ground (arith, same o, status_of-change_row key k f os same)

pub status_of-set_status :
    (key : ℕ) (status : OrderStatus) (os : List Order) (o : Order)
    → find_row (is_order key) os ≡ some o
    → status_of key (change_row (is_order key) (set_status status) os) ≡ some status
status_of-set_status key status [] o e = cc
status_of-set_status key status (x ∷ os) o e = ground (arith, status_of-set_status key status os o)

set_estimate_keeps :
    (minutes : Option ℕ) (now : ℕ) (o : Order)
    → ((set_estimate minutes now o).id ≡ o.id) × ((set_estimate minutes now o).status ≡ o.status)
set_estimate_keeps none now o = (refl, refl)
set_estimate_keeps (some m) now o = (refl, refl)

open_run-orders : (env : Env) (driver : ℕ) (s : Store) → (open_run env driver s).1.orders ≡ s.orders
unfolding open_run
open_run-orders env driver s = ground arith

refresh_estimate-status_of :
    (env : Env) (o : Order) (stops key : ℕ) (s : Store)
    → status_of key (refresh_estimate env o stops s).orders ≡ status_of key s.orders
unfolding refresh_estimate
refresh_estimate-status_of env o stops key s =
    status_of-change_row key o.id (set_estimate (env.departure_minutes o stops) env.now) s.orders
      (set_estimate_keeps (env.departure_minutes o stops) env.now)

on_departure-status_of :
    (env : Env) (o : Order) (actor : Option ℕ) (key : ℕ) (s : Store)
    → status_of key (on_departure env o actor s).orders ≡ status_of key s.orders
unfolding on_departure
on_departure-status_of env o actor key s = elim (Bool-cases (is_delivery o.order_type)) [
  | inr other_type ↦ rw (other_type, on_departure) refl
  | inl by_driver ↦ elim (Option-cases (active_delivery o.id s)) [
    | inl nobody ↦ rw (by_driver, nobody, on_departure) (refresh_estimate-status_of env o 0 key s)
    | inr (d, found) ↦
        let (run, s₁) = open_run env d.driver_id s in
        let others = count_rows (is_other_stop run d.id) s₁.deliveries in
        rw (by_driver, found, on_departure)
          (refresh_estimate-status_of env o others key s₁
            ∙ ap (status_of key) (open_run-orders env d.driver_id s))
  ]
]

close_active-orders :
    (env : Env) (order : ℕ) (status : DeliveryStatus) (kind : EventKind) (actor : Option ℕ)
    (remark : Option Note) (s : Store)
    → (close_active env order status kind actor remark s).orders ≡ s.orders
unfolding close_active complete_run_if_done
close_active-orders env order status kind actor remark s = ground arith

pub follow-status_of :
    (env : Env) (c : Change) (o : Order) (status : OrderStatus) (key : ℕ) (s : Store)
    → status_of key (follow env c o status s).orders ≡ status_of key s.orders
unfolding follow on_delivered on_order_closed
follow-status_of env c o out_for_delivery key s = on_departure-status_of env o c.actor_user_id key s
follow-status_of env c o delivered key s =
    ap (status_of key) (close_active-orders env o.id _ _ _ _ s)
follow-status_of env c o cancelled key s =
    ap (status_of key) (close_active-orders env o.id _ _ _ _ s)
follow-status_of env c o rejected key s =
    ap (status_of key) (close_active-orders env o.id _ _ _ _ s)
follow-status_of env c o delivery_failed key s =
    ap (status_of key) (close_active-orders env o.id _ _ _ _ s)
follow-status_of env c o _ key s = refl

release-status_of :
    (env : Env) (order : ℕ) (user : Option ℕ) (key : ℕ) (s : Store)
    → status_of key (release_best_effort env order user s).orders ≡ status_of key s.orders
unfolding release_best_effort release_guarantee release_tx
release-status_of env order user key s = ground (
  arith,
  status_of-change_row key order (set_payment_status guarantee_released) s.orders
      (λ (o : Order). (refl, refl)),
)

set_nonce_keeps :
    (nonce : ℕ) (o : Order)
    → ((set_nonce nonce o).id ≡ o.id) × ((set_nonce nonce o).status ≡ o.status)
set_nonce_keeps nonce o = ground arith

pub after_commit-status_of :
    (env : Env) (actor : Option ℕ) (actual : OrderStatus) (o : Order) (key : ℕ) (s : Store)
    → status_of key (after_commit env actor actual o s).orders ≡ status_of key s.orders
unfolding after_commit ensure_nonce
after_commit-status_of env actor actual o key s =
    let s₁ = release_best_effort env o.id actor s in
    ground (
      arith,
      release-status_of env o.id actor key s,
      status_of-change_row key o.id (set_nonce env.fresh_nonce) s₁.orders
          (set_nonce_keeps env.fresh_nonce),
      status_of-change_row key o.id (set_nonce env.fresh_nonce) s.orders
          (set_nonce_keeps env.fresh_nonce),
    )

-- What a change that returned has written on its order.
pub update_status-status_of :
    (env : Env) (c : Change) (s : Store) (a : Applied env c s)
    → status_of c.order_id (update_status env c s).1.orders ≡ some a.actual
update_status-status_of env c s a =
    let s₁ = count_out_of_graph c a.order s in
    let (routed, settled) = apply_change_ok env c a.order s₁ a.actual a.low a.committed a.applied in
    let written = write_status c a.actual s₁ in
    let followed = follow env c a.order a.actual written in
    let stock = settle_stock-Agrees env c a.order a.actual followed a.low a.committed settled in
    let found = (admit_ok c s a.order a.admitted).0 in
    rw
      (
        a.tables,
        after_commit-status_of env c.actor_user_id a.actual a.order c.order_id a.committed,
        stock.orders,
        follow-status_of env c a.order a.actual c.order_id written,
      )
      (status_of-set_status c.order_id a.actual s₁.orders a.order
        (rw ((count_out_of_graph-Agrees c a.order s).orders) found))
