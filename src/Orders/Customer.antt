-- ===== src/Orders/Customer.antt =====
-- What a customer's own cancellation has gone through.
use api_kitchen.Base.{
  ℕ, is_key, Bool-cases, Option-cases, Result, ok, find_row, ◌≡◌, refl, sym, ap, ◌∙◌, inl, inr,
  true, some, List, arith,
}
use api_kitchen.Orders.Status.{cancelled, pending, OrderStatus}
use api_kitchen.Store.{Store, Env}
use api_kitchen.Orders.Service.{
  update_status, is_waiting, customer_cancel, cancel_my_order, check_cancellation,
}
use api_kitchen.Orders.Restock.{route_cancelled, actual_of}
use api_kitchen.Orders.Parts.{update_status_ok}
use api_kitchen.Orders.Transitions.{status_of, update_status-status_of}
use api_kitchen.Orders.Tables.{Order, is_order}
use api_kitchen.Orders.AfterCommit.{Effect}

cancel_ok :
    (env : Env) (order user : ℕ) (s : Store) (fx : List Effect)
    → (cancel_my_order env order user s).0 ≡ ok fx
    → (o : Order) × (find_row (is_order order) s.orders ≡ some o)
      × (is_key o.user_id user ≡ true)
      × (is_waiting o.status ≡ true)
      × (cancel_my_order env order user s ≡ update_status env (customer_cancel order user) s)
unfolding cancel_my_order check_cancellation
cancel_ok env order user s fx e = elim (Option-cases (find_row (is_order order) s.orders)) [
  | inl nobody ↦ absurd (ground arith)
  | inr (o, found) ↦ elim (Bool-cases (is_key o.user_id user)) [
    | inr other ↦ absurd (ground arith)
    | inl own ↦ elim (Bool-cases (is_waiting o.status)) [
      | inr begun ↦ absurd (ground arith)
      | inl waits ↦
          (o, found, own, waits, rw (found, own, waits, cancel_my_order, check_cancellation) refl)
    ]
  ]
]

waiting_pending : (status : OrderStatus) → is_waiting status ≡ true → status ≡ pending
waiting_pending status e = ground arith

-- When a customer's cancellation returns, the order was the customer's own and was still pending,
-- and it ends as cancelled.
pub cancel_my_order_own :
    (env : Env) (order user : ℕ) (s : Store) (fx : List Effect)
    → (cancel_my_order env order user s).0 ≡ ok fx
    → (o : Order) × (find_row (is_order order) s.orders ≡ some o)
      × (is_key o.user_id user ≡ true)
      × (o.status ≡ pending)
      × (status_of order (cancel_my_order env order user s).1.orders ≡ some cancelled)
cancel_my_order_own env order user s fx e =
    let (o, found, own, waits, same) = cancel_ok env order user s fx e in
    let change = customer_cancel order user in
    let a = update_status_ok env change s fx (ap (λ r. r.0) (sym same) ∙ e) in
    (
      o,
      found,
      own,
      waiting_pending o.status waits,
      ap (λ (r : Result (List Effect) × Store). status_of order r.1.orders) same
          ∙ update_status-status_of env change s a
          ∙ ap some (actual_of env change s a ∙ route_cancelled s),
    )
