-- ===== src/Orders/Service.antt =====
-- `update_status` and `cancel_my_order` of app/modules/orders/service.py, whole.
use api_kitchen.Base.{
  ℕ, if◌then◌else◌, is_key, order_not_found, order_cancel_not_allowed, ok, err, Action, find_row,
  Bool, true, false, not, none, some, List, text, Result,
}
use api_kitchen.Store.{Store, Env}
use api_kitchen.Orders.Update.{Change, admit, count_out_of_graph, apply_change}
use api_kitchen.Orders.Tables.{internal, is_order}
use api_kitchen.Orders.Status.{OrderStatus, pending, cancelled}
use api_kitchen.Orders.AfterCommit.{Effect, effects, after_commit}

-- The calls that were tried after the commit, or the error. An error is raised before the commit:
-- `update_status` does not roll back itself, the tables stay as they were because the session of its
-- caller is closed without a commit. The counter of changes outside the graph is no table, and keeps
-- what it counted.
unfoldable pub update_status : Env → Change → Action Store (List Effect)
update_status env c s = elim (admit c s) [
  | err e n ↦ (err e n, s)
  | ok o ↦
      let s₁ = count_out_of_graph c o s in
      elim (apply_change env c o s₁) [
        | err e n ↦ (err e n, s₁)
        | ok (actual, low, s₂) ↦
            (ok (effects actual low o), after_commit env c.actor_user_id actual o s₂)
      ]
]

abbrev pub is_waiting : OrderStatus → Bool
is_waiting pending = true
is_waiting _ = false

abbrev pub customer_cancel : ℕ → ℕ → Change
customer_cancel order user = record {
  order_id = order;
  status = cancelled;
  note = some (text "Cancelled by customer");
  actor_user_id = some user;
  authority = internal;
  delivery_proof = none;
  allow_redelivery = false;
}

-- The read before the customer's own cancellation, of a pending order only.
unfoldable pub check_cancellation : ℕ → ℕ → Store → Result (Unit {0})
check_cancellation order user s = elim (find_row (is_order order) s.orders) [
  | none ↦ err order_not_found 404
  | some o ↦
      if not (is_key o.user_id user)
      then err order_not_found 404
      else if not (is_waiting o.status)
      then err order_cancel_not_allowed 422
      else ok tt
]

-- The read takes no lock, `update_status` takes one: here nothing comes between the two.
unfoldable pub cancel_my_order : Env → ℕ → ℕ → Action Store (List Effect)
unfolding check_cancellation
cancel_my_order env order user s = elim (check_cancellation order user s) [
  | err e n ↦ (err e n, s)
  | ok t ↦ update_status env (customer_cancel order user) s
]
