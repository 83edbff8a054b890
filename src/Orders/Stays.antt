-- ===== src/Orders/Stays.antt =====
-- A status that ends an order is never left.
use api_kitchen.Base.{
  ℕ, ◌==◌, Bool-cases, ErrorCode, Result, ok, err, find_row, change_row, All, ◌≡◌, refl, ap, subst,
  ◌∙◌, ◌⊎◌, inl, inr, Bool, true, false, ◌&&◌, ◌||◌, some, List, [], ◌∷◌, arith,
}
use api_kitchen.Store.{Store, Env}
use api_kitchen.Orders.Service.{update_status}
use api_kitchen.Orders.Update.{
  Change, is_redelivery, is_graph_transition, count_out_of_graph, set_status, write_status, follow,
}
use api_kitchen.Orders.Parts.{
  count_out_of_graph-Agrees, update_status_ok, apply_change_ok, admit_ok,
}
use api_kitchen.Orders.Transitions.{status_of, follow-status_of, after_commit-status_of}
use api_kitchen.Orders.Tables.{Order, is_internal, is_order}
use api_kitchen.Orders.Keeps.{settle_stock-Agrees}
use api_kitchen.Orders.Status.{
  OrderStatus, delivered, cancelled, rejected, delivery_failed, valid_transition,
}
use api_kitchen.Orders.AfterCommit.{Effect}

-- A change of another order is not seen either.
status_of_other :
    (key k : ℕ) (status : OrderStatus) (os : List Order)
    → (k == key) ≡ false
    → status_of key (change_row (is_order k) (set_status status) os) ≡ status_of key os
status_of_other key k status [] apart = refl
status_of_other key k status (o ∷ os) apart = ground (arith, status_of_other key k status os)

refused-orders :
    (env : Env) (c : Change) (s : Store) (e : ErrorCode) (n : ℕ)
    → (update_status env c s).0 ≡ err e n
    → (update_status env c s).1.orders ≡ s.orders
unfolding update_status
refused-orders env c s e n refused = ground arith

pub update_status-status_of_other :
    (env : Env) (c : Change) (s : Store) (key : ℕ)
    → (c.order_id == key) ≡ false
    → status_of key (update_status env c s).1.orders ≡ status_of key s.orders
update_status-status_of_other env c s key apart = go (update_status env c s).0 refl
  where
    go :
        (r : Result (List Effect))
        → (update_status env c s).0 ≡ r
        → status_of key (update_status env c s).1.orders ≡ status_of key s.orders
    go (err e n) k = ap (status_of key) (refused-orders env c s e n k)
    go (ok fx) k =
        let a = update_status_ok env c s fx k in
        let s₁ = count_out_of_graph c a.order s in
        let (routed, settled) =
          apply_change_ok env c a.order s₁ a.actual a.low a.committed a.applied in
        let written = write_status c a.actual s₁ in
        let followed = follow env c a.order a.actual written in
        let stock = settle_stock-Agrees env c a.order a.actual followed a.low a.committed settled in
        rw
          (
            a.tables,
            after_commit-status_of env c.actor_user_id a.actual a.order key a.committed,
            stock.orders,
            follow-status_of env c a.order a.actual key written,
          )
          (status_of_other key c.order_id a.actual s₁.orders apart
            ∙ ap (status_of key) ((count_out_of_graph-Agrees c a.order s).orders))

abbrev pub is_final : OrderStatus → Bool
is_final delivered = true
is_final cancelled = true
is_final rejected = true
is_final delivery_failed = true
is_final _ = false

-- A change that the restaurant itself asks for, and that is not a second delivery.
abbrev pub IsOwn : Change → Type 0
IsOwn c = (is_internal c.authority ≡ true) × (c.allow_redelivery ≡ false)

final-is_graph_transition :
    (c : Change) (o : Order)
    → is_final o.status ≡ true
    → c.allow_redelivery ≡ false
    → is_graph_transition c o ≡ false
final-is_graph_transition c o final once = elim-final o.status final
  where
    elim-final :
        (status : OrderStatus)
        → is_final status ≡ true
        → (valid_transition status c.status
            || (c.allow_redelivery && is_redelivery status c.status))
          ≡ false
    elim-final delivered f = ground arith
    elim-final cancelled f = ground arith
    elim-final rejected f = ground arith
    elim-final delivery_failed f = ground arith
    elim-final _ f = cc

pub status_of_found :
    (key : ℕ) (os : List Order) (o : Order) (status : OrderStatus)
    → find_row (is_order key) os ≡ some o
    → status_of key os ≡ some status
    → o.status ≡ status
status_of_found key os o status found e = ground arith

update_status-final :
    (env : Env) (c : Change) (s : Store) (status : OrderStatus)
    → IsOwn c
    → is_final status ≡ true
    → status_of c.order_id s.orders ≡ some status
    → status_of c.order_id (update_status env c s).1.orders ≡ some status
update_status-final env c s status (own, once) final e = go (update_status env c s).0 refl
  where
    go :
        (r : Result (List Effect))
        → (update_status env c s).0 ≡ r
        → status_of c.order_id (update_status env c s).1.orders ≡ some status
    go (err x n) k = ap (status_of c.order_id) (refused-orders env c s x n k) ∙ e
    go (ok fx) k =
        let a = update_status_ok env c s fx k in
        let (found, guarded, lawful) = admit_ok c s a.order a.admitted in
        let at = status_of_found c.order_id s.orders a.order status found e in
        let outside = final-is_graph_transition c a.order (rw at final) once in
        absurd (ground arith)

-- Changes served one after the other.
abbrev pub serve_changes : List (Env × Change) → Store → Store
serve_changes [] s = s
serve_changes ((env, c) ∷ cs) s = serve_changes cs (update_status env c s).1

abbrev pub OwnChange : Env × Change → Type 0
OwnChange call = IsOwn call.1

-- An order that was delivered, cancelled, rejected or failed keeps that status whatever changes of
-- status are asked for afterwards, on any orders, as long as the restaurant itself asks and none
-- of them is the second delivery of a failed order.
pub serve_changes-final :
    (key : ℕ) (status : OrderStatus) (cs : List (Env × Change)) (s : Store)
    → is_final status ≡ true
    → All OwnChange cs
    → status_of key s.orders ≡ some status
    → status_of key (serve_changes cs s).orders ≡ some status
serve_changes-final key status [] s final own e = e
serve_changes-final key status ((env, c) ∷ cs) s final own e =
    serve_changes-final key status cs (update_status env c s).1 final own.1
      (step (Bool-cases (c.order_id == key)))
  where
    step :
        ((c.order_id == key) ≡ true) ⊎ ((c.order_id == key) ≡ false)
        → status_of key (update_status env c s).1.orders ≡ some status
    step (inr apart) = update_status-status_of_other env c s key apart ∙ e
    step (inl hit) =
        let same : c.order_id ≡ key = ground arith in
        subst (λ k. status_of k (update_status env c s).1.orders ≡ some status) same
          (update_status-final env c s status own.0 final (rw same e))
