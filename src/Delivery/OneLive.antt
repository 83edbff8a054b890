-- ===== src/Delivery/OneLive.antt =====
-- An order has at most one live delivery, whatever the lifecycle does (the partial unique index
-- uq_deliveries_one_active_per_order of app/modules/delivery/models.py).
use api_kitchen.Base.{
  ℕ, Bool-cases, Option-cases, find_row, change_row, count_rows, find_row_test, find_row-count_zero,
  count-change_row, ◌≤◌, ◌≡◌, refl, ◌⊎◌, inl, inr, true, false, Option, none, some, List, arith,
}
use api_kitchen.Store.{Store, Env}
use api_kitchen.Orders.Tables.{is_delivery, Order}
use api_kitchen.Delivery.Lifecycle.{
  is_live_of, active_delivery, change_active, add_event, refresh_estimate, open_run, depart,
  on_departure, complete_run_if_done, finish, close_active,
}
use api_kitchen.Delivery.Tables.{DeliveryStatus, is_live, Delivery, EventKind, Note}

abbrev pub live_count : ℕ → List Delivery → ℕ
live_count order = count_rows (is_live_of order)

abbrev pub OneLive : List Delivery → Type 0
OneLive ds = (order : ℕ) → live_count order ds ≤ 1

-- A change of the live delivery that keeps its order adds no live delivery to any order.
pub live_count-change_row :
    (k order : ℕ) (f : Delivery → Delivery) (ds : List Delivery) (d : Delivery)
    → find_row (is_live_of order) ds ≡ some d
    → (f d).order_id ≡ d.order_id
    → live_count k (change_row (is_live_of order) f ds) ≤ live_count k ds
live_count-change_row k order f ds d found same = ground (
  arith,
  find_row_test (is_live_of order) ds d found,
  count-change_row (is_live_of order) (is_live_of k) f ds d found,
)

open_run-deliveries :
    (env : Env) (driver : ℕ) (s : Store) → (open_run env driver s).1.deliveries ≡ s.deliveries
unfolding open_run
open_run-deliveries env driver s = ground arith

complete_run-deliveries :
    (env : Env) (run : Option ℕ) (s : Store)
    → (complete_run_if_done env run s).deliveries ≡ s.deliveries
unfolding complete_run_if_done
complete_run-deliveries env none s = refl
complete_run-deliveries env (some run) s = ground arith

-- What a departure leaves in the deliveries, by the run that it joins.
on_departure-deliveries :
    (env : Env) (o : Order) (actor : Option ℕ) (s : Store) (d : Delivery)
    → is_delivery o.order_type ≡ true
    → active_delivery o.id s ≡ some d
    → (on_departure env o actor s).deliveries
      ≡ change_row (is_live_of o.id) (depart env.now (open_run env d.driver_id s).0) s.deliveries
unfolding on_departure refresh_estimate
on_departure-deliveries env o actor s d by_driver found =
    ground (arith, open_run-deliveries env d.driver_id s)

on_departure-skips :
    (env : Env) (o : Order) (actor : Option ℕ) (s : Store)
    → (is_delivery o.order_type ≡ false) ⊎ (active_delivery o.id s ≡ none)
    → (on_departure env o actor s).deliveries ≡ s.deliveries
unfolding on_departure refresh_estimate
on_departure-skips env o actor s why = ground arith

pub on_departure-OneLive :
    (env : Env) (o : Order) (actor : Option ℕ) (s : Store)
    → OneLive s.deliveries
    → OneLive (on_departure env o actor s).deliveries
on_departure-OneLive env o actor s h k = elim (Bool-cases (is_delivery o.order_type)) [
  | inr other_type ↦ rw (on_departure-skips env o actor s (inl other_type)) (h k)
  | inl by_driver ↦ elim (Option-cases (active_delivery o.id s)) [
    | inl nobody ↦ rw (on_departure-skips env o actor s (inr nobody)) (h k)
    | inr (d, found) ↦
        let leave = depart env.now (open_run env d.driver_id s).0 in
        rw (on_departure-deliveries env o actor s d by_driver found)
          (omega (arith, h k, live_count-change_row k o.id leave s.deliveries d found refl))
  ]
]

close_active-deliveries :
    (env : Env) (order : ℕ) (status : DeliveryStatus) (kind : EventKind) (actor : Option ℕ)
    (remark : Option Note) (s : Store) (d : Delivery)
    → active_delivery order s ≡ some d
    → (close_active env order status kind actor remark s).deliveries
      ≡ change_row (is_live_of order) (finish status env.now) s.deliveries
unfolding close_active
close_active-deliveries env order status kind actor remark s d found =
    let ended = change_active order (finish status env.now) s in
    let noted = add_event (finish status env.now d) kind actor remark ended in
    rw (found, close_active) (complete_run-deliveries env d.run_id noted)

close_active-skips :
    (env : Env) (order : ℕ) (status : DeliveryStatus) (kind : EventKind) (actor : Option ℕ)
    (remark : Option Note) (s : Store)
    → active_delivery order s ≡ none
    → close_active env order status kind actor remark s ≡ s
unfolding close_active
close_active-skips env order status kind actor remark s nobody = rw (nobody, close_active)

pub close_active-OneLive :
    (env : Env) (order : ℕ) (status : DeliveryStatus) (kind : EventKind) (actor : Option ℕ)
    (remark : Option Note) (s : Store)
    → OneLive s.deliveries
    → OneLive (close_active env order status kind actor remark s).deliveries
close_active-OneLive env order status kind actor remark s h k =
    elim (Option-cases (active_delivery order s)) [
      | inl nobody ↦ rw (close_active-skips env order status kind actor remark s nobody) (h k)
      | inr (d, found) ↦ rw (close_active-deliveries env order status kind actor remark s d found) (
          omega (
            arith,
            h k,
            live_count-change_row k order (finish status env.now) s.deliveries d found refl,
          ))
    ]

-- After a closing status the order has no live delivery left.
pub close_active_clears :
    (env : Env) (order : ℕ) (status : DeliveryStatus) (kind : EventKind) (actor : Option ℕ)
    (remark : Option Note) (s : Store)
    → OneLive s.deliveries
    → is_live status ≡ false
    → active_delivery order (close_active env order status kind actor remark s) ≡ none
close_active_clears env order status kind actor remark s h over =
    elim (Option-cases (active_delivery order s)) [
      | inl nobody ↦ rw (close_active-skips env order status kind actor remark s nobody) nobody
      | inr (d, found) ↦
          let after = change_row (is_live_of order) (finish status env.now) s.deliveries in
          rw (close_active-deliveries env order status kind actor remark s d found) (
            find_row-count_zero (is_live_of order) after (
              ground (
                arith,
                h order,
                find_row_test (is_live_of order) s.deliveries d found,
                count-change_row (is_live_of order) (is_live_of order) (finish status env.now)
                    s.deliveries d found,
              )))
    ]
