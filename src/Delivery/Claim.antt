-- ===== src/Delivery/Claim.antt =====
-- Orders that a driver takes, and puts back (app/modules/delivery/dispatch_service.py: claim,
-- _claim_locked, release). The unique index that the source falls back on is the theorem on live
-- deliveries, so its error has no branch here.
use api_kitchen.Base.{
  ℕ, ltb, ◌==◌, is_some, order_not_found, driver_inactive, driver_not_clocked_in,
  order_not_delivery, delivery_already_started, order_not_assignable, driver_wrong_establishment,
  delivery_not_found, dispatch_disabled, self_assign_disabled, order_ids_invalid,
  order_already_taken, driver_capacity_reached, Result, ok, ◌>>=◌, ◌>>◌, raise_if, or_raise, Action,
  atomic, find_row, change_row, count_rows, suc, Bool, true, false, not, ◌&&◌, ◌||◌, none, some,
  List, [], ◌∷◌,
}
use api_kitchen.Store.{Store, Env}
use api_kitchen.Orders.Tables.{is_delivery, is_order}
use api_kitchen.Orders.Status.{is_assignable}
use api_kitchen.Delivery.Assign.{sort, is_elsewhere, create_delivery, check_known}
use api_kitchen.Delivery.Lifecycle.{is_dispatch_enabled, active_delivery, add_event, finish}
use api_kitchen.Delivery.Rules.{get_effective, is_present, is_driver}
use api_kitchen.Delivery.Tables.{
  called_off, is_live, is_assigned, Delivery, claimed, released_by_driver, Driver,
}

abbrev pub is_busy : ℕ → Delivery → Bool
is_busy driver d = d.driver_id == driver && is_live d.status

-- `_active_count`.
abbrev pub active_count : ℕ → List Delivery → ℕ
active_count driver = count_rows (is_busy driver)

unfoldable pub claim_one : Env → ℕ → ℕ → ℕ → ℕ → Store → Result Store
claim_one env driver establishment user order s = do
  o ← or_raise (find_row (is_order order) s.orders) order_not_found 404
  raise_if (not (is_delivery o.order_type)) order_not_delivery 422
  raise_if (is_elsewhere o establishment) driver_wrong_establishment 409
  raise_if (is_some (active_delivery order s)) order_already_taken 409
  raise_if (not (is_assignable o.status)) order_not_assignable 409
  ok (create_delivery env driver order claimed user s)

unfoldable pub claim_all : Env → ℕ → ℕ → ℕ → List ℕ → Store → Result Store
claim_all env driver establishment user [] s = ok s
claim_all env driver establishment user (order ∷ orders) s = do
  s' ← claim_one env driver establishment user order s
  claim_all env driver establishment user orders s'

abbrev pub is_in : ℕ → List ℕ → Bool
is_in k [] = false
is_in k (j ∷ js) = j == k || is_in k js

abbrev pub has_repeat : List ℕ → Bool
has_repeat [] = false
has_repeat (k ∷ ks) = is_in k ks || has_repeat ks

abbrev pub is_no_order : List ℕ → Bool
is_no_order [] = true
is_no_order (_ ∷ _) = false

abbrev pub count_orders : List ℕ → ℕ
count_orders [] = 0
count_orders (_ ∷ ks) = suc (count_orders ks)

unfoldable pub claim_tx : Env → Driver → List ℕ → ℕ → Store → Result (Unit {0} × Store)
claim_tx env driver orders user s = do
  raise_if (not (is_dispatch_enabled s)) dispatch_disabled 409
  let rules = get_effective driver.establishment_id s
  raise_if (not rules.self_assign) self_assign_disabled 409
  raise_if (is_no_order orders || has_repeat orders) order_ids_invalid 422
  raise_if (ltb 10 (count_orders orders)) order_ids_invalid 422
  locked ← or_raise (find_row (is_driver driver.id) s.drivers) driver_inactive 403
  raise_if (not locked.is_active) driver_inactive 403
  raise_if (not (is_present locked.user_id s)) driver_not_clocked_in 409
  check_known orders s
  s' ← claim_all env driver.id driver.establishment_id user (sort orders) s
  raise_if (ltb rules.max_active_deliveries (active_count driver.id s'.deliveries))
      driver_capacity_reached 409
  ok (tt, s')

unfoldable pub claim : Env → Driver → List ℕ → ℕ → Action Store (Unit {0})
claim env driver orders user = atomic (claim_tx env driver orders user)

abbrev pub is_delivery_row : ℕ → Delivery → Bool
is_delivery_row key d = d.id == key

-- `_own_delivery`: the delivery of another driver is not found either.
unfoldable pub own_delivery : Driver → ℕ → Store → Result Delivery
own_delivery driver key s = do
  d ← or_raise (find_row (is_delivery_row key) s.deliveries) delivery_not_found 404
  raise_if (not (d.driver_id == driver.id)) delivery_not_found 404
  ok d

abbrev pub change_delivery : ℕ → (Delivery → Delivery) → Store → Store
change_delivery key f s = record s { deliveries = change_row (is_delivery_row key) f s.deliveries }

unfoldable pub release_tx_of : Env → Driver → ℕ → ℕ → Store → Result (Unit {0} × Store)
release_tx_of env driver key user s = do
  raise_if (not (get_effective driver.establishment_id s).self_assign) self_assign_disabled 409
  d ← own_delivery driver key s
  raise_if (not (is_assigned d.status)) delivery_already_started 409
  let put_back = finish called_off env.now
  ok (
    tt,
    add_event (put_back d) released_by_driver (some user) none (change_delivery key put_back s),
  )

unfoldable pub release : Env → Driver → ℕ → ℕ → Action Store (Unit {0})
release env driver key user = atomic (release_tx_of env driver key user)
