-- ===== src/Delivery/Assign.antt =====
-- The assignment of orders to a driver by the counter (app/modules/delivery/dispatch_service.py:
-- assign, unassign).
use api_kitchen.Base.{
  ℕ, leb, ◌==◌, if◌then◌else◌, is_some, order_not_found, driver_not_found, driver_inactive,
  driver_not_clocked_in, order_not_delivery, delivery_already_started, order_not_assignable,
  driver_wrong_establishment, delivery_not_found, Result, ok, ◌>>=◌, ◌>>◌, raise_if, or_raise,
  Action, atomic, find_row, ◌+◌, Bool, false, not, Option, none, some, List, [], ◌∷◌, ◌++◌,
}
use api_kitchen.Store.{Store, Env}
use api_kitchen.Orders.Tables.{is_delivery, Order, is_order}
use api_kitchen.Orders.Status.{is_assignable}
use api_kitchen.Delivery.Lifecycle.{active_delivery, change_active, add_event, finish}
use api_kitchen.Delivery.Rules.{is_present, is_driver}
use api_kitchen.Delivery.Tables.{
  assigned, called_off, is_assigned, Delivery, EventKind, was_assigned, reassigned, unassigned,
  from_driver, Driver,
}

-- `sorted`.
abbrev pub insert : ℕ → List ℕ → List ℕ
insert k [] = k ∷ []
insert k (j ∷ js) = if leb k j then k ∷ j ∷ js else j ∷ insert k js

abbrev pub sort : List ℕ → List ℕ
sort [] = []
sort (k ∷ ks) = insert k (sort ks)

-- The live delivery, when it has left already.
abbrev pub is_started : Option Delivery → Bool
is_started none = false
is_started (some d) = not (is_assigned d.status)

abbrev pub is_elsewhere : Order → ℕ → Bool
is_elsewhere o establishment = elim o.establishment_id [
  | none ↦ false
  | some e ↦ not (e == establishment)
]

abbrev pub new_delivery : ℕ → ℕ → ℕ → ℕ → ℕ → Delivery
new_delivery key order driver actor now = record {
  id = key;
  order_id = order;
  driver_id = driver;
  run_id = none;
  status = assigned;
  assigned_at = now;
  assigned_by_user_id = some actor;
  departed_at = none;
  arrived_at = none;
  finished_at = none;
}

-- A new delivery, with its event.
unfoldable pub create_delivery : Env → ℕ → ℕ → EventKind → ℕ → Store → Store
create_delivery env driver order kind actor s =
    let d = new_delivery s.next_delivery_id order driver actor env.now in
    add_event d kind (some actor) none
      (record s { deliveries = d ∷ s.deliveries; next_delivery_id = s.next_delivery_id + 1 })

abbrev pub hand_to : ℕ → ℕ → ℕ → Delivery → Delivery
hand_to driver actor now d = record d {
  driver_id = driver;
  assigned_by_user_id = some actor;
  assigned_at = now;
}

-- The list holds the order if something changed.
unfoldable pub place : Env → ℕ → ℕ → ℕ → Store → List ℕ × Store
place env driver actor order s = elim (active_delivery order s) [
  | none ↦ (order ∷ [], create_delivery env driver order was_assigned actor s)
  | some d ↦ if d.driver_id == driver then ([], s) else (
    order ∷ [],
    add_event (hand_to driver actor env.now d) reassigned (some actor)
        (some (from_driver d.driver_id)) (change_active order (hand_to driver actor env.now) s),
  )
]

unfoldable pub assign_one : Env → Driver → ℕ → ℕ → Store → Result (List ℕ × Store)
assign_one env d actor order s = do
  o ← or_raise (find_row (is_order order) s.orders) order_not_found 404
  raise_if (not (is_delivery o.order_type)) order_not_delivery 422
  raise_if (is_started (active_delivery order s)) delivery_already_started 409
  raise_if (not (is_assignable o.status)) order_not_assignable 409
  raise_if (is_elsewhere o d.establishment_id) driver_wrong_establishment 409
  ok (place env d.id actor order s)

unfoldable pub assign_all : Env → Driver → ℕ → List ℕ → Store → Result (List ℕ × Store)
assign_all env d actor [] s = ok ([], s)
assign_all env d actor (order ∷ orders) s = do
  (changed, s₁) ← assign_one env d actor order s
  (others, s₂) ← assign_all env d actor orders s₁
  ok (changed ++ others, s₂)

-- `missing`: each order must be there before the first of them is looked at.
unfoldable pub check_known : List ℕ → Store → Result (Unit {0})
check_known [] s = ok tt
check_known (order ∷ orders) s =
    raise_if (not (is_some (find_row (is_order order) s.orders))) order_not_found 404
    >> check_known orders s

unfoldable pub assign_tx : Env → List ℕ → ℕ → ℕ → Store → Result (List ℕ × Store)
assign_tx env orders driver actor s = do
  d ← or_raise (find_row (is_driver driver) s.drivers) driver_not_found 404
  raise_if (not d.is_active) driver_inactive 409
  raise_if (not (is_present d.user_id s)) driver_not_clocked_in 409
  check_known orders s
  assign_all env d actor (sort orders) s

-- The orders that the driver is told about, which are those that changed hands. All or nothing.
unfoldable pub assign : Env → List ℕ → ℕ → ℕ → Action Store (List ℕ)
assign env orders driver actor = atomic (assign_tx env orders driver actor)

unfoldable pub unassign_tx : Env → ℕ → ℕ → Store → Result (Delivery × Store)
unassign_tx env order actor s = do
  o ← or_raise (find_row (is_order order) s.orders) order_not_found 404
  d ← or_raise (active_delivery order s) delivery_not_found 404
  raise_if (not (is_assigned d.status)) delivery_already_started 409
  let called_off_now = finish called_off env.now
  ok (
    called_off_now d,
    add_event (called_off_now d) unassigned (some actor) none
        (change_active order called_off_now s),
  )

unfoldable pub unassign : Env → ℕ → ℕ → Action Store Delivery
unassign env order actor = atomic (unassign_tx env order actor)
