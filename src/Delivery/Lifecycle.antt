-- ===== src/Delivery/Lifecycle.antt =====
-- app/modules/delivery/lifecycle.py: a delivery follows its order, inside the transaction of
-- `update_status`.
use api_kitchen.Base.{
  ℕ, ◌==◌, if◌then◌else◌, is_key, is_some, driver_required, Result, raise_if, find_row, change_row,
  count_rows, ◌+◌, ◌*◌, Bool, true, false, not, ◌&&◌, Option, none, some, ◌∷◌,
}
use api_kitchen.Store.{Store, Env}
use api_kitchen.Orders.Tables.{is_delivery, Order, is_order}
use api_kitchen.Orders.Status.{OrderStatus, delivery_failed}
use api_kitchen.Delivery.Tables.{
  DeliveryStatus, on_the_way, handed_over, failed, called_off, is_live, Delivery, Run, Proof,
  EventKind, departed, was_delivered, was_failed, was_cancelled, Note, with_proof, closed_by,
}

-- Without a row of settings, dispatch by drivers is off.
abbrev pub is_dispatch_enabled : Store → Bool
is_dispatch_enabled s = elim s.settings [ none ↦ false | some r ↦ r.driver_dispatch_enabled ]

abbrev pub is_live_of : ℕ → Delivery → Bool
is_live_of order d = d.order_id == order && is_live d.status

abbrev pub active_delivery : ℕ → Store → Option Delivery
active_delivery order s = find_row (is_live_of order) s.deliveries

-- An assignment to the delivery that `active_delivery` returned.
abbrev pub change_active : ℕ → (Delivery → Delivery) → Store → Store
change_active order f s = record s { deliveries = change_row (is_live_of order) f s.deliveries }

-- `add_event` for a delivery; its driver goes into the row.
abbrev pub add_event : Delivery → EventKind → Option ℕ → Option Note → Store → Store
add_event d kind actor note s = record s {
  events =
      record {
        delivery_id = some d.id;
        order_id = d.order_id;
        driver_id = some d.driver_id;
        event = kind;
        actor_user_id = actor;
        note = note;
      }
      ∷ s.events;
}

unfoldable pub ensure_driver_for_departure : Order → Store → Result (Unit {0})
ensure_driver_for_departure o s =
    raise_if
      (is_delivery o.order_type && is_dispatch_enabled s && not (is_some (active_delivery o.id s)))
      driver_required 409

abbrev pub set_estimate : Option ℕ → ℕ → Order → Order
set_estimate none now o = o
set_estimate (some minutes) now o = record o { estimated_delivery_at = some (now + 60 * minutes) }

-- Without an estimate, the one that was made with the order stays.
unfoldable pub refresh_estimate : Env → Order → ℕ → Store → Store
refresh_estimate env o stops s = record s {
  orders =
      change_row (is_order o.id) (set_estimate (env.departure_minutes o stops) env.now) s.orders;
}

abbrev pub is_open_run : ℕ → Run → Bool
is_open_run driver r = r.driver_id == driver && r.is_active

-- The run that the driver is on, or a new one.
unfoldable pub open_run : Env → ℕ → Store → ℕ × Store
open_run env driver s = elim (find_row (is_open_run driver) s.runs) [
  | some r ↦ (r.id, s)
  | none ↦ (
    s.next_run_id,
    record s {
      runs =
          record {
            id = s.next_run_id;
            driver_id = driver;
            is_active = true;
            started_at = env.now;
            ended_at = none;
          }
          ∷ s.runs;
      next_run_id = s.next_run_id + 1;
    },
  )
]

abbrev pub is_other_stop : ℕ → ℕ → Delivery → Bool
is_other_stop run key d = is_key d.run_id run && not (d.id == key) && is_live d.status

abbrev pub depart : ℕ → ℕ → Delivery → Delivery
depart now run d = record d { status = on_the_way; departed_at = some now; run_id = some run }

unfoldable pub on_departure : Env → Order → Option ℕ → Store → Store
on_departure env o actor s =
    if is_delivery o.order_type
    then elim (active_delivery o.id s) [
      | none ↦ refresh_estimate env o 0 s
      | some d ↦
          let (run, s₁) = open_run env d.driver_id s in
          let others = count_rows (is_other_stop run d.id) s₁.deliveries in
          let s₂ = refresh_estimate env o others s₁ in
          let s₃ = change_active o.id (depart env.now run) s₂ in
          add_event (depart env.now run d) departed actor none s₃
    ]
    else s

abbrev pub is_on_run : ℕ → Delivery → Bool
is_on_run run d = is_key d.run_id run && is_live d.status

abbrev pub is_run : ℕ → Run → Bool
is_run key r = r.id == key

abbrev pub end_run : ℕ → Run → Run
end_run now r = if r.is_active then record r { is_active = false; ended_at = some now } else r

unfoldable pub complete_run_if_done : Env → Option ℕ → Store → Store
complete_run_if_done env none s = s
complete_run_if_done env (some run) s =
    if count_rows (is_on_run run) s.deliveries == 0
    then record s { runs = change_row (is_run run) (end_run env.now) s.runs }
    else s

-- The proof of delivery is wanted when it is switched on and the order has a driver.
unfoldable pub proof_required_for : Order → Store → Bool
proof_required_for o s =
    is_delivery o.order_type
    && (elim s.settings [ none ↦ false | some r ↦ r.delivery_proof_required ])
    && is_some (active_delivery o.id s)

abbrev pub finish : DeliveryStatus → ℕ → Delivery → Delivery
finish status now d = record d { status = status; finished_at = some now }

-- The end of the live delivery of an order, with its event; the run ends with its last delivery.
unfoldable pub close_active :
    Env → ℕ → DeliveryStatus → EventKind → Option ℕ → Option Note → Store → Store
close_active env order status kind actor note s = elim (active_delivery order s) [
  | none ↦ s
  | some d ↦
      let s₁ = change_active order (finish status env.now) s in
      let s₂ = add_event (finish status env.now d) kind actor note s₁ in
      complete_run_if_done env d.run_id s₂
]

abbrev pub proof_note : Option Proof → Option Note
proof_note none = none
proof_note (some p) = some (with_proof p)

unfoldable pub on_delivered : Env → Order → Option ℕ → Option Proof → Store → Store
on_delivered env o actor p s =
    close_active env o.id handed_over was_delivered actor (proof_note p) s

abbrev pub is_delivery_failed : OrderStatus → Bool
is_delivery_failed delivery_failed = true
is_delivery_failed _ = false

unfoldable pub on_order_closed : Env → Order → OrderStatus → Option ℕ → Store → Store
on_order_closed env o new_status actor s =
    if is_delivery_failed new_status
    then close_active env o.id failed was_failed actor (some (closed_by new_status)) s
    else close_active env o.id called_off was_cancelled actor (some (closed_by new_status)) s
