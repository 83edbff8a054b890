-- ===== src/Delivery/Arrive.antt =====
-- The driver's arrival at the door (app/modules/delivery/dispatch_service.py: driver_arrived).
use api_kitchen.Base.{
  ℕ, if◌then◌else◌, delivery_not_en_route, Result, ok, ◌>>=◌, ◌>>◌, raise_if, Action, atomic, not,
  none, some,
}
use api_kitchen.Store.{Store, Env}
use api_kitchen.Delivery.Lifecycle.{add_event}
use api_kitchen.Delivery.Claim.{own_delivery, change_delivery}
use api_kitchen.Delivery.Tables.{arrived, is_arrived, is_on_the_way, Delivery, at_door, Driver}

abbrev pub reach : ℕ → Delivery → Delivery
reach now d = record d { status = arrived; arrived_at = some now }

-- A second announcement changes nothing.
unfoldable pub arrive_tx : Env → Driver → ℕ → ℕ → Store → Result (Unit {0} × Store)
arrive_tx env driver key user s = do
  d ← own_delivery driver key s
  if is_arrived d.status
      then ok (tt, s)
      else raise_if (not (is_on_the_way d.status)) delivery_not_en_route 409
        >> ok (
          tt,
          add_event (reach env.now d) at_door (some user) none
              (change_delivery key (reach env.now) s),
        )

unfoldable pub driver_arrived : Env → Driver → ℕ → ℕ → Action Store (Unit {0})
driver_arrived env driver key user = atomic (arrive_tx env driver key user)
