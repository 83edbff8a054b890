-- ===== src/Delivery/Takes.antt =====
-- What a driver takes, puts back or announces leaves each order with one live delivery.
use api_kitchen.Base.{
  ℕ, ok, find_row, change_row, count-change_row, ◌≤◌, ◌≡◌, true, some, List, arith, Option-cases,
  atomic-keeps, inl, inr,
}
use api_kitchen.Store.{Store, Env}
use api_kitchen.Delivery.Lifecycle.{is_live_of, finish}
use api_kitchen.Delivery.Claim.{is_delivery_row, own_delivery, release_tx_of, release}
use api_kitchen.Delivery.Tables.{called_off, is_live, Delivery, Driver}
use api_kitchen.Delivery.Arrive.{reach, arrive_tx, driver_arrived}
use api_kitchen.Delivery.OneLive.{live_count, OneLive}

-- A delivery that was live and keeps its order adds no live delivery to any order.
live_count-change_delivery :
    (k key : ℕ) (f : Delivery → Delivery) (ds : List Delivery) (d : Delivery)
    → find_row (is_delivery_row key) ds ≡ some d
    → is_live d.status ≡ true
    → (f d).order_id ≡ d.order_id
    → live_count k (change_row (is_delivery_row key) f ds) ≤ live_count k ds
live_count-change_delivery k key f ds d found live kept =
    ground (arith, count-change_row (is_delivery_row key) (is_live_of k) f ds d found)

pub own_delivery_ok :
    (driver : Driver) (key : ℕ) (s : Store) (d : Delivery)
    → own_delivery driver key s ≡ ok d
    → (find_row (is_delivery_row key) s.deliveries ≡ some d) × (d.driver_id ≡ driver.id)
unfolding own_delivery
own_delivery_ok driver key s d e = ground arith

-- A service on the driver's own delivery, which was live, that changes only its row.
arrive_tx-OneLive :
    (env : Env) (driver : Driver) (key user : ℕ) (s s' : Store)
    → OneLive s.deliveries
    → arrive_tx env driver key user s ≡ ok (tt, s')
    → OneLive s'.deliveries
unfolding arrive_tx own_delivery
arrive_tx-OneLive env driver key user s s' h e k =
    elim (Option-cases (find_row (is_delivery_row key) s.deliveries)) [
      | inl nobody ↦ absurd (ground arith)
      | inr (d, found) ↦
          ground (arith, h k, live_count-change_delivery k key (reach env.now) s.deliveries d found)
    ]

pub driver_arrived-OneLive :
    (env : Env) (driver : Driver) (key user : ℕ) (s : Store)
    → OneLive s.deliveries
    → OneLive (driver_arrived env driver key user s).1.deliveries
unfolding driver_arrived
driver_arrived-OneLive env driver key user s h =
    atomic-keeps (λ (t : Store). OneLive t.deliveries) (arrive_tx env driver key user) s h
      (λ done s' e. arrive_tx-OneLive env driver key user s s' h e)

release_tx-OneLive :
    (env : Env) (driver : Driver) (key user : ℕ) (s s' : Store)
    → OneLive s.deliveries
    → release_tx_of env driver key user s ≡ ok (tt, s')
    → OneLive s'.deliveries
unfolding release_tx_of own_delivery
release_tx-OneLive env driver key user s s' h e k =
    elim (Option-cases (find_row (is_delivery_row key) s.deliveries)) [
      | inl nobody ↦ absurd (ground arith)
      | inr (d, found) ↦ ground (
        arith,
        h k,
        live_count-change_delivery k key (finish called_off env.now) s.deliveries d found,
      )
    ]

pub release-OneLive :
    (env : Env) (driver : Driver) (key user : ℕ) (s : Store)
    → OneLive s.deliveries
    → OneLive (release env driver key user s).1.deliveries
unfolding release
release-OneLive env driver key user s h =
    atomic-keeps (λ (t : Store). OneLive t.deliveries) (release_tx_of env driver key user) s h
      (λ done s' e. release_tx-OneLive env driver key user s s' h e)
