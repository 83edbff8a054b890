-- ===== src/Delivery/Courier.antt =====
-- What the driver does with a delivery, and the hand-over without a code
-- (app/modules/delivery/dispatch_service.py: driver_depart, driver_deliver,
-- admin_deliver_without_code). The foreign key of a delivery gives its order.
use api_kitchen.Base.{
  ℕ, ltb, if◌then◌else◌, order_not_found, delivery_not_assigned_state, order_not_ready,
  delivery_not_en_route, delivery_code_required, cash_received_required, order_not_paid,
  override_reason_required, Result, ok, err, ◌>>=◌, ◌>>◌, raise_if, or_raise, Action, Text, text,
  strip, is_empty, text_len, find_row, Bool, true, false, not, ◌||◌, Option, none, some, List, [],
  ◌∷◌, ◌++◌,
}
use api_kitchen.Store.{Store, Env}
use api_kitchen.Payments.Guarantee.{settle_guarantee_cash}
use api_kitchen.Orders.Service.{update_status}
use api_kitchen.Orders.Update.{Change}
use api_kitchen.Orders.Tables.{is_paid, is_guaranteed, Order, internal, is_order}
use api_kitchen.Orders.Status.{OrderStatus, ready, out_for_delivery, delivered}
use api_kitchen.Delivery.Assign.{sort}
use api_kitchen.Delivery.Lifecycle.{active_delivery, add_event}
use api_kitchen.Delivery.Claim.{own_delivery}
use api_kitchen.Delivery.Rules.{is_proof_required}
use api_kitchen.Delivery.Tables.{
  DeliveryStatus, is_assigned, is_arrived, is_on_the_way, Proof, by_code, by_admin, not_required,
  delivered_without_code, said, Driver,
}
use api_kitchen.Delivery.Proof.{verify_code}

-- A change that the staff asks for, with the other arguments of `update_status` as they are by
-- default.
abbrev pub staff_change : ℕ → OrderStatus → Option Text → ℕ → Option Proof → Change
staff_change order status note user p = record {
  order_id = order;
  status = status;
  note = note;
  actor_user_id = some user;
  authority = internal;
  delivery_proof = p;
  allow_redelivery = false;
}

abbrev pub is_ready : OrderStatus → Bool
is_ready ready = true
is_ready _ = false

-- The orders of the deliveries that leave; each delivery must be the driver's, assigned and ready.
unfoldable pub check_departures : Driver → List ℕ → Store → Result (List ℕ)
check_departures driver [] s = ok []
check_departures driver (key ∷ keys) s = do
  d ← own_delivery driver key s
  raise_if (not (is_assigned d.status)) delivery_not_assigned_state 409
  o ← or_raise (find_row (is_order d.order_id) s.orders) order_not_ready 409
  raise_if (not (is_ready o.status)) order_not_ready 409
  orders ← check_departures driver keys s
  ok (d.order_id ∷ orders)

-- Each order leaves in a transaction of its own: an error keeps those that left before it.
unfoldable pub depart_all : Env → ℕ → List ℕ → Action Store (Unit {0})
depart_all env user [] s = (ok tt, s)
depart_all env user (order ∷ orders) s =
    let (r, s₁) = update_status env (staff_change order out_for_delivery none user none) s in
    let rest = depart_all env user orders s₁ in elim r [ err e n ↦ (err e n, s₁) | ok fx ↦ rest ]

unfoldable pub driver_depart : Env → Driver → List ℕ → ℕ → Action Store (Unit {0})
driver_depart env driver keys user s = elim (check_departures driver (sort keys) s) [
  | err e n ↦ (err e n, s)
  | ok orders ↦ depart_all env user orders s
]

abbrev pub is_en_route : DeliveryStatus → Bool
is_en_route status = is_on_the_way status || is_arrived status

-- A code that is there: `if code`.
abbrev pub given_code : Option Text → Option Text
given_code none = none
given_code (some code) = if is_empty code then none else some code

-- The proof of the hand-over, which comes before any settlement.
unfoldable pub prove : Env → ℕ → ℕ → ℕ → Option Text → Action Store Proof
prove env key order user code s = elim (given_code code) [
  | none ↦ if is_proof_required s then (err delivery_code_required 422, s) else (ok not_required, s)
  | some submitted ↦
      let (r, s₁) = verify_code env key order (some user) submitted s in
      (elim r [ err e n ↦ err e n | ok _ ↦ ok by_code ], s₁)
]

-- The settlement of an order, by its payment status as it was read at the start.
unfoldable pub settle_payment : Env → Order → Option ℕ → ℕ → Action Store (Unit {0})
settle_payment env o received user s =
    if is_guaranteed o.payment_status
    then elim received [
      | none ↦ (err cash_received_required 422, s)
      | some cents ↦ settle_guarantee_cash env o.id (some cents) (some user) s
    ]
    else (raise_if (not (is_paid o.payment_status)) order_not_paid 409, s)

-- The proof and the settlement are committed each on its own, before the order is delivered.
unfoldable pub conclude : Env → ℕ → Order → Option ℕ → Option Text → ℕ → Action Store (Unit {0})
conclude env key o received code user s =
    let (proved, s₁) = prove env key o.id user code s in
    elim proved [
      | err e n ↦ (err e n, s₁)
      | ok p ↦
          let (settled, s₂) = settle_payment env o received user s₁ in
          elim settled [
            | err e n ↦ (err e n, s₂)
            | ok _ ↦
                let (r, s₃) =
                  update_status env (staff_change o.id delivered none user (some p)) s₂ in
                (elim r [ err e n ↦ err e n | ok fx ↦ ok tt ], s₃)
          ]
    ]

unfoldable pub driver_deliver :
    Env → Driver → ℕ → Option ℕ → Option Text → ℕ → Action Store (Unit {0})
driver_deliver env driver key received code user s = elim (own_delivery driver key s) [
  | err e n ↦ (err e n, s)
  | ok d ↦
      if not (is_en_route d.status)
      then (err delivery_not_en_route 409, s)
      else elim (find_row (is_order d.order_id) s.orders) [
        | none ↦ (err order_not_found 404, s)
        | some o ↦ conclude env key o received code user s
      ]
]

abbrev pub without_code : Text → Text
without_code reason = text "Livraison sans code : " ++ reason

-- The event and the change of status are one transaction: a refusal takes the event back.
unfoldable pub admin_deliver_without_code : Env → ℕ → Text → ℕ → Action Store (Unit {0})
admin_deliver_without_code env order reason user s =
    let why = strip reason in
    if ltb (text_len why) 3
    then (err override_reason_required 422, s)
    else elim (active_delivery order s) [
      | none ↦ (err delivery_not_en_route 409, s)
      | some d ↦
          if not (is_en_route d.status)
          then (err delivery_not_en_route 409, s)
          else let s₁ = add_event d delivered_without_code (some user) (some (said why)) s in
            let change =
              staff_change order delivered (some (without_code why)) user (some by_admin) in
            let (r, s₂) = update_status env change s₁ in
            elim r [ err e n ↦ (err e n, s) | ok fx ↦ (ok tt, s₂) ]
    ]
