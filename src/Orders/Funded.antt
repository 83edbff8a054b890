-- ===== src/Orders/Funded.antt =====
-- What the guards of `update_status` promise of an order that passed them, in terms of its columns.
use api_kitchen.Base.{
  Bool-cases, Option-cases, ok, Text, strip, is_empty, find_row, find_row_test, ◌≡◌, refl, sym,
  subst, ◌≢◌, ◌⊎◌, inl, inr, Bool, true, false, some, List, [], ◌∷◌, arith,
}
use api_kitchen.Orders.Status.{
  OrderStatus, pending, confirmed, queued, preparing, ready, out_for_delivery, delivered, cancelled,
  rejected, delivery_failed, valid_transition,
}
use api_kitchen.Delivery.Tables.{
  assigned, on_the_way, arrived, DeliveryStatus, is_live, Delivery, Settings,
}
use api_kitchen.Orders.Tables.{
  paid, guaranteed, OrderType, is_delivery, PaymentStatus, is_paid, is_guaranteed, Order,
  is_internal,
}
use api_kitchen.Store.{Store}
use api_kitchen.Orders.Update.{Change, is_covered, guards, is_redelivery, is_graph_transition}
use api_kitchen.Delivery.Lifecycle.{is_live_of, active_delivery, ensure_driver_for_departure}

-- The transition graph, as a relation.
pub data Edge : OrderStatus → OrderStatus → Type 0 where
  step_accept : Edge pending confirmed
  step_withdraw : Edge pending cancelled
  step_decline : Edge pending rejected
  step_start : Edge confirmed preparing
  step_call_back : Edge confirmed cancelled
  step_let_in : Edge queued confirmed
  step_leave_queue : Edge queued cancelled
  step_cook : Edge preparing ready
  step_stop : Edge preparing cancelled
  step_leave : Edge ready out_for_delivery
  step_pick_up : Edge ready delivered
  step_bring : Edge out_for_delivery delivered
  step_turn_back : Edge out_for_delivery cancelled
  step_fail : Edge out_for_delivery delivery_failed

valid_transition-Edge : (from to : OrderStatus) → valid_transition from to ≡ true → Edge from to
valid_transition-Edge pending confirmed e = step_accept
valid_transition-Edge pending cancelled e = step_withdraw
valid_transition-Edge pending rejected e = step_decline
valid_transition-Edge confirmed preparing e = step_start
valid_transition-Edge confirmed cancelled e = step_call_back
valid_transition-Edge queued confirmed e = step_let_in
valid_transition-Edge queued cancelled e = step_leave_queue
valid_transition-Edge preparing ready e = step_cook
valid_transition-Edge preparing cancelled e = step_stop
valid_transition-Edge ready out_for_delivery e = step_leave
valid_transition-Edge ready delivered e = step_pick_up
valid_transition-Edge out_for_delivery delivered e = step_bring
valid_transition-Edge out_for_delivery cancelled e = step_turn_back
valid_transition-Edge out_for_delivery delivery_failed e = step_fail
valid_transition-Edge _ _ e = absurd (cc)

-- The second delivery of a failed order, when the change allows it.
abbrev pub IsSecond : Change → OrderStatus → Type 0
IsSecond c from = (c.allow_redelivery ≡ true) × (from ≡ delivery_failed) × (c.status ≡ ready)

is_redelivery-ends :
    (from to : OrderStatus) → is_redelivery from to ≡ true → (from ≡ delivery_failed) × (to ≡ ready)
is_redelivery-ends delivery_failed ready e = (refl, refl)
is_redelivery-ends _ _ e = absurd (cc)

pub on_graph :
    (c : Change) (o : Order)
    → is_graph_transition c o ≡ true
    → Edge o.status c.status ⊎ IsSecond c o.status
on_graph c o e = elim (Bool-cases (valid_transition o.status c.status)) [
  | inl edge ↦ inl (valid_transition-Edge o.status c.status edge)
  | inr no_edge ↦
      let second : is_redelivery o.status c.status ≡ true = ground arith in
      let (was, again) = is_redelivery-ends o.status c.status second in
      inr (ground arith, was, again)
]

-- Paid, or guaranteed on an order that is by_ride to the customer.
abbrev pub IsFunded : Order → Type 0
IsFunded o =
    (o.payment_status ≡ paid)
    ⊎ ((o.payment_status ≡ guaranteed) × (o.order_type ≡ OrderType.delivery))

is_paid-status : (p : PaymentStatus) → is_paid p ≡ true → p ≡ paid
is_paid-status paid e = refl
is_paid-status _ e = absurd (cc)

is_guaranteed-status : (p : PaymentStatus) → is_guaranteed p ≡ true → p ≡ guaranteed
is_guaranteed-status guaranteed e = refl
is_guaranteed-status _ e = absurd (cc)

is_delivery-type : (t : OrderType) → is_delivery t ≡ true → t ≡ OrderType.delivery
is_delivery-type OrderType.delivery e = refl
is_delivery-type _ e = absurd (cc)

is_covered-IsFunded : (o : Order) → is_covered o ≡ true → IsFunded o
is_covered-IsFunded o e = elim (Bool-cases (is_paid o.payment_status)) [
  | inl by_card ↦ inl (is_paid-status o.payment_status by_card)
  | inr no_money ↦
      let held : is_guaranteed o.payment_status ≡ true = ground arith in
      let by_ride : is_delivery o.order_type ≡ true = ground arith in
      inr (is_guaranteed-status o.payment_status held, is_delivery-type o.order_type by_ride)
]

pub guards-IsFunded :
    (c : Change) (o : Order) (s : Store) → guards c o s ≡ ok tt → c.status ≡ confirmed → IsFunded o
unfolding guards
guards-IsFunded c o s passed asked = is_covered-IsFunded o (ground arith)

pub data Among (d : Delivery) : List Delivery → Type 0 where
  among_here : (ds : List Delivery) → Among d (d ∷ ds)
  among_there : (x : Delivery) (ds : List Delivery) → Among d ds → Among d (x ∷ ds)

find_row-Among :
    (p : Delivery → Bool) (ds : List Delivery) (d : Delivery) → find_row p ds ≡ some d → Among d ds
find_row-Among p [] d e = absurd (cc)
find_row-Among p (x ∷ ds) d e = elim (Bool-cases (p x)) [
  | inl hit ↦
      let same : x ≡ d = ground arith in subst (λ y. Among d (y ∷ ds)) (sym same) (among_here ds)
  | inr miss ↦ among_there x ds (find_row-Among p ds d (ground arith))
]

-- A delivery of the order that is assigned, on its way or at the door.
pub record HasDriver (o : Order) (s : Store) : Type 0 where
  pub ride : Delivery
  pub among : Among ride s.deliveries
  pub of_order : ride.order_id ≡ o.id
  pub under_way : (ride.status ≡ assigned) ⊎ (ride.status ≡ on_the_way) ⊎ (ride.status ≡ arrived)

is_live-status :
    (t : DeliveryStatus) → is_live t ≡ true → (t ≡ assigned) ⊎ (t ≡ on_the_way) ⊎ (t ≡ arrived)
is_live-status assigned e = inl refl
is_live-status on_the_way e = inr (inl refl)
is_live-status arrived e = inr (inr refl)
is_live-status _ e = absurd (cc)

active-HasDriver :
    (o : Order) (s : Store) (d : Delivery) → active_delivery o.id s ≡ some d → HasDriver o s
active-HasDriver o s d found =
    let test = find_row_test (is_live_of o.id) s.deliveries d found in
    let own : d.order_id ≡ o.id = ground arith in
    let live : is_live d.status ≡ true = ground arith in
    record {
      ride = d;
      among = find_row-Among (is_live_of o.id) s.deliveries d found;
      of_order = own;
      under_way = is_live-status d.status live;
    }

-- An order that leaves for a delivery, where drivers are dispatched.
pub guards-HasDriver :
    (c : Change) (o : Order) (s : Store) (r : Settings)
    → guards c o s ≡ ok tt
    → is_internal c.authority ≡ true
    → c.status ≡ out_for_delivery
    → o.order_type ≡ OrderType.delivery
    → s.settings ≡ some r
    → r.driver_dispatch_enabled ≡ true
    → HasDriver o s
unfolding guards ensure_driver_for_departure
guards-HasDriver c o s r passed own asked by_ride set on =
    elim (Option-cases (active_delivery o.id s)) [
      | inr (d, found) ↦ active-HasDriver o s d found
      | inl nobody ↦ absurd (ground arith)
    ]

pub guards-settled :
    (c : Change) (o : Order) (s : Store)
    → guards c o s ≡ ok tt
    → c.status ≡ delivered
    → o.payment_status ≢ guaranteed
unfolding guards
guards-settled c o s passed asked held = absurd (ground arith)

pub guards-noted :
    (c : Change) (o : Order) (s : Store)
    → guards c o s ≡ ok tt
    → is_internal c.authority ≡ true
    → c.status ≡ delivery_failed
    → (t : Text) × (c.note ≡ some t) × (is_empty (strip t) ≡ false)
unfolding guards
guards-noted c o s passed own asked = elim (Option-cases c.note) [
  | inl nothing ↦ absurd (ground arith)
  | inr (t, there) ↦ (t, there, ground arith)
]
