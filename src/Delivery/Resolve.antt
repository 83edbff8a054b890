-- ===== src/Delivery/Resolve.antt =====
-- The treatment of a failed delivery (app/modules/delivery/failures.py: resolve_failure; an unknown
-- action has no branch). The source gives its locks back between the check and the treatment; here no
-- other request stands between the two.
use api_kitchen.Base.{
  ℕ, ltb, ◌==◌, if◌then◌else◌, ErrorCode, refund_already_complete, guarantee_not_found,
  failure_not_found, failure_already_resolved, retain_not_allowed, retain_amount_invalid,
  resolution_note_required, retain_not_possible, redelivery_not_possible, attribute_error, Result,
  ok, err, ◌>>=◌, ◌>>◌, raise_if, or_raise, Action, Text, text, find_row, change_row, ◌-◌, Bool,
  true, false, not, ◌||◌, Option, none, some, ◌∷◌, ◌++◌, List,
}
use api_kitchen.Store.{Store, Env}
use api_kitchen.Payments.Guarantee.{release_guarantee, capture_guarantee}
use api_kitchen.Payments.Refunds.{create_refund}
use api_kitchen.Orders.Service.{update_status}
use api_kitchen.Orders.Update.{Change}
use api_kitchen.Orders.Tables.{
  PaymentStatus, paid, guaranteed, guarantee_captured, Order, internal, is_order,
}
use api_kitchen.Orders.Status.{ready}
use api_kitchen.Delivery.Claim.{is_delivery_row}
use api_kitchen.Delivery.Report.{clean_note, first_chars, cut_note}
use api_kitchen.Delivery.Tables.{
  Delivery, failure_resolved, Note, said, Event, Fault, customer, restaurant, Resolution, by_refund,
  by_retention, by_redelivery, Failure,
}
use api_kitchen.Orders.AfterCommit.{Effect}

abbrev pub is_failure_row : ℕ → Failure → Bool
is_failure_row key f = f.id == key

-- `_ALREADY_DONE`.
abbrev pub is_already_done : ErrorCode → Bool
is_already_done refund_already_complete = true
is_already_done guarantee_not_found = true
is_already_done _ = false

-- `payment_status in {"paid", "guarantee_captured"}`.
abbrev pub is_settled : PaymentStatus → Bool
is_settled paid = true
is_settled guarantee_captured = true
is_settled _ = false

abbrev pub is_guaranteed_status : PaymentStatus → Bool
is_guaranteed_status guaranteed = true
is_guaranteed_status _ = false

abbrev pub is_of_restaurant : Fault → Bool
is_of_restaurant restaurant = true
is_of_restaurant customer = false

abbrev pub action_text : Resolution → Text
action_text by_refund = text "refund"
action_text by_retention = text "retain"
action_text by_redelivery = text "redeliver"

abbrev pub reason_text : Resolution → Option Text → Text
reason_text action none = first_chars 256 (text "delivery_failed_" ++ action_text action)
reason_text action (some words) = first_chars 256 words

-- The failure, when it waits for a treatment, and its order.
unfoldable pub check_resolution : ℕ → Store → Result (Failure × Order)
check_resolution key s = do
  f ← or_raise (find_row (is_failure_row key) s.failures) failure_not_found 404
  raise_if (not f.is_pending) failure_already_resolved 409
  o ← or_raise (find_row (is_order f.order_id) s.orders) attribute_error 500
  ok (f, o)

abbrev pub keep_nothing : Result (Unit {0}) × Store → Result (Option ℕ) × Store
keep_nothing (ok _, s) = (ok none, s)
keep_nothing (err e n, s) = (err e n, s)

abbrev pub keep_some : ℕ → Result (Unit {0}) × Store → Result (Option ℕ) × Store
keep_some cents (ok _, s) = (ok (some cents), s)
keep_some cents (err e n, s) = (err e n, s)

-- What was kept from the customer, nothing in the other branches.
unfoldable pub give_back : Env → Order → Text → ℕ → Action Store (Option ℕ)
give_back env o reason admin s =
    if is_settled o.payment_status
    then keep_nothing (create_refund env o.id (some admin) none reason true s)
    else if is_guaranteed_status o.payment_status
    then keep_nothing (release_guarantee env o.id (some admin) s)
    else (ok none, s)

-- The amount and the note that a retention needs; 0 stands for the amounts that are not positive.
unfoldable pub check_retention : Failure → Order → Option ℕ → Option Text → Result (ℕ × Text)
check_retention f o amount words = do
  raise_if (is_of_restaurant f.fault) retain_not_allowed 409
  cents ← or_raise amount retain_amount_invalid 422
  raise_if (cents == 0 || ltb o.total cents) retain_amount_invalid 422
  why ← or_raise words resolution_note_required 422
  ok (cents, why)

unfoldable pub keep_cents : Env → Order → ℕ → Text → Text → ℕ → Action Store (Option ℕ)
keep_cents env o cents why reason admin s =
    if is_guaranteed_status o.payment_status
    then keep_some cents (capture_guarantee env o.id (some cents) why (some admin) s)
    else if not (is_settled o.payment_status)
    then (err retain_not_possible 409, s)
    else if ltb cents o.total
    then keep_some cents
        (create_refund env o.id (some admin) (some (o.total - cents)) reason true s)
    else (ok (some cents), s)

unfoldable pub retain_fee :
    Env → Failure → Order → Option ℕ → Option Text → Text → ℕ → Action Store (Option ℕ)
retain_fee env f o amount words reason admin s = elim (check_retention f o amount words) [
  | err e n ↦ (err e n, s)
  | ok (cents, why) ↦ keep_cents env o cents why reason admin s
]

abbrev pub new_nonce : ℕ → Order → Order
new_nonce nonce o = record o { delivery_code_nonce = some nonce }

abbrev pub regenerate_nonce : Env → ℕ → Store → Store
regenerate_nonce env order s = record s {
  orders = change_row (is_order order) (new_nonce env.fresh_nonce) s.orders;
}

abbrev pub or_default : Option Text → Text
or_default none = text "Relivraison"
or_default (some words) = words

abbrev pub redelivery : Order → Option Text → ℕ → Change
redelivery o words admin = record {
  order_id = o.id;
  status = ready;
  note = some (or_default words);
  actor_user_id = some admin;
  authority = internal;
  delivery_proof = none;
  allow_redelivery = true;
}

abbrev pub can_redeliver : PaymentStatus → Bool
can_redeliver paid = true
can_redeliver guaranteed = true
can_redeliver _ = false

-- A refused change of status is rolled back.
abbrev pub or_back : Store → Result (List Effect) × Store → Result (Option ℕ) × Store
or_back s (ok fx, s₁) = (ok none, s₁)
or_back s (err e n, s₁) = (err e n, s)

-- The new code is part of the transaction of the change of status.
unfoldable pub send_again : Env → Order → Option Text → ℕ → Action Store (Option ℕ)
send_again env o words admin s =
    if can_redeliver o.payment_status
    then or_back s (update_status env (redelivery o words admin) (regenerate_nonce env o.id s))
    else (err redelivery_not_possible 409, s)

unfoldable pub treat :
    Env → Resolution → Failure → Order → Option ℕ → Option Text → ℕ → Action Store (Option ℕ)
treat env by_refund f o amount words admin s = give_back env o (reason_text by_refund words) admin s
treat env by_retention f o amount words admin s =
    retain_fee env f o amount words (reason_text by_retention words) admin s
treat env by_redelivery f o amount words admin s = send_again env o words admin s

abbrev pub resolve : Env → Resolution → Option ℕ → Option Text → ℕ → Failure → Failure
resolve env action kept words admin f = record f {
  is_pending = false;
  resolution = some action;
  retained_cents = kept;
  resolved_by_user_id = some admin;
  resolved_at = some env.now;
  resolution_note = cut_note words;
}

abbrev pub note_of_resolution : Resolution → Option Text → Note
note_of_resolution action none = said (action_text action)
note_of_resolution action (some why) =
    said (first_chars 256 (action_text action ++ (text ": " ++ why)))

abbrev pub id_of_delivery : Option Delivery → Option ℕ
id_of_delivery none = none
id_of_delivery (some d) = some d.id

abbrev pub driver_of_delivery : Option Delivery → Option ℕ
driver_of_delivery none = none
driver_of_delivery (some d) = some d.driver_id

abbrev pub resolution_event : Resolution → Option Text → ℕ → Failure → Option Delivery → Event
resolution_event action why admin f found = record {
  delivery_id = id_of_delivery found;
  order_id = f.order_id;
  driver_id = driver_of_delivery found;
  event = failure_resolved;
  actor_user_id = some admin;
  note = some (note_of_resolution action why);
}

unfoldable pub close_failure :
    Env → Resolution → Option ℕ → Option Text → ℕ → Failure → Store → Store
close_failure env action kept why admin f s = record s {
  failures = change_row (is_failure_row f.id) (resolve env action kept why admin) s.failures;
  events =
      resolution_event action why admin f (find_row (is_delivery_row f.delivery_id) s.deliveries)
      ∷ s.events;
}

-- A treatment that was done already counts as done.
unfoldable pub resolve_failure :
    Env → ℕ → Resolution → Option ℕ → Option Text → ℕ → Action Store (Unit {0})
resolve_failure env key action amount raw_note admin s = elim (check_resolution key s) [
  | err e n ↦ (err e n, s)
  | ok (f, o) ↦
      let why = clean_note raw_note in
      let (r, s₁) = treat env action f o amount why admin s in
      elim r [
        | ok kept ↦ (ok tt, close_failure env action kept why admin f s₁)
        | err e n ↦
            if is_already_done e
            then (ok tt, close_failure env action none why admin f s₁)
            else (err e n, s₁)
      ]
]
