-- ===== src/Payments/Guarantee.antt =====
-- Card guarantees (app/modules/payments/guarantee.py): an authorised amount that is released,
-- captured, or settled in cash when the order is handed over.
use api_kitchen.Base.{
  ℕ, ltb, ◌==◌, if◌then◌else◌, order_not_found, guarantee_not_found, stripe_release_failed,
  capture_reason_required, invalid_capture_amount, stripe_capture_failed, cash_amount_insufficient,
  Result, ok, ◌>>=◌, ◌>>◌, raise_if, or_raise, Action, atomic, Text, strip, is_empty, find_row,
  change_row, ◌+◌, Bool, true, false, not, ◌&&◌, ◌||◌, Option, none, some, ◌∷◌,
}
use api_kitchen.Store.{Store, Env}
use api_kitchen.Payments.Tables.{
  sale, guarantee, cash, PaymentState, authorized, collected, released, Payment,
}
use api_kitchen.Orders.Tables.{
  PaymentStatus, paid, guarantee_released, guarantee_captured, Order, is_order,
}

abbrev pub is_authorized_guarantee : ℕ → Payment → Bool
is_authorized_guarantee order p =
    p.order_id == order
    && (elim p.purpose [ guarantee ↦ true | sale ↦ false ])
    && (elim p.status [ authorized ↦ true | _ ↦ false ])

abbrev pub settle : PaymentState → ℕ → Option ℕ → Payment → Payment
settle state now user p = record p {
  status = state;
  settled_at = some now;
  settled_by_user_id = user;
}

abbrev pub set_payment_status : PaymentStatus → Order → Order
set_payment_status status o = record o { payment_status = status }

abbrev pub mark_order : ℕ → PaymentStatus → Store → Store
mark_order order status s = record s {
  orders = change_row (is_order order) (set_payment_status status) s.orders;
}

abbrev pub mark_guarantee : ℕ → (Payment → Payment) → Store → Store
mark_guarantee order f s = record s {
  payments = change_row (is_authorized_guarantee order) f s.payments;
}

-- `release_guarantee` without `best_effort`.
unfoldable pub release_tx : Env → ℕ → PaymentStatus → Option ℕ → Store → Result (Unit {0} × Store)
release_tx env order status user s = do
  p ← or_raise (find_row (is_authorized_guarantee order) s.payments) guarantee_not_found 409
  raise_if (not env.stripe_accepts) stripe_release_failed 502
  ok (tt, mark_order order status (mark_guarantee order (settle released env.now user) s))

unfoldable pub release_guarantee : Env → ℕ → Option ℕ → Action Store (Unit {0})
release_guarantee env order user = atomic (release_tx env order guarantee_released user)

-- With `best_effort`: a failure is logged, and changes nothing.
unfoldable pub release_best_effort : Env → ℕ → Option ℕ → Store → Store
release_best_effort env order user s = (release_guarantee env order user s).1

abbrev pub or_all : Option ℕ → ℕ → ℕ
or_all none total = total
or_all (some cents) total = cents

-- The amount is an integer of cents that may not be positive; 0 stands for those that are not.
unfoldable pub capture_tx : Env → ℕ → Option ℕ → Text → Option ℕ → Store → Result (Unit {0} × Store)
capture_tx env order amount reason user s = do
  raise_if (is_empty (strip reason)) capture_reason_required 422
  p ← or_raise (find_row (is_authorized_guarantee order) s.payments) guarantee_not_found 409
  let cents = or_all amount p.amount
  raise_if (cents == 0 || ltb p.amount cents) invalid_capture_amount 422
  raise_if (not env.stripe_accepts) stripe_capture_failed 502
  let paid_up =
      λ (q : Payment). record (settle collected env.now user q) { captured_amount = some cents }
  ok (
    tt,
    mark_order order (if cents == p.amount then paid else guarantee_captured)
        (mark_guarantee order paid_up s),
  )

unfoldable pub capture_guarantee : Env → ℕ → Option ℕ → Text → Option ℕ → Action Store (Unit {0})
capture_guarantee env order amount reason user = atomic (capture_tx env order amount reason user)

abbrev pub is_short : Option ℕ → ℕ → Bool
is_short none total = false
is_short (some received) total = ltb received total

abbrev pub cash_payment : ℕ → Order → Option ℕ → Env → Option ℕ → Payment
cash_payment key o received env user = record {
  id = key;
  order_id = o.id;
  provider = cash;
  purpose = sale;
  amount = o.total;
  amount_received = received;
  captured_amount = none;
  status = collected;
  settled_at = some env.now;
  settled_by_user_id = user;
}

unfoldable pub settle_tx : Env → ℕ → Option ℕ → Option ℕ → Store → Result (Unit {0} × Store)
settle_tx env order received user s = do
  o ← or_raise (find_row (is_order order) s.orders) order_not_found 404
  raise_if (is_short received o.total) cash_amount_insufficient 422
  p ← or_raise (find_row (is_authorized_guarantee order) s.payments) guarantee_not_found 409
  raise_if (not env.stripe_accepts) stripe_release_failed 502
  let s₁ = mark_guarantee order (settle released env.now user) s
  let s₂ = record s₁ {
    payments = cash_payment s.next_payment_id o received env user ∷ s₁.payments;
    next_payment_id = s.next_payment_id + 1;
  }
  ok (tt, mark_order order paid s₂)

unfoldable pub settle_guarantee_cash : Env → ℕ → Option ℕ → Option ℕ → Action Store (Unit {0})
settle_guarantee_cash env order received user = atomic (settle_tx env order received user)
