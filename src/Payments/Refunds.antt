-- ===== src/Payments/Refunds.antt =====
-- Refunds (app/modules/payments/service.py: create_refund, _collected_cents,
-- _refunded_amount_cents).
use api_kitchen.Base.{
  ℕ, ltb, leb, ◌==◌, if◌then◌else◌, order_not_found, refund_reason_required, refund_not_allowed,
  payment_not_found, refund_already_complete, invalid_refund_amount, refund_amount_exceeds_payment,
  stripe_refund_failed, Result, ok, err, ◌>>=◌, ◌>>◌, raise_if, or_raise, Action, Text, strip,
  is_empty, find_row, change_row, sum_rows, ◌+◌, ◌-◌, Bool, true, false, not, ◌&&◌, ◌||◌, Option,
  none, some, List, ◌∷◌, is_some, integrity_error, text_eq,
}
use api_kitchen.Orders.Status.{cancelled, OrderStatus, delivered, delivery_failed}
use api_kitchen.Store.{Store, Env}
use api_kitchen.Payments.Guarantee.{or_all}
use api_kitchen.Payments.Tables.{
  Purpose, sale, guarantee, Provider, stripe, collected, refunded, partially_refunded, Payment,
  RefundState, refund_pending, refund_succeeded, refund_failed, Refund, RefundId, stripe_refund,
  manual_refund, failed_refund,
}
use api_kitchen.Orders.Tables.{is_order}

-- `payment.status in PAYMENT_STATUS_PAID`.
abbrev pub is_refundable : ℕ → Payment → Bool
is_refundable order p =
    p.order_id == order
    && (elim p.status [ collected ↦ true | partially_refunded ↦ true | _ ↦ false ])

abbrev pub is_guarantee : Purpose → Bool
is_guarantee guarantee = true
is_guarantee sale = false

-- The cents that were really taken.
unfoldable pub collected_cents : Payment → ℕ
collected_cents p = elim p.captured_amount [
  | none ↦ p.amount
  | some cents ↦ if is_guarantee p.purpose then cents else p.amount
]

abbrev pub counts : RefundState → Bool
counts refund_pending = true
counts refund_succeeded = true
counts refund_failed = false

abbrev pub is_refund_of : ℕ → Refund → Bool
is_refund_of payment r = r.payment_id == payment && counts r.status

abbrev pub refund_amount : Refund → ℕ
refund_amount r = r.amount

abbrev pub refunded_cents : ℕ → List Refund → ℕ
refunded_cents payment = sum_rows (is_refund_of payment) refund_amount

-- `order.status in {"cancelled", "delivered", "delivery_failed"}`.
abbrev pub is_over : OrderStatus → Bool
is_over cancelled = true
is_over delivered = true
is_over delivery_failed = true
is_over _ = false

-- `payment.provider in MANUAL_PAYMENT_PROVIDERS`.
abbrev pub is_manual : Provider → Bool
is_manual stripe = false
is_manual _ = true

-- The payment, and what is left of it to refund.
unfoldable pub check_refund : ℕ → Text → Bool → Store → Result (Payment × ℕ)
check_refund order reason allowed s = do
  raise_if (is_empty (strip reason)) refund_reason_required 422
  o ← or_raise (find_row (is_order order) s.orders) order_not_found 404
  raise_if (not allowed && not (is_over o.status)) refund_not_allowed 400
  p ← or_raise (find_row (is_refundable order) s.payments) payment_not_found 404
  let taken = collected_cents p
  let given = refunded_cents p.id s.refunds
  raise_if (leb taken given) refund_already_complete 409
  ok (p, taken - given)

-- The amount in cents; 0 stands for the integers that are not positive.
unfoldable pub check_amount : Option ℕ → ℕ → Result ℕ
check_amount asked remaining = do
  let cents = or_all asked remaining
  raise_if (cents == 0) invalid_refund_amount 422
  raise_if (ltb remaining cents) refund_amount_exceeds_payment 422
  ok cents

abbrev pub new_refund : ℕ → Payment → RefundId → ℕ → Text → RefundState → Option ℕ → Refund
new_refund order p key cents reason status user = record {
  order_id = order;
  payment_id = p.id;
  stripe_refund_id = key;
  amount = cents;
  reason = reason;
  status = status;
  created_by_user_id = user;
}

abbrev pub same_refund_id : RefundId → RefundId → Bool
same_refund_id (stripe_refund x) (stripe_refund y) = text_eq x y
same_refund_id (manual_refund p t) (manual_refund q u) = (p == q) && (t == u)
same_refund_id (failed_refund p t) (failed_refund q u) = (p == q) && (t == u)
same_refund_id _ _ = false

-- The unique column `stripe_refund_id`.
abbrev pub is_id_taken : RefundId → List Refund → Bool
is_id_taken key rs = is_some (find_row (λ r. same_refund_id key r.stripe_refund_id) rs)

abbrev pub granted_id : Env → Payment → RefundId
granted_id env p =
    if is_manual p.provider then manual_refund p.id env.now else stripe_refund env.stripe_refund_id

abbrev pub mark_refunded : Bool → Payment → Payment
mark_refunded whole p = record p { status = if whole then refunded else partially_refunded }

unfoldable pub post_refund : RefundId → ℕ → Payment → ℕ → Text → Option ℕ → Store → Store
post_refund key order p cents reason user s =
    let total = refunded_cents p.id s.refunds + cents in
    record s {
      payments =
          change_row (is_refundable order) (mark_refunded (leb (collected_cents p) total))
            s.payments;
      refunds = new_refund order p key cents reason refund_succeeded user ∷ s.refunds;
    }

-- A refusal of Stripe is committed as a failed refund before it is raised. An id that is taken ends
-- the commit with an error of the database, and no row is written.
unfoldable pub settle_refund : Env → ℕ → Payment → ℕ → Text → Option ℕ → Action Store (Unit {0})
settle_refund env order p cents reason user s =
    if is_manual p.provider || env.stripe_accepts
    then if is_id_taken (granted_id env p) s.refunds
      then (err integrity_error 500, s)
      else (ok tt, post_refund (granted_id env p) order p cents reason user s)
    else if is_id_taken (failed_refund p.id env.now) s.refunds
    then (err integrity_error 500, s)
    else (
      err stripe_refund_failed 502,
      record s {
        refunds =
            new_refund order p (failed_refund p.id env.now) cents reason refund_failed user
            ∷ s.refunds;
      },
    )

-- No lock is taken: `check_refund` reads, Stripe is called, and `settle_refund` writes. Here nothing
-- comes between the two; what a refund in between does is `settle_refund` on another store than the
-- one that was read.
unfoldable pub create_refund : Env → ℕ → Option ℕ → Option ℕ → Text → Bool → Action Store (Unit {0})
create_refund env order user asked reason allowed s = elim (check_refund order reason allowed s) [
  | err e n ↦ (err e n, s)
  | ok (p, remaining) ↦ elim (check_amount asked remaining) [
    | err e n ↦ (err e n, s)
    | ok cents ↦ settle_refund env order p cents (strip reason) user s
  ]
]
