-- ===== src/Tests/Payments.antt =====
-- Runs of the refunds, and instances of their theorems.
use api_kitchen.Base.{
  text, find_row, change_row, ◌≡◌, refl, true, false, none, some, [], ◌∷◌, arith, ℕ, ◌≤◌, Option,
  ok, strip,
}
use api_kitchen.Store.{Store}
use api_kitchen.Tests.Orders.{dinner, kitchen_env, kitchen_store}
use api_kitchen.Payments.Whole.{refund_whole}
use api_kitchen.Payments.Tables.{
  sale, cash_register, collected, Payment, guarantee, stripe, authorized,
}
use api_kitchen.Payments.Refunds.{
  is_refundable, collected_cents, refunded_cents, mark_refunded, create_refund, check_refund,
  post_refund, settle_refund,
}
use api_kitchen.Payments.Covered.{IsCovered, RefundRequest, refund_all, refund_all-IsCovered}
use api_kitchen.Orders.Update.{set_status}
use api_kitchen.Orders.Status.{delivered}
use api_kitchen.Payments.Guarantee.{is_authorized_guarantee, capture_guarantee}
use api_kitchen.Payments.Capture.{taken_in, capture_within}

abbrev card : Payment
card = record {
  id = 1;
  order_id = 5;
  provider = cash_register;
  purpose = sale;
  amount = 2500;
  amount_received = none;
  captured_amount = none;
  status = collected;
  settled_at = none;
  settled_by_user_id = none;
}

abbrev till : Store
till = record kitchen_store { orders = set_status delivered dinner ∷ []; payments = card ∷ [] }

till-IsCovered : IsCovered till
till-IsCovered = record { keys = (refl, tt); covered = (omega arith, tt) }

abbrev half : RefundRequest
half = record { order = 5; user = some 3; asked = some 1500; reason = text "cold"; allowed = false }

refund_all-IsCovered_example :
    IsCovered (refund_all ((kitchen_env, half) ∷ (kitchen_env, half) ∷ []) till)
refund_all-IsCovered_example =
    refund_all-IsCovered ((kitchen_env, half) ∷ (kitchen_env, half) ∷ []) till till-IsCovered

-- Two refunds that are checked together are both granted: the payment gives back twice its amount.
overlapping_refunds_lem :
    let late_env = record kitchen_env { now = 2000 } in
    let s = (settle_refund kitchen_env 5 card 2500 (text "cold") (some 3) till).1 in
    (check_refund 5 (text "cold") false till ≡ ok (card, 2500))
    × (refunded_cents 1 (settle_refund late_env 5 card 2500 (text "cold") (some 4) s).1.refunds
        ≡ 5000)
unfolding check_refund settle_refund post_refund collected_cents strip
overlapping_refunds_lem = (refl, refl)

refund_whole_example :
    let s' = (create_refund kitchen_env 5 (some 3) none (text "cold") false till).1 in
    (p : Payment) × (find_row (is_refundable 5) till.payments ≡ some p)
    × (refunded_cents p.id s'.refunds ≡ collected_cents p)
    × (s'.payments ≡ change_row (is_refundable 5) (mark_refunded true) till.payments)
unfolding create_refund api_kitchen.Payments.Refunds.check_refund api_kitchen.Base.strip
    collected_cents api_kitchen.Payments.Refunds.check_amount
    api_kitchen.Payments.Refunds.settle_refund
refund_whole_example =
    refund_whole kitchen_env 5 (some 3) (text "cold") false till
      (create_refund kitchen_env 5 (some 3) none (text "cold") false till).1 refl

abbrev hold : Payment
hold = record card { provider = stripe; purpose = guarantee; status = authorized }

abbrev held_till : Store
held_till = record kitchen_store { payments = hold ∷ [] }

abbrev fee : Option ℕ
fee = some 700

capture_within_example :
    let s' = (capture_guarantee kitchen_env 5 fee (text "absent") (some 3) held_till).1 in
    (p : Payment) × (find_row (is_authorized_guarantee 5) held_till.payments ≡ some p)
    × ((cents : ℕ) × (1 ≤ cents)
        × (cents ≤ p.amount)
        × (fee ≡ none → cents ≡ p.amount)
        × (s'.payments
            ≡ change_row
                (is_authorized_guarantee 5)
                (taken_in cents 1000 (some 3))
                held_till.payments))
unfolding capture_guarantee api_kitchen.Payments.Guarantee.capture_tx api_kitchen.Base.strip
capture_within_example =
    capture_within kitchen_env 5 fee (text "absent") (some 3) held_till
      (capture_guarantee kitchen_env 5 fee (text "absent") (some 3) held_till).1 refl
