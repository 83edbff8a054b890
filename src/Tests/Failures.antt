-- ===== src/Tests/Failures.antt =====
-- Runs of the treatment of a failed delivery, and instances of its theorems.
use api_kitchen.Base.{
  ℕ, failure_already_resolved, err, text, find_row, ◌≡◌, refl, true, Option, none, some, [], ◌∷◌,
}
use api_kitchen.Store.{Store}
use api_kitchen.Tests.Orders.{dinner, kitchen_env, ride, kitchen_store}
use api_kitchen.Payments.Tables.{sale, stripe, collected, Payment}
use api_kitchen.Payments.Refunds.{refunded_cents}
use api_kitchen.Orders.Update.{set_status}
use api_kitchen.Orders.Tables.{Order, is_order}
use api_kitchen.Orders.Status.{delivery_failed}
use api_kitchen.Delivery.Resolved.{resolve_failure_once}
use api_kitchen.Delivery.Report.{clean_note}
use api_kitchen.Delivery.Retained.{Allowed, retained-Allowed}
use api_kitchen.Delivery.Resolve.{is_failure_row, resolve, resolve_failure}
use api_kitchen.Delivery.Tables.{
  failed, customer_absent, customer, by_refund, by_retention, by_redelivery, Failure,
}

-- Order 5 was paid by card and could not be handed over; the customer was absent.
abbrev absent : Failure
absent = record {
  id = 1;
  delivery_id = 4;
  order_id = 5;
  driver_id = 2;
  reason = customer_absent;
  fault = customer;
  note = none;
  call_attempts = 2;
  waited_seconds = some 400;
  is_pending = true;
  resolution = none;
  retained_cents = none;
  resolved_by_user_id = none;
  resolved_at = none;
  resolution_note = none;
}

abbrev card : Payment
card = record {
  id = 8;
  order_id = 5;
  provider = stripe;
  purpose = sale;
  amount = 2500;
  amount_received = none;
  captured_amount = none;
  status = collected;
  settled_at = none;
  settled_by_user_id = none;
}

abbrev not_delivered : Store
not_delivered = record kitchen_store {
  orders = set_status delivery_failed dinner ∷ [];
  deliveries = record ride { status = failed } ∷ [];
  failures = absent ∷ [];
  payments = card ∷ [];
}

abbrev kept_five : Store
kept_five =
    (resolve_failure kitchen_env 1 by_retention (some 500) (some (text "door")) 3 not_delivered).1

-- The rest goes back to the customer.
kept_five_lem : refunded_cents 8 kept_five.refunds ≡ 2000
unfolding resolve_failure api_kitchen.Delivery.Resolve.check_resolution
    api_kitchen.Delivery.Resolve.treat api_kitchen.Delivery.Resolve.retain_fee
    api_kitchen.Delivery.Resolve.check_retention api_kitchen.Base.strip
    api_kitchen.Delivery.Resolve.keep_cents api_kitchen.Payments.Refunds.create_refund
    api_kitchen.Payments.Refunds.check_refund api_kitchen.Payments.Refunds.collected_cents
    api_kitchen.Payments.Refunds.check_amount api_kitchen.Payments.Refunds.settle_refund
    api_kitchen.Delivery.Resolve.close_failure api_kitchen.Payments.Refunds.post_refund
kept_five_lem = refl

abbrev closed : Failure
closed = resolve kitchen_env by_retention (some 500) (some (text "door")) 3 absent

retained-Allowed_example :
    (o : Order) × (find_row (is_order 5) not_delivered.orders ≡ some o)
    × Allowed closed o (some 500) (clean_note (some (text "door"))) 500
unfolding resolve_failure api_kitchen.Delivery.Resolve.check_resolution
    api_kitchen.Delivery.Resolve.treat api_kitchen.Delivery.Resolve.retain_fee
    api_kitchen.Delivery.Resolve.check_retention api_kitchen.Base.strip
    api_kitchen.Delivery.Resolve.keep_cents api_kitchen.Payments.Refunds.create_refund
    api_kitchen.Payments.Refunds.check_refund api_kitchen.Payments.Refunds.collected_cents
    api_kitchen.Payments.Refunds.check_amount api_kitchen.Payments.Refunds.settle_refund
    api_kitchen.Delivery.Resolve.close_failure api_kitchen.Payments.Refunds.post_refund
retained-Allowed_example =
    retained-Allowed kitchen_env 1 by_retention (some 500) (some (text "door")) 3 500 not_delivered
      kept_five closed refl refl refl

-- A second delivery takes no code of the first.
abbrev again : Store
again = (resolve_failure kitchen_env 1 by_redelivery none none 3 not_delivered).1

resolve_failure_once_example :
    (f : Failure) × (find_row (is_failure_row 1) not_delivered.failures ≡ some f)
    × (f.is_pending ≡ true)
    × (kept : Option ℕ) × (find_row (is_failure_row 1) again.failures
        ≡ some (resolve kitchen_env by_redelivery kept (clean_note none) 3 f))
    × (resolve_failure kitchen_env 1 by_refund none none 6 again
        ≡ (err failure_already_resolved 409, again))
unfolding resolve_failure api_kitchen.Delivery.Resolve.check_resolution
    api_kitchen.Delivery.Resolve.treat api_kitchen.Delivery.Resolve.send_again
    api_kitchen.Orders.Service.update_status api_kitchen.Orders.Update.admit
    api_kitchen.Orders.Update.guards api_kitchen.Orders.Update.apply_change
    api_kitchen.Orders.Update.settle_stock api_kitchen.Orders.Update.route
resolve_failure_once_example =
    resolve_failure_once kitchen_env kitchen_env 1 by_redelivery by_refund none none none none 3 6
      not_delivered again refl
