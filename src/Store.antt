-- ===== src/Store.antt =====
-- The database of one tenant, as far as orders, deliveries, payments and their stock go: one record
-- of tables, the newest row of each first, with the key sequences that the services draw from.
use api_kitchen.Base.{ℕ, Bool, Option, List, Text}
use api_kitchen.Base.Int.{ℤ}
use api_kitchen.Payments.Tables.{Payment, Refund}
use api_kitchen.Stock.Tables.{Ingredient, Movement}
use api_kitchen.Hr.Tables.{Employee, ClockEntry}
use api_kitchen.Orders.Tables.{Order, History, Item, Promotion}
use api_kitchen.Delivery.Tables.{
  Delivery, Run, Event, Driver, Settings, DispatchSettings, CodeAttempt, Failure,
}

pub record Store : Type 0 where
  pub orders : List Order
  pub items : List Item
  pub history : List History
  pub promotions : List Promotion
  pub deliveries : List Delivery
  pub runs : List Run
  pub events : List Event
  pub attempts : List CodeAttempt
  pub failures : List Failure
  pub drivers : List Driver
  pub employees : List Employee
  pub clock : List ClockEntry
  pub settings : Option Settings
  pub dispatch : List DispatchSettings
  pub ingredients : List Ingredient
  pub movements : List Movement
  pub payments : List Payment
  pub refunds : List Refund
  pub peak_orders_threshold : Option ℕ
  pub out_of_graph_total : ℕ
  pub next_delivery_id : ℕ
  pub next_run_id : ℕ
  pub next_failure_id : ℕ
  pub next_payment_id : ℕ

-- What a service reads from outside the tables during one call: the clock, random values, answers
-- of Stripe, and values that code outside the model computes.
pub record Env : Type 0 where
  -- `datetime.now(timezone.utc)`.
  pub now : ℕ
  -- `secrets.token_hex(8)`.
  pub fresh_nonce : ℕ
  -- `estimates.departure_minutes` of an order, by the number of other stops.
  pub departure_minutes : Order → ℕ → Option ℕ
  -- `_item_recipe_deltas`, over the items of an order.
  pub recipe_deltas : ℕ → List (ℕ × ℤ)
  -- `_usable_quantities_for_ingredients`: what is left of an ingredient before its use-by dates.
  pub usable_qty : Ingredient → ℤ
  -- Whether Stripe accepts the call that the service makes (cancel, capture or refund).
  pub stripe_accepts : Bool
  -- The id that Stripe gives a refund.
  pub stripe_refund_id : Text
  -- The first 8 bytes of the HMAC of an order and a nonce, as an integer (`derive_code`).
  pub code_digest : ℕ → ℕ → ℕ
  -- Whether `\d` matches a code point.
  pub is_digit : ℕ → Bool
