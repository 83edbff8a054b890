-- ===== src/Payments/Tables.antt =====
-- The rows of app/modules/payments/models.py. Amounts are in cents.
use api_kitchen.Base.{ℕ, Text, Option}

pub data Purpose : Type 0 where
  sale guarantee : Purpose

pub data Provider : Type 0 where
  stripe cash external_terminal cash_register : Provider

-- `payment.status`; `unlisted_state` is any other string.
pub data PaymentState : Type 0 where
  awaiting authorized collected released refunded partially_refunded : PaymentState
  unlisted_state : ℕ → PaymentState

pub record Payment : Type 0 where
  pub id : ℕ
  pub order_id : ℕ
  pub provider : Provider
  pub purpose : Purpose
  pub amount : ℕ
  pub amount_received : Option ℕ
  pub captured_amount : Option ℕ
  pub status : PaymentState
  pub settled_at : Option ℕ
  pub settled_by_user_id : Option ℕ

pub data RefundState : Type 0 where
  refund_pending refund_succeeded refund_failed : RefundState

-- `stripe_refund_id`: the id that Stripe gave, or "manual_" or "failed_" with the payment and the
-- second of the clock.
pub data RefundId : Type 0 where
  stripe_refund : Text → RefundId
  manual_refund failed_refund : (payment second : ℕ) → RefundId

pub record Refund : Type 0 where
  pub order_id : ℕ
  pub payment_id : ℕ
  pub stripe_refund_id : RefundId
  pub amount : ℕ
  pub reason : Text
  pub status : RefundState
  pub created_by_user_id : Option ℕ
