-- ===== src/Loyalty/Ledger.antt =====
-- The tables of app/modules/loyalty/account/models.py. Points are signed, as the columns are; the
-- newest row of a table stands first, and `next_*` is its key sequence.
use api_kitchen.Base.{ℕ, Bool, true, false, List, Option}
use api_kitchen.Base.Int.{ℤ}

pub record Account : Type 0 where
  pub id : ℕ
  pub user_id : ℕ
  pub points : ℤ

pub data TransactionType : Type 0 where
  earn redeem manual reservation : TransactionType

pub record Transaction : Type 0 where
  pub account_id : ℕ
  pub points_delta : ℤ
  pub kind : TransactionType
  pub order_id : Option ℕ
  pub reservation_id : Option ℕ

pub data ReservationStatus : Type 0 where
  reserved confirmed cancelled expired : ReservationStatus

-- `discount_amount` is in the unit of the rate that it was computed from.
pub record Reservation : Type 0 where
  pub id : ℕ
  pub user_id : ℕ
  pub order_id : ℕ
  pub points_reserved : ℤ
  pub discount_amount : ℤ
  pub status : ReservationStatus
  pub expires_at : ℕ
  pub confirmed_at : Option ℕ
  pub cancelled_at : Option ℕ

pub record Ledger : Type 0 where
  pub accounts : List Account
  pub transactions : List Transaction
  pub reservations : List Reservation
  pub next_account_id : ℕ
  pub next_reservation_id : ℕ

abbrev pub is_reserved : ReservationStatus → Bool
is_reserved reserved = true
is_reserved _ = false

abbrev pub is_confirmed : ReservationStatus → Bool
is_confirmed confirmed = true
is_confirmed _ = false

abbrev pub is_cancelled : ReservationStatus → Bool
is_cancelled cancelled = true
is_cancelled _ = false
