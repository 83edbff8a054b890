-- ===== src/Orders/Tables.antt =====
-- The rows of app/modules/orders/models.py that the modelled services read and write. A text column
-- with a closed set of values is a data type, a money column is in cents, an instant is a number of
-- seconds.
use api_kitchen.Base.{ℕ, ◌==◌, Text, Bool, true, false, Option}
use api_kitchen.Orders.Status.{OrderStatus}

pub data OrderType : Type 0 where
  delivery pickup dine_in : OrderType

abbrev pub is_delivery : OrderType → Bool
is_delivery delivery = true
is_delivery _ = false

-- `order.payment_status`; `unlisted_payment` is any other string.
pub data PaymentStatus : Type 0 where
  unpaid paid guaranteed payment_failed guarantee_released guarantee_captured : PaymentStatus
  unlisted_payment : ℕ → PaymentStatus

abbrev pub is_paid : PaymentStatus → Bool
is_paid paid = true
is_paid _ = false

abbrev pub is_guaranteed : PaymentStatus → Bool
is_guaranteed guaranteed = true
is_guaranteed _ = false

pub record Order : Type 0 where
  pub id : ℕ
  pub user_id : Option ℕ
  pub customer_phone : Option Text
  pub establishment_id : Option ℕ
  pub order_type : OrderType
  pub status : OrderStatus
  pub payment_status : PaymentStatus
  pub total : ℕ
  pub promo_code : Option Text
  pub delivery_code_nonce : Option ℕ
  pub estimated_delivery_at : Option ℕ

-- TransitionAuthority.
pub data Authority : Type 0 where
  internal external : Authority

abbrev pub is_internal : Authority → Bool
is_internal internal = true
is_internal external = false

pub record History : Type 0 where
  pub order_id : ℕ
  pub status : OrderStatus
  pub note : Option Text
  pub authority : Authority

pub data PreparationStatus : Type 0 where
  to_prepare in_preparation prepared : PreparationStatus

pub data Station : Type 0 where
  kitchen counter no_station : Station

pub data ItemType : Type 0 where
  product menu menu_component : ItemType

pub record Item : Type 0 where
  pub id : ℕ
  pub order_id : ℕ
  pub item_type : ItemType
  pub preparation_status : PreparationStatus
  pub preparation_station : Station
  pub prepared_at : Option ℕ
  pub prepared_by_user_id : Option ℕ

-- A promotion code (app/modules/promotions/models.py).
pub record Promotion : Type 0 where
  pub code : Text
  pub is_active : Bool

abbrev pub is_order : ℕ → Order → Bool
is_order key o = o.id == key
