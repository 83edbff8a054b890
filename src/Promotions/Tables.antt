-- ===== src/Promotions/Tables.antt =====
-- The rows of app/modules/promotions/models.py, and what the service reads from outside them.
-- Amounts are in cents; a percentage is in hundredths. Descriptions and campaigns are left out.
use api_kitchen.Base.{ℕ, Text, Bool, Option, List}

pub data DiscountType : Type 0 where
  percent : DiscountType
  fixed : DiscountType

pub record Promo : Type 0 where
  pub id : ℕ
  pub code : Text
  pub discount_type : DiscountType
  pub discount_value : ℕ
  pub min_order_amount : ℕ
  pub starts_at : Option ℕ
  pub ends_at : Option ℕ
  pub is_active : Bool
  pub max_uses : Option ℕ
  pub max_uses_per_user : Option ℕ
  pub current_uses : ℕ
  pub first_order_only : Bool
  pub user_id : Option ℕ
  pub is_public : Bool
  pub is_stackable : Bool
  pub free_delivery : Bool
  pub email_verified_required : Bool

-- A row of `promotion_target_categories`, or of `promotion_target_products`.
pub record TargetRow : Type 0 where
  pub promotion_id : ℕ
  pub target_id : ℕ

pub record Usage : Type 0 where
  pub promo_code_id : ℕ
  pub user_id : ℕ
  pub order_id : ℕ

pub record Promos : Type 0 where
  pub promotions : List Promo
  pub categories : List TargetRow
  pub products : List TargetRow
  pub usages : List Usage
  pub next_promotion_id : ℕ

pub record PromoEnv : Type 0 where
  pub now : ℕ
  -- `_email_is_verified` and `_user_has_delivered_order`, which read other tables.
  pub email_is_verified : ℕ → Bool
  pub has_delivered_order : ℕ → Bool
  -- An amount times a percentage, over a hundred, rounded to the cent.
  pub percent_of : ℕ → ℕ → ℕ

pub record CartItem : Type 0 where
  pub product_id : Option ℕ
  pub category_id : Option ℕ
  pub total : ℕ

pub record Targets : Type 0 where
  pub category_ids : List ℕ
  pub product_ids : List ℕ
