-- ===== src/Stock/Tables.antt =====
-- The rows of app/modules/stock/models.py that an order's stock movements touch. Quantities are
-- integers in the smallest unit of the columns' scale.
use api_kitchen.Base.{ℕ, Option}
use api_kitchen.Base.Int.{ℤ}

pub record Ingredient : Type 0 where
  pub id : ℕ
  pub current_qty : ℤ
  pub alert_threshold : ℤ

-- `reason`: `order:N` or `cancel:N`.
pub data MoveReason : Type 0 where
  for_order for_cancel : ℕ → MoveReason

pub record Movement : Type 0 where
  pub ingredient_id : ℕ
  pub quantity_delta : ℤ
  pub reason : MoveReason
  pub user_id : Option ℕ
