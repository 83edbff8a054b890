-- ===== src/Promotions/Admin.antt =====
-- The administration of codes (app/modules/promotions/service.py: create_promotion,
-- update_promotion, toggle_promotion, delete_promotion, cleanup_expired_promotions).
use api_kitchen.Base.{
  ℕ, ltb, leb, ◌==◌, if◌then◌else◌, is_some, promotion_not_found, invalid_promotion,
  integrity_error, Result, ok, ◌>>=◌, ◌>>◌, raise_if, or_raise, Action, atomic, Text, find_row,
  change_row, change_rows, select_rows, ◌+◌, Bool, false, not, ◌&&◌, Option, none, some, List, [],
  ◌∷◌, ◌++◌, map, or_keep,
}
use api_kitchen.Promotions.Service.{has_code}
use api_kitchen.Promotions.Discounts.{is_before}
use api_kitchen.Promotions.Tables.{DiscountType, Promo, TargetRow, Promos}

abbrev pub is_promo : ℕ → Promo → Bool
is_promo key p = p.id == key

-- `sorted(set(ids))`.
abbrev pub insert_sorted : ℕ → List ℕ → List ℕ
insert_sorted k [] = k ∷ []
insert_sorted k (j ∷ js) =
    if k == j then j ∷ js else if ltb k j then k ∷ j ∷ js else j ∷ insert_sorted k js

abbrev pub sorted_set : List ℕ → List ℕ
sorted_set [] = []
sorted_set (k ∷ ks) = insert_sorted k (sorted_set ks)

abbrev pub is_other_promo : ℕ → TargetRow → Bool
is_other_promo promo r = not (r.promotion_id == promo)

abbrev pub target_row : ℕ → ℕ → TargetRow
target_row promo key = record { promotion_id = promo; target_id = key }

-- The new rows of one table of `_set_targets`, when the request gives any.
abbrev pub replace_targets : ℕ → Option (List ℕ) → List TargetRow → List TargetRow
replace_targets promo none rows = rows
replace_targets promo (some keys) rows =
    map (target_row promo) (sorted_set keys) ++ select_rows (is_other_promo promo) rows

-- `_set_targets`.
unfoldable pub set_targets : ℕ → Option (List ℕ) → Option (List ℕ) → Promos → Promos
set_targets promo categories products s = record s {
  categories = replace_targets promo categories s.categories;
  products = replace_targets promo products s.products;
}

-- A row of the request's fields, with the key of the table and no use.
abbrev pub new_promo : ℕ → Promo → Promo
new_promo key p = record p { id = key; current_uses = 0 }

-- The unique constraint on the code refuses a second row.
unfoldable pub create_promotion_tx : Promo → List ℕ → List ℕ → Promos → Result (ℕ × Promos)
create_promotion_tx body categories products s = do
  raise_if (is_some (find_row (has_code body.code) s.promotions)) integrity_error 500
  let key = s.next_promotion_id
  ok (
    key,
    set_targets key (some categories) (some products)
        (record s { promotions = new_promo key body ∷ s.promotions; next_promotion_id = key + 1 }),
  )

unfoldable pub create_promotion : Promo → List ℕ → List ℕ → Action Promos ℕ
create_promotion body categories products = atomic (create_promotion_tx body categories products)

-- The fields that the request of an update gives.
pub record Patch : Type 0 where
  pub code : Option Text
  pub discount_type : Option DiscountType
  pub discount_value : Option ℕ
  pub min_order_amount : Option ℕ
  pub starts_at : Option (Option ℕ)
  pub ends_at : Option (Option ℕ)
  pub is_active : Option Bool
  pub max_uses : Option (Option ℕ)
  pub max_uses_per_user : Option (Option ℕ)
  pub first_order_only : Option Bool
  pub user_id : Option (Option ℕ)
  pub is_public : Option Bool
  pub is_stackable : Option Bool
  pub free_delivery : Option Bool
  pub email_verified_required : Option Bool
  pub category_ids : Option (List ℕ)
  pub product_ids : Option (List ℕ)

abbrev pub patched : Patch → Promo → Promo
patched c p = record p {
  code = or_keep c.code p.code;
  discount_type = or_keep c.discount_type p.discount_type;
  discount_value = or_keep c.discount_value p.discount_value;
  min_order_amount = or_keep c.min_order_amount p.min_order_amount;
  starts_at = or_keep c.starts_at p.starts_at;
  ends_at = or_keep c.ends_at p.ends_at;
  is_active = or_keep c.is_active p.is_active;
  max_uses = or_keep c.max_uses p.max_uses;
  max_uses_per_user = or_keep c.max_uses_per_user p.max_uses_per_user;
  first_order_only = or_keep c.first_order_only p.first_order_only;
  user_id = or_keep c.user_id p.user_id;
  is_public = or_keep c.is_public p.is_public;
  is_stackable = or_keep c.is_stackable p.is_stackable;
  free_delivery = or_keep c.free_delivery p.free_delivery;
  email_verified_required = or_keep c.email_verified_required p.email_verified_required;
}

abbrev pub is_worthless : Promo → Bool
is_worthless p = leb p.discount_value 0 && not p.free_delivery

abbrev pub has_code_elsewhere : ℕ → Text → Promo → Bool
has_code_elsewhere key code p = has_code code p && not (is_promo key p)

unfoldable pub update_promotion_tx : ℕ → Patch → Promos → Result (Unit {0} × Promos)
update_promotion_tx key c s = do
  p ← or_raise (find_row (is_promo key) s.promotions) promotion_not_found 404
  raise_if (is_worthless (patched c p)) invalid_promotion 422
  raise_if (is_some (find_row (has_code_elsewhere key (patched c p).code) s.promotions))
      integrity_error 500
  ok (
    tt,
    set_targets key c.category_ids c.product_ids
        (record s { promotions = change_row (is_promo key) (patched c) s.promotions }),
  )

unfoldable pub update_promotion : ℕ → Patch → Action Promos (Unit {0})
update_promotion key c = atomic (update_promotion_tx key c)

abbrev pub with_active : Bool → Promo → Promo
with_active b p = record p { is_active = b }

unfoldable pub toggle_promotion_tx : ℕ → Bool → Promos → Result (Unit {0} × Promos)
toggle_promotion_tx key b s = do
  p ← or_raise (find_row (is_promo key) s.promotions) promotion_not_found 404
  ok (tt, record s { promotions = change_row (is_promo key) (with_active b) s.promotions })

unfoldable pub toggle_promotion : ℕ → Bool → Action Promos (Unit {0})
toggle_promotion key b = atomic (toggle_promotion_tx key b)

-- A promotion that is not there is left so, without an error.
unfoldable pub delete_promotion : ℕ → Promos → Promos
delete_promotion key s = record s {
  promotions = change_row (is_promo key) (with_active false) s.promotions;
}

abbrev pub is_over : ℕ → Promo → Bool
is_over now p = p.is_active && is_before p.ends_at now

-- The keys of the promotions that were closed, and the tables.
unfoldable pub cleanup_expired_promotions : ℕ → Promos → List ℕ × Promos
cleanup_expired_promotions now s = (
  map (λ (p : Promo). p.id) (select_rows (is_over now) s.promotions),
  record s { promotions = change_rows (is_over now) (with_active false) s.promotions },
)
