-- ===== src/Promotions/Totals.antt =====
-- The total that several codes take off does not depend on the order in which they are applied.
use api_kitchen.Base.{ℕ, if◌then◌else◌, sum_rows, true, List}
use api_kitchen.Promotions.Discounts.{
  targeted_total, targets_for_promo, min_of, promo_value, is_delivery_only,
}
use api_kitchen.Promotions.Tables.{Promo, Promos, PromoEnv, CartItem}

-- What a code would take off an order on its own, were the order large enough.
abbrev pub own_discount : PromoEnv → Promos → List CartItem → ℕ → Promo → ℕ
own_discount env s items order_total p =
    let eligible = targeted_total items (targets_for_promo p.id s) order_total in
    if is_delivery_only p then 0 else min_of (promo_value env p eligible) eligible

abbrev pub own_total : PromoEnv → Promos → List CartItem → ℕ → List Promo → ℕ
own_total env s items order_total = sum_rows (λ p. true) (own_discount env s items order_total)
