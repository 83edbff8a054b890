-- ===== src/Tests/Codes.antt =====
-- Runs of the promotional codes, and instances of their theorems.
use api_kitchen.Base.{
  ℕ, ◌==◌, index_error, ok, err, text, ◌*◌, ◌/◌, ◌≡◌, refl, true, false, none, some, List, [], ◌∷◌,
  arith, strip,
}
use api_kitchen.Promotions.Service.{
  load_promos, Preview, preview_promos, apply_promo, record_promo_usage, apply_promo_tx,
  record_promo_usage_tx,
}
use api_kitchen.Promotions.Requests.{
  PromoRequest, creates, toggles, applies, registers, serve_promos,
}
use api_kitchen.Promotions.Counter.{Counter, take, view, OneEach, apply_promo-take}
use api_kitchen.Promotions.Discounts.{
  targeted_total, assert_promo_eligible, discount_for_promo, next_discount, discount_loop,
  calculate_discounts,
}
use api_kitchen.Promotions.Tables.{percent, fixed, Promo, Promos, PromoEnv, CartItem}
use api_kitchen.Promotions.Quota.{InQuota, serve_promos-InQuota}
use api_kitchen.Promotions.Admin.{
  set_targets, create_promotion_tx, create_promotion, toggle_promotion_tx, toggle_promotion,
}

abbrev morning : PromoEnv
morning = record {
  now = 1000;
  email_is_verified = λ user. true;
  has_delivered_order = λ user. false;
  percent_of = λ amount value. (amount * value) / 10000;
}

abbrev ten_percent : Promo
ten_percent = record {
  id = 0;
  code = text "TEN";
  discount_type = percent;
  discount_value = 1000;
  min_order_amount = 500;
  starts_at = none;
  ends_at = some 5000;
  is_active = true;
  max_uses = some 2;
  max_uses_per_user = some 1;
  current_uses = 0;
  first_order_only = false;
  user_id = none;
  is_public = true;
  is_stackable = true;
  free_delivery = false;
  email_verified_required = false;
}

abbrev five_off : Promo
five_off = record ten_percent {
  code = text "FIVE";
  discount_type = fixed;
  discount_value = 500;
  max_uses = none;
  max_uses_per_user = none;
}

abbrev setup : List PromoRequest
setup = creates ten_percent [] [] ∷ creates five_off [] (4 ∷ []) ∷ []

abbrev no_codes : Promos
no_codes = record {
  promotions = [];
  categories = [];
  products = [];
  usages = [];
  next_promotion_id = 0;
}

abbrev two_codes : Promos
two_codes = serve_promos setup no_codes

abbrev pizza : CartItem
pizza = record { product_id = some 4; category_id = some 1; total = 1200 }

abbrev cola : CartItem
cola = record { product_id = some 5; category_id = some 2; total = 300 }

abbrev cart : List CartItem
cart = pizza ∷ cola ∷ []

abbrev both : Preview
both = record {
  discount = 650;
  discounts = (text "TEN", 150) ∷ (text "FIVE", 500) ∷ [];
  promo_id = none;
  promo_ids = 1 ∷ 0 ∷ [];
  free_delivery = false;
}

both_lem :
    preview_promos morning two_codes (text " five" ∷ text "ten" ∷ []) 1500 cart (some 7) none
    ≡ ok both
unfolding preview_promos load_promos api_kitchen.Base.strip
    api_kitchen.Promotions.Admin.create_promotion api_kitchen.Promotions.Admin.create_promotion_tx
    api_kitchen.Promotions.Admin.set_targets api_kitchen.Promotions.Discounts.calculate_discounts
    api_kitchen.Promotions.Discounts.assert_promo_eligible
    api_kitchen.Promotions.Discounts.discount_loop api_kitchen.Promotions.Discounts.next_discount
    api_kitchen.Promotions.Discounts.discount_for_promo
    api_kitchen.Promotions.Discounts.targeted_total
both_lem = refl

-- A code with a space behind it is applied, and its use is not recorded: the limit of one use for
-- each customer does not hold for it.
spaced_lem :
    let s = (apply_promo morning (text "ten ") 1500 cart (some 7) none two_codes).1 in
    let s' = (record_promo_usage (text "ten ") 7 1 s).1 in
    ((apply_promo morning (text "ten ") 1500 cart (some 7) none s').0 ≡ ok 150) × (s'.usages ≡ [])
unfolding apply_promo api_kitchen.Promotions.Service.apply_promo_tx load_promos
    api_kitchen.Base.strip record_promo_usage api_kitchen.Promotions.Service.record_promo_usage_tx
    api_kitchen.Promotions.Admin.create_promotion api_kitchen.Promotions.Admin.create_promotion_tx
    api_kitchen.Promotions.Admin.set_targets api_kitchen.Promotions.Discounts.calculate_discounts
    api_kitchen.Promotions.Discounts.assert_promo_eligible
    api_kitchen.Promotions.Discounts.discount_loop api_kitchen.Promotions.Discounts.next_discount
    api_kitchen.Promotions.Discounts.discount_for_promo
    api_kitchen.Promotions.Discounts.targeted_total
spaced_lem = (refl, refl)

-- A code that is only spaces is no code: the list of promotions that it loads is empty.
blank_lem :
    (apply_promo morning (text "  ") 1500 cart (some 7) none two_codes).0 ≡ err index_error 500
unfolding apply_promo api_kitchen.Promotions.Service.apply_promo_tx load_promos
    api_kitchen.Base.strip
blank_lem = refl

abbrev afternoon : List PromoRequest
afternoon =
    registers (text "TEN") 8 1
    ∷ applies morning (text "ten") 1500 cart (some 8) none
    ∷ applies morning (text "ten") 1500 cart (some 7) none
    ∷ toggles 0 false
    ∷ []

-- The use of a customer who has had one is refused.
afternoon_lem :
    view 0 (serve_promos afternoon two_codes)
    ≡ some (record { uses = 1; limit = some 2; is_open = false })
unfolding create_promotion create_promotion_tx set_targets apply_promo apply_promo_tx load_promos
    strip record_promo_usage record_promo_usage_tx toggle_promotion toggle_promotion_tx
    calculate_discounts assert_promo_eligible discount_loop next_discount discount_for_promo
    targeted_total
afternoon_lem = refl

serve_promos-InQuota_example : InQuota (serve_promos afternoon two_codes)
unfolding create_promotion create_promotion_tx set_targets
serve_promos-InQuota_example =
    serve_promos-InQuota afternoon two_codes (refl, (refl, (refl, (refl, tt)))) refl

abbrev used_once : Promos
used_once = (apply_promo morning (text "ten") 1500 cart (some 7) none two_codes).1

two_codes-OneEach : OneEach two_codes
unfolding create_promotion create_promotion_tx set_targets
two_codes-OneEach key = ground arith

apply_promo-take_example :
    (p : Promo) × (c c' : Counter) × (load_promos two_codes (text "ten" ∷ []) ≡ ok (p ∷ []))
    × (view p.id two_codes ≡ some c)
    × (take c ≡ some c')
    × (view p.id used_once ≡ some c')
    × ((k : ℕ) → (k == p.id) ≡ false → view k used_once ≡ view k two_codes)
unfolding apply_promo api_kitchen.Promotions.Service.apply_promo_tx load_promos
    api_kitchen.Base.strip api_kitchen.Promotions.Admin.create_promotion
    api_kitchen.Promotions.Admin.create_promotion_tx api_kitchen.Promotions.Admin.set_targets
    api_kitchen.Promotions.Discounts.calculate_discounts
    api_kitchen.Promotions.Discounts.assert_promo_eligible
    api_kitchen.Promotions.Discounts.discount_loop api_kitchen.Promotions.Discounts.next_discount
    api_kitchen.Promotions.Discounts.discount_for_promo
    api_kitchen.Promotions.Discounts.targeted_total
apply_promo-take_example =
    apply_promo-take morning (text "ten") 1500 cart (some 7) none two_codes used_once 150
      two_codes-OneEach refl
