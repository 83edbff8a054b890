-- ===== src/Promotions/Discounts.antt =====
-- Which amount a code is for, whether a customer may use it, and what it takes off
-- (app/modules/promotions/service.py: _targeted_total, _assert_promo_eligible, _discount_for_promo,
-- _calculate_discounts). Sums of cents need no rounding.
use api_kitchen.Base.{
  ℕ, ltb, leb, ◌==◌, if◌then◌else◌, is_some, invalid_promo, Result, ok, err, ◌>>=◌, ◌>>◌, raise_if,
  Text, find_row, select_rows, count_rows, sum_rows, ◌+◌, ◌-◌, Bool, true, false, not, ◌&&◌, ◌||◌,
  Option, none, some, List, [], ◌∷◌, ◌++◌, map,
}
use api_kitchen.Promotions.Tables.{
  DiscountType, percent, fixed, Promo, TargetRow, Usage, Promos, PromoEnv, CartItem, Targets,
}

abbrev pub invalid {ℓ} : {A : Type ℓ} → Result A
invalid = err invalid_promo 422

abbrev pub is_in : List ℕ → ℕ → Bool
is_in keys key = is_some (find_row (λ k. k == key) keys)

-- `key is not None and key in keys`.
abbrev pub is_target : List ℕ → Option ℕ → Bool
is_target keys none = false
is_target keys (some key) = is_in keys key

abbrev pub is_targeted : Targets → CartItem → Bool
is_targeted t i = is_target t.product_ids i.product_id || is_target t.category_ids i.category_id

abbrev pub cart_total : List CartItem → ℕ
cart_total = sum_rows (λ i. true) (λ (i : CartItem). i.total)

abbrev pub is_none_of : List ℕ → Bool
is_none_of [] = true
is_none_of (_ ∷ _) = false

-- `_targeted_total`.
unfoldable pub targeted_total : List CartItem → Targets → ℕ → ℕ
targeted_total items t fallback =
    if is_none_of t.category_ids && is_none_of t.product_ids
    then elim items [ [] ↦ fallback | i ∷ is ↦ cart_total (i ∷ is) ]
    else sum_rows (is_targeted t) (λ (i : CartItem). i.total) items

abbrev pub target_ids : ℕ → List TargetRow → List ℕ
target_ids promo rows =
    map (λ (r : TargetRow). r.target_id)
      (select_rows (λ (r : TargetRow). r.promotion_id == promo) rows)

abbrev pub targets_for_promo : ℕ → Promos → Targets
targets_for_promo promo s = record {
  category_ids = target_ids promo s.categories;
  product_ids = target_ids promo s.products;
}

abbrev pub is_after : Option ℕ → ℕ → Bool
is_after none now = false
is_after (some t) now = ltb now t

abbrev pub is_before : Option ℕ → ℕ → Bool
is_before none now = false
is_before (some t) now = ltb t now

-- `limit is not None and count >= limit`.
abbrev pub is_reached : Option ℕ → ℕ → Bool
is_reached none count = false
is_reached (some limit) count = leb limit count

-- `promo.user_id is not None and promo.user_id != user_id`.
abbrev pub is_for_another : Option ℕ → ℕ → Bool
is_for_another none user = false
is_for_another (some owner) user = not (owner == user)

abbrev pub is_usage_of : ℕ → ℕ → Usage → Bool
is_usage_of promo user u = u.promo_code_id == promo && u.user_id == user

abbrev pub is_verified : PromoEnv → Option Bool → ℕ → Bool
is_verified env (some b) user = b
is_verified env none user = env.email_is_verified user

abbrev pub require_user : Option ℕ → Result ℕ
require_user none = invalid
require_user (some user) = ok user

-- `_assert_promo_eligible`.
unfoldable pub assert_promo_eligible :
    PromoEnv → Promos → Promo → ℕ → Option ℕ → Option Bool → Bool → Result (Unit {0})
assert_promo_eligible env s p order_total user email_verified check_global_quota = do
  u ← require_user user
  raise_if (not p.is_active) invalid_promo 422
  raise_if (is_after p.starts_at env.now) invalid_promo 422
  raise_if (is_before p.ends_at env.now) invalid_promo 422
  raise_if (is_for_another p.user_id u) invalid_promo 422
  raise_if (check_global_quota && is_reached p.max_uses p.current_uses) invalid_promo 422
  raise_if (ltb order_total p.min_order_amount) invalid_promo 422
  raise_if (p.email_verified_required && not (is_verified env email_verified u)) invalid_promo 422
  raise_if (is_reached p.max_uses_per_user (count_rows (is_usage_of p.id u) s.usages)) invalid_promo
      422
  raise_if (p.first_order_only && env.has_delivered_order u) invalid_promo 422

abbrev pub min_of : ℕ → ℕ → ℕ
min_of a b = if leb a b then a else b

abbrev pub is_percent : DiscountType → Bool
is_percent percent = true
is_percent fixed = false

abbrev pub promo_value : PromoEnv → Promo → ℕ → ℕ
promo_value env p eligible =
    if is_percent p.discount_type
    then env.percent_of eligible p.discount_value
    else p.discount_value

-- `_discount_for_promo`.
unfoldable pub discount_for_promo : PromoEnv → Promo → ℕ → Result ℕ
discount_for_promo env p eligible = do
  raise_if (leb eligible 0) invalid_promo 422
  ok (min_of (promo_value env p eligible) eligible)

abbrev pub is_delivery_only : Promo → Bool
is_delivery_only p = p.free_delivery && p.discount_value == 0

-- What one code takes off what the codes before it have left.
unfoldable pub next_discount : PromoEnv → Promos → List CartItem → ℕ → Promo → ℕ → Result ℕ
next_discount env s items order_total p remaining = if is_delivery_only p then ok 0 else do
  raw ← discount_for_promo env p (targeted_total items (targets_for_promo p.id s) order_total)
  raise_if (leb (min_of raw remaining) 0) invalid_promo 422
  ok (min_of raw remaining)

-- The loop over the codes, with what is left of the order.
unfoldable pub discount_loop :
    PromoEnv → Promos → List CartItem → ℕ → List Promo → ℕ → Result (List (Text × ℕ))
discount_loop env s items order_total [] remaining = ok []
discount_loop env s items order_total (p ∷ ps) remaining = do
  d ← next_discount env s items order_total p remaining
  ds ← discount_loop env s items order_total ps (remaining - d)
  ok ((p.code, d) ∷ ds)

abbrev pub is_percent_promo : Promo → Bool
is_percent_promo p = is_percent p.discount_type

abbrev pub is_fixed_promo : Promo → Bool
is_fixed_promo p = not (is_percent p.discount_type)

-- The stable sort by `0 if promo.discount_type == "percent" else 1`.
abbrev pub percents_first : List Promo → List Promo
percents_first ps = select_rows is_percent_promo ps ++ select_rows is_fixed_promo ps

abbrev pub all_eligible :
    PromoEnv → Promos → ℕ → Option ℕ → Option Bool → Bool → List Promo → Result (Unit {0})
all_eligible env s order_total user verified quota [] = ok tt
all_eligible env s order_total user verified quota (p ∷ ps) =
    assert_promo_eligible env s p order_total user verified quota
    >> all_eligible env s order_total user verified quota ps

abbrev pub is_several : List Promo → Bool
is_several [] = false
is_several (p ∷ []) = false
is_several (p ∷ q ∷ ps) = true

abbrev pub is_not_stackable : Promo → Bool
is_not_stackable p = not p.is_stackable

abbrev pub sum_discounts : List (Text × ℕ) → ℕ
sum_discounts [] = 0
sum_discounts (d ∷ ds) = d.1 + sum_discounts ds

-- `_calculate_discounts`. The codes are distinct, so the dictionary has an entry for each.
unfoldable pub calculate_discounts :
    PromoEnv
    → Promos
    → List Promo
    → ℕ
    → List CartItem
    → Option ℕ
    → Option Bool
    → Bool
    → Result (ℕ × List (Text × ℕ))
calculate_discounts env s ps order_total items user verified quota = do
  raise_if (is_several ps && is_some (find_row is_not_stackable ps)) invalid_promo 422
  all_eligible env s order_total user verified quota ps
  ds ← discount_loop env s items order_total (percents_first ps) order_total
  ok (sum_discounts ds, ds)
