-- ===== src/Promotions/Quota.antt =====
-- The uses of a code never exceed its limit.
use api_kitchen.Base.{
  ℕ, ltb, is_some, ok, atomic-keeps, Text, find_row, change_row, change_rows, ◌≡◌, refl, Bool, true,
  false, Option, none, some, List, [], ◌∷◌, arith,
}
use api_kitchen.Promotions.Service.{
  can_take, take_use, apply_promo_tx, apply_promo, record_promo_usage_tx, record_promo_usage,
}
use api_kitchen.Promotions.Admin.{
  is_promo, set_targets, create_promotion_tx, create_promotion, Patch, patched, update_promotion_tx,
  update_promotion, with_active, toggle_promotion_tx, toggle_promotion, delete_promotion, is_over,
  cleanup_expired_promotions,
}
use api_kitchen.Promotions.Requests.{
  PromoRequest, creates, edits, toggles, deletes, cleans, applies, registers, serve_promo,
  serve_promos,
}
use api_kitchen.Promotions.Counter.{apply_promo_tx_ok}
use api_kitchen.Promotions.Tables.{Promo, Promos, PromoEnv, CartItem}

-- `current_uses > max_uses`.
abbrev pub is_over_quota : Promo → Bool
is_over_quota p = elim p.max_uses [ none ↦ false | some limit ↦ ltb limit p.current_uses ]

abbrev pub InQuota : Promos → Type 0
InQuota s = find_row is_over_quota s.promotions ≡ none

change_row-InQuota :
    (p : Promo → Bool) (f : Promo → Promo) (rows : List Promo)
    → ((x : Promo) → p x ≡ true → is_over_quota x ≡ false → is_over_quota (f x) ≡ false)
    → find_row is_over_quota rows ≡ none
    → find_row is_over_quota (change_row p f rows) ≡ none
change_row-InQuota p f [] good h = refl
change_row-InQuota p f (x ∷ xs) good h = ground (arith, good x, change_row-InQuota p f xs good)

change_rows-InQuota :
    (p : Promo → Bool) (f : Promo → Promo) (rows : List Promo)
    → ((x : Promo) → is_over_quota x ≡ false → is_over_quota (f x) ≡ false)
    → find_row is_over_quota rows ≡ none
    → find_row is_over_quota (change_rows p f rows) ≡ none
change_rows-InQuota p f [] good h = refl
change_rows-InQuota p f (x ∷ xs) good h = ground (arith, good x, change_rows-InQuota p f xs good)

-- Only an edit can give a limit to a code that has uses; this one gives none.
abbrev pub gives_limit : PromoRequest → Bool
gives_limit (edits key c) = elim c.max_uses [ none ↦ false | some limit ↦ is_some limit ]
gives_limit _ = false

take_use-InQuota :
    (key : ℕ) (x : Promo)
    → can_take key x ≡ true
    → is_over_quota x ≡ false
    → is_over_quota (take_use x) ≡ false
take_use-InQuota key x free h = ground arith

patched-InQuota :
    (key : ℕ) (c : Patch) (x : Promo)
    → gives_limit (edits key c) ≡ false
    → is_over_quota x ≡ false
    → is_over_quota (patched c x) ≡ false
patched-InQuota key c x none_given h = ground arith

apply_promo_tx-InQuota :
    (env : PromoEnv) (code : Text) (subtotal : ℕ) (items : List CartItem) (user : Option ℕ)
    (verified : Option Bool) (s s' : Promos) (d : ℕ)
    → InQuota s
    → apply_promo_tx env code subtotal items user verified s ≡ ok (d, s')
    → InQuota s'
apply_promo_tx-InQuota env code subtotal items user verified s s' d h e =
    let a = apply_promo_tx_ok env code subtotal items user verified s s' d e in
    rw (a.after) (
      change_row-InQuota (can_take a.promo.id) take_use s.promotions (take_use-InQuota a.promo.id)
        h)

serve_promo-InQuota :
    (r : PromoRequest) (s : Promos) → gives_limit r ≡ false → InQuota s → InQuota (serve_promo r s)
unfolding create_promotion create_promotion_tx update_promotion update_promotion_tx set_targets
    toggle_promotion toggle_promotion_tx delete_promotion cleanup_expired_promotions
    record_promo_usage record_promo_usage_tx apply_promo
serve_promo-InQuota (creates body categories products) s free h = ground arith
serve_promo-InQuota (edits key c) s free h = ground (
  arith,
  change_row-InQuota (is_promo key) (patched c) s.promotions (λ x hit. patched-InQuota key c x free)
      h,
)
serve_promo-InQuota (toggles key b) s free h =
    ground
      (arith, change_row-InQuota (is_promo key) (with_active b) s.promotions (λ x hit ok. ok) h)
serve_promo-InQuota (deletes key) s free h =
    change_row-InQuota (is_promo key) (with_active false) s.promotions (λ x hit ok. ok) h
serve_promo-InQuota (cleans now) s free h =
    change_rows-InQuota (is_over now) (with_active false) s.promotions (λ x ok. ok) h
serve_promo-InQuota (applies env code subtotal items user verified) s free h =
    atomic-keeps InQuota (apply_promo_tx env code subtotal items user verified) s h
      (λ d s' e. apply_promo_tx-InQuota env code subtotal items user verified s s' d h e)
serve_promo-InQuota (registers code user order) s free h = ground arith

abbrev pub NoNewLimit : List PromoRequest → Type 0
NoNewLimit [] = Unit
NoNewLimit (r ∷ rs) = (gives_limit r ≡ false) × NoNewLimit rs

-- Whatever requests are served, refused ones included, from tables where no code was used more often
-- than its limit, no code is afterwards, unless an edit gives a code another limit.
pub serve_promos-InQuota :
    (rs : List PromoRequest) (s : Promos) → NoNewLimit rs → InQuota s → InQuota (serve_promos rs s)
serve_promos-InQuota [] s free h = h
serve_promos-InQuota (r ∷ rs) s free h =
    serve_promos-InQuota rs (serve_promo r s) free.1 (serve_promo-InQuota r s free.0 h)
