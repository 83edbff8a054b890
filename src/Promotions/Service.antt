-- ===== src/Promotions/Service.antt =====
-- The use of codes (app/modules/promotions/service.py: _load_promos, preview_promos, apply_promo,
-- record_promo_usage). `upper` is that of ASCII letters.
use api_kitchen.Base.{
  ℕ, ◌==◌, if◌then◌else◌, is_some, invalid_promo, integrity_error, index_error, Result, ok, err,
  ◌>>=◌, ◌>>◌, raise_if, or_raise, Action, atomic, Text, strip, is_empty, text_eq, upper, find_row,
  change_row, ◌+◌, Bool, true, false, not, ◌&&◌, ◌||◌, Option, none, some, List, [], ◌∷◌, map,
}
use api_kitchen.Promotions.Discounts.{is_reached, calculate_discounts}
use api_kitchen.Promotions.Tables.{Promo, Usage, Promos, PromoEnv, CartItem}

-- `[code.strip().upper() for code in codes if code.strip()]`.
abbrev pub normalized : List Text → List Text
normalized [] = []
normalized (c ∷ cs) = if is_empty (strip c) then normalized cs else upper (strip c) ∷ normalized cs

-- `len(codes) != len(set(codes))`.
abbrev pub has_twice : List Text → Bool
has_twice [] = false
has_twice (c ∷ cs) = is_some (find_row (text_eq c) cs) || has_twice cs

abbrev pub has_code : Text → Promo → Bool
has_code code p = text_eq p.code code

abbrev pub find_codes : List Promo → List Text → Result (List Promo)
find_codes rows [] = ok []
find_codes rows (c ∷ cs) = do
  p ← or_raise (find_row (has_code c) rows) invalid_promo 422
  ps ← find_codes rows cs
  ok (p ∷ ps)

abbrev pub is_no_code : List Text → Bool
is_no_code [] = true
is_no_code (_ ∷ _) = false

-- `_load_promos`.
unfoldable pub load_promos : Promos → List Text → Result (List Promo)
load_promos s codes = do
  raise_if (is_no_code codes) invalid_promo 422
  raise_if (has_twice (normalized codes)) invalid_promo 422
  find_codes s.promotions (normalized codes)

pub record Preview : Type 0 where
  pub discount : ℕ
  pub discounts : List (Text × ℕ)
  pub promo_id : Option ℕ
  pub promo_ids : List ℕ
  pub free_delivery : Bool

-- `promos[0].id if len(promos) == 1 else None`.
abbrev pub only_id : List Promo → Option ℕ
only_id (p ∷ []) = some p.id
only_id _ = none

unfoldable pub preview_promos :
    PromoEnv → Promos → List Text → ℕ → List CartItem → Option ℕ → Option Bool → Result Preview
preview_promos env s codes order_total items user verified = do
  ps ← load_promos s codes
  r ← calculate_discounts env s ps order_total items user verified true
  ok (record {
    discount = r.0;
    discounts = r.1;
    promo_id = only_id ps;
    promo_ids = map (λ (p : Promo). p.id) ps;
    free_delivery = is_some (find_row (λ (p : Promo). p.free_delivery) ps);
  })

-- `promos[0]`: the list of codes is empty when the only code is blank.
abbrev pub head_promo : List Promo → Result Promo
head_promo [] = err index_error 500
head_promo (p ∷ ps) = ok p

-- The condition of the update that takes a use.
abbrev pub can_take : ℕ → Promo → Bool
can_take key p = p.id == key && (p.is_active && not (is_reached p.max_uses p.current_uses))

abbrev pub take_use : Promo → Promo
take_use p = record p { current_uses = p.current_uses + 1 }

unfoldable pub apply_promo_tx :
    PromoEnv → Text → ℕ → List CartItem → Option ℕ → Option Bool → Promos → Result (ℕ × Promos)
apply_promo_tx env code subtotal items user verified s = do
  ps ← load_promos s (code ∷ [])
  p ← head_promo ps
  r ← calculate_discounts env s ps subtotal items user verified false
  taken ← or_raise (find_row (can_take p.id) s.promotions) invalid_promo 422
  ok (r.0, record s { promotions = change_row (can_take p.id) take_use s.promotions })

-- The caller commits the order with it.
unfoldable pub apply_promo :
    PromoEnv → Text → ℕ → List CartItem → Option ℕ → Option Bool → Action Promos ℕ
apply_promo env code subtotal items user verified =
    atomic (apply_promo_tx env code subtotal items user verified)

abbrev pub is_usage_for : ℕ → ℕ → Usage → Bool
is_usage_for promo order u = u.promo_code_id == promo && u.order_id == order

-- The unique constraint uq_promo_usage_code_order refuses a second row.
unfoldable pub record_promo_usage_tx : Text → ℕ → ℕ → Promos → Result (Unit {0} × Promos)
record_promo_usage_tx code user order s = elim (find_row (has_code (upper code)) s.promotions) [
  | none ↦ ok (tt, s)
  | some p ↦ do
    raise_if (is_some (find_row (is_usage_for p.id order) s.usages)) integrity_error 500
    ok (
      tt,
      record s {
        usages = record { promo_code_id = p.id; user_id = user; order_id = order } ∷ s.usages;
      },
    )
]

unfoldable pub record_promo_usage : Text → ℕ → ℕ → Action Promos (Unit {0})
record_promo_usage code user order = atomic (record_promo_usage_tx code user order)
