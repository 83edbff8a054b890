-- ===== src/Promotions/Requests.antt =====
-- The requests on codes, and the tables after them.
use api_kitchen.Base.{ℕ, Text, Bool, Option, List, [], ◌∷◌}
use api_kitchen.Promotions.Service.{apply_promo, record_promo_usage}
use api_kitchen.Promotions.Admin.{
  create_promotion, Patch, update_promotion, toggle_promotion, delete_promotion,
  cleanup_expired_promotions,
}
use api_kitchen.Promotions.Tables.{Promo, Promos, PromoEnv, CartItem}

pub data PromoRequest : Type 0 where
  creates : (body : Promo) (categories products : List ℕ) → PromoRequest
  edits : (key : ℕ) (c : Patch) → PromoRequest
  toggles : (key : ℕ) (b : Bool) → PromoRequest
  deletes : (key : ℕ) → PromoRequest
  cleans : (now : ℕ) → PromoRequest
  applies :
      (env : PromoEnv) (code : Text) (subtotal : ℕ) (items : List CartItem) (user : Option ℕ)
      (verified : Option Bool)
      → PromoRequest
  registers : (code : Text) (user order : ℕ) → PromoRequest

abbrev pub serve_promo : PromoRequest → Promos → Promos
serve_promo (creates body categories products) s = (create_promotion body categories products s).1
serve_promo (edits key c) s = (update_promotion key c s).1
serve_promo (toggles key b) s = (toggle_promotion key b s).1
serve_promo (deletes key) s = delete_promotion key s
serve_promo (cleans now) s = (cleanup_expired_promotions now s).1
serve_promo (applies env code subtotal items user verified) s =
    (apply_promo env code subtotal items user verified s).1
serve_promo (registers code user order) s = (record_promo_usage code user order s).1

abbrev pub serve_promos : List PromoRequest → Promos → Promos
serve_promos [] s = s
serve_promos (r ∷ rs) s = serve_promos rs (serve_promo r s)
