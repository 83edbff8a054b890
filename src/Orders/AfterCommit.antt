-- ===== src/Orders/AfterCommit.antt =====
-- What `update_status` does once its transaction is committed: the release of a guarantee, the
-- delivery code, and the calls that leave the database. Each of these calls may fail, is then only
-- logged, and changes no table; the list holds the calls that are tried when none fails.
use api_kitchen.Base.{
  ℕ, if◌then◌else◌, Text, is_empty, change_row, Bool, true, false, not, ◌&&◌, Option, none, some,
  List, [], ◌∷◌, ◌++◌, map,
}
use api_kitchen.Store.{Store, Env}
use api_kitchen.Payments.Guarantee.{release_best_effort}
use api_kitchen.Orders.Update.{is_departure}
use api_kitchen.Orders.Tables.{is_delivery, is_guaranteed, Order, is_order}
use api_kitchen.Orders.Status.{
  OrderStatus, pending, preparing, ready, out_for_delivery, delivered, rejected, delivery_failed,
  confirmed, cancelled,
}

pub data Effect : Type 0 where
  stock_alert : ℕ → Effect
  cancel_email : Effect
  credit_loyalty : ℕ → Effect
  tell_customer : ℕ → OrderStatus → Effect
  send_code_sms : Text → Effect
  tell_staff : OrderStatus → Effect

-- The notices of a transition: to the customer, and whether to the staff too.
abbrev pub notice : OrderStatus → OrderStatus → Option Bool
notice _ delivery_failed = some true
notice _ cancelled = some true
notice pending confirmed = some true
notice confirmed preparing = some false
notice preparing ready = some false
notice ready out_for_delivery = some false
notice ready delivered = some false
notice out_for_delivery delivered = some false
notice _ _ = none

abbrev pub customer_notice : OrderStatus → Option ℕ → List Effect
customer_notice status none = []
customer_notice status (some user) = tell_customer user status ∷ []

-- A customer without an account gets the code by SMS.
abbrev pub code_notice : OrderStatus → Order → List Effect
code_notice out_for_delivery o = elim o.user_id [
  | some _ ↦ []
  | none ↦ elim o.customer_phone [
    | none ↦ []
    | some phone ↦
        if is_delivery o.order_type && not (is_empty phone) then send_code_sms phone ∷ [] else []
  ]
]
code_notice status o = []

unfoldable pub notices : OrderStatus → OrderStatus → Order → List Effect
notices previous actual o = elim (notice previous actual) [
  | none ↦ []
  | some staff ↦
      customer_notice actual o.user_id
      ++ (code_notice actual o ++ (if staff then tell_staff actual ∷ [] else []))
]

abbrev pub loyalty_credit : OrderStatus → Option ℕ → List Effect
loyalty_credit delivered (some user) = credit_loyalty user ∷ []
loyalty_credit _ _ = []

abbrev pub email_notice : OrderStatus → List Effect
email_notice cancelled = cancel_email ∷ []
email_notice _ = []

-- `order` is the order before the change, `actual` its new status.
unfoldable pub effects : OrderStatus → List ℕ → Order → List Effect
effects actual low o =
    map stock_alert low
    ++ (email_notice actual ++ (loyalty_credit actual o.user_id ++ notices o.status actual o))

abbrev pub set_nonce : ℕ → Order → Order
set_nonce nonce o = elim o.delivery_code_nonce [
  | none ↦ record o { delivery_code_nonce = some nonce }
  | some _ ↦ o
]

-- `ensure_nonce` of app/modules/delivery/proof.py.
unfoldable pub ensure_nonce : Env → ℕ → Store → Store
ensure_nonce env order s = record s {
  orders = change_row (is_order order) (set_nonce env.fresh_nonce) s.orders;
}

abbrev pub frees_guarantee : OrderStatus → Bool
frees_guarantee cancelled = true
frees_guarantee rejected = true
frees_guarantee _ = false

-- The tables after the commit.
unfoldable pub after_commit : Env → Option ℕ → OrderStatus → Order → Store → Store
after_commit env actor actual o s =
    let s₁ =
      if frees_guarantee actual && is_guaranteed o.payment_status
      then release_best_effort env o.id actor s
      else s in
    if is_departure actual && is_delivery o.order_type then ensure_nonce env o.id s₁ else s₁
