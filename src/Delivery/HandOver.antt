-- ===== src/Delivery/HandOver.antt =====
-- What a hand-over by the driver has gone through.
use api_kitchen.Base.{
  ℕ, Bool-cases, ErrorCode, Result, ok, err, Text, strip, text_eq, find_row, ◌<◌, ◌≡◌, refl, sym,
  ap, ◌∙◌, ◌≢◌, inl, inr, true, Option, none, some, arith,
}
use api_kitchen.Store.{Store, Env}
use api_kitchen.Orders.Update.{route}
use api_kitchen.Orders.Restock.{actual_of}
use api_kitchen.Orders.Parts.{update_status_ok}
use api_kitchen.Orders.Transitions.{status_of, update_status-status_of}
use api_kitchen.Orders.Tables.{Order, is_order}
use api_kitchen.Orders.Status.{delivered}
use api_kitchen.Orders.AfterCommit.{ensure_nonce}
use api_kitchen.Delivery.Attempts.{verify_code_sound}
use api_kitchen.Delivery.Courier.{
  staff_change, is_en_route, given_code, prove, settle_payment, conclude, driver_deliver,
}
use api_kitchen.Delivery.Claim.{is_delivery_row, own_delivery}
use api_kitchen.Delivery.Takes.{own_delivery_ok}
use api_kitchen.Delivery.Rules.{is_proof_required}
use api_kitchen.Delivery.Tables.{Delivery, Proof, Driver}
use api_kitchen.Delivery.Stages.{prove_ok, IsSettled, settle_payment_ok, Concluded, conclude_ok}
use api_kitchen.Delivery.Proof.{derive_code, failed_attempts, nonce_of}

-- The code that was submitted is the one of the order, and was not locked.
abbrev pub HasCode : Env → ℕ → ℕ → Option Text → Store → Type 0
HasCode env key order code s =
    (submitted : Text) × (given_code code ≡ some submitted)
    × (failed_attempts key s < 5)
    × ((nonce : ℕ) × (nonce_of order (ensure_nonce env order s) ≡ some nonce)
        × (text_eq (strip submitted) (derive_code env order nonce) ≡ true))

pub record HandedOver (env : Env) (driver : Driver) (key : ℕ) (received : Option ℕ)
    (code : Option Text) (user : ℕ) (s : Store) : Type 0 where
  pub delivery_row : Delivery
  pub order : Order
  pub own : find_row (is_delivery_row key) s.deliveries ≡ some delivery_row
  pub of_driver : delivery_row.driver_id ≡ driver.id
  pub en_route : is_en_route delivery_row.status ≡ true
  pub ordered : find_row (is_order delivery_row.order_id) s.orders ≡ some order
  pub with_code : is_proof_required s ≡ true → HasCode env key order.id code s
  pub settled : IsSettled order received (prove env key order.id user code s).1.orders
  pub ended :
      status_of order.id (driver_deliver env driver key received code user s).1.orders
      ≡ some delivered

prove-HasCode :
    (env : Env) (key order user : ℕ) (code : Option Text) (s : Store) (p : Proof)
    → (prove env key order user code s).0 ≡ ok p
    → is_proof_required s ≡ true
    → HasCode env key order code s
prove-HasCode env key order user code s p e wanted =
    let (submitted, given, verified) = prove_ok env key order user code s p e wanted in
    let (few, right) = (verify_code_sound env key order (some user) submitted s).0 verified in
    (submitted, given, few, right)

route_delivered : (s : Store) → route delivered s ≡ delivered
unfolding route
route_delivered s = refl

conclude-delivered :
    (env : Env) (key : ℕ) (o : Order) (received : Option ℕ) (code : Option Text) (user : ℕ)
    (s : Store)
    → Concluded env key o received code user s
    → status_of o.id (conclude env key o received code user s).1.orders ≡ some delivered
conclude-delivered env key o received code user s c =
    let s₂ = (settle_payment env o received user (prove env key o.id user code s).1).1 in
    let change = staff_change o.id delivered none user (some c.proof) in
    let a = update_status_ok env change s₂ c.fx c.handed.0 in
    ap (λ (t : Store). status_of o.id t.orders) c.handed.1
    ∙ update_status-status_of env change s₂ a
    ∙ ap some (actual_of env change s₂ a ∙ route_delivered s₂)

deliver_ok :
    (env : Env) (driver : Driver) (key : ℕ) (received : Option ℕ) (code : Option Text) (user : ℕ)
    (s : Store) (d : Delivery) (o : Order)
    → own_delivery driver key s ≡ ok d
    → find_row (is_order d.order_id) s.orders ≡ some o
    → (driver_deliver env driver key received code user s).0 ≡ ok tt
    → (is_en_route d.status ≡ true)
      × (driver_deliver env driver key received code user s
          ≡ conclude env key o received code user s)
unfolding driver_deliver
deliver_ok env driver key received code user s d o own found e =
    elim (Bool-cases (is_en_route d.status)) [
      | inl there ↦ (there, rw (own, found, there, driver_deliver) refl)
      | inr elsewhere ↦ absurd (ground arith)
    ]

deliver_refused :
    (env : Env) (driver : Driver) (key : ℕ) (received : Option ℕ) (code : Option Text) (user : ℕ)
    (s : Store) (x : ErrorCode) (n : ℕ)
    → own_delivery driver key s ≡ err x n
    → (driver_deliver env driver key received code user s).0 ≢ ok tt
unfolding driver_deliver
deliver_refused env driver key received code user s x n own e = ground arith

deliver_lost :
    (env : Env) (driver : Driver) (key : ℕ) (received : Option ℕ) (code : Option Text) (user : ℕ)
    (s : Store) (d : Delivery)
    → own_delivery driver key s ≡ ok d
    → find_row (is_order d.order_id) s.orders ≡ none
    → (driver_deliver env driver key received code user s).0 ≢ ok tt
unfolding driver_deliver
deliver_lost env driver key received code user s d own lost e = ground arith

-- When the driver's hand-over returns, the delivery was the driver's own and on its way; if the
-- restaurant asks for a proof, the code that was submitted is the one of the order and the delivery
-- had fewer than five failed attempts; the order was paid already or its total was received in
-- cash; and the order ends as delivered.
pub driver_deliver-HandedOver :
    (env : Env) (driver : Driver) (key : ℕ) (received : Option ℕ) (code : Option Text) (user : ℕ)
    (s : Store)
    → (driver_deliver env driver key received code user s).0 ≡ ok tt
    → HandedOver env driver key received code user s
driver_deliver-HandedOver env driver key received code user s e =
    go (own_delivery driver key s) refl
  where
    go :
        (m : Result Delivery)
        → own_delivery driver key s ≡ m
        → HandedOver env driver key received code user s
    go (err x n) k = absurd (deliver_refused env driver key received code user s x n k e)
    go (ok d) k = found (find_row (is_order d.order_id) s.orders) refl
      where
        found :
            (m : Option Order)
            → find_row (is_order d.order_id) s.orders ≡ m
            → HandedOver env driver key received code user s
        found none j = absurd (deliver_lost env driver key received code user s d k j e)
        found (some o) j =
            let (there, same) = deliver_ok env driver key received code user s d o k j e in
            let done = conclude_ok env key o received code user s (ap (λ r. r.0) (sym same) ∙ e) in
            let (own, of_driver) = own_delivery_ok driver key s d k in
            record {
              delivery_row = d;
              order = o;
              own = own;
              of_driver = of_driver;
              en_route = there;
              ordered = j;
              with_code = prove-HasCode env key o.id user code s done.proof done.proved;
              settled = settle_payment_ok env o received user _ done.paid_up;
              ended =
                  ap (λ (r : Result (Unit {0}) × Store). status_of o.id r.1.orders) same
                  ∙ conclude-delivered env key o received code user s done;
            }
