-- ===== src/Delivery/Untouched.antt =====
-- The treatment of a failed delivery touches no failure before it closes the one that is treated.
use api_kitchen.Base.{
  ℕ, Result, ok, err, Result-cases, Text, ◌-◌, ◌≡◌, refl, ap, ◌∙◌, inl, inr, Bool, true, Option,
  none, some, List, arith,
}
use api_kitchen.Store.{Store, Env}
use api_kitchen.Payments.Guarantee.{
  release_tx, release_guarantee, release_best_effort, capture_tx, capture_guarantee,
}
use api_kitchen.Payments.Refunds.{post_refund, settle_refund, create_refund}
use api_kitchen.Orders.Service.{update_status}
use api_kitchen.Orders.Update.{Change, count_out_of_graph, route, write_status, follow}
use api_kitchen.Orders.Parts.{update_status_ok, apply_change_ok}
use api_kitchen.Orders.Tables.{Order}
use api_kitchen.Orders.Keeps.{settle_stock-Agrees}
use api_kitchen.Orders.Status.{OrderStatus, ready}
use api_kitchen.Orders.AfterCommit.{Effect, ensure_nonce, after_commit}
use api_kitchen.Delivery.Resolve.{
  reason_text, keep_nothing, keep_some, give_back, check_retention, keep_cents, retain_fee,
  regenerate_nonce, redelivery, send_again, treat,
}
use api_kitchen.Delivery.Tables.{Resolution, by_refund, by_retention, by_redelivery, Failure}

create_refund-failures :
    (env : Env) (order : ℕ) (user asked : Option ℕ) (reason : Text) (allowed : Bool) (s : Store)
    → (create_refund env order user asked reason allowed s).1.failures ≡ s.failures
unfolding create_refund settle_refund post_refund
create_refund-failures env order user asked reason allowed s = ground arith

release_guarantee-failures :
    (env : Env) (order : ℕ) (user : Option ℕ) (s : Store)
    → (release_guarantee env order user s).1.failures ≡ s.failures
unfolding release_guarantee release_tx
release_guarantee-failures env order user s = ground arith

capture_guarantee-failures :
    (env : Env) (order : ℕ) (amount : Option ℕ) (reason : Text) (user : Option ℕ) (s : Store)
    → (capture_guarantee env order amount reason user s).1.failures ≡ s.failures
unfolding capture_guarantee capture_tx
capture_guarantee-failures env order amount reason user s = ground arith

after_commit-failures :
    (env : Env) (actor : Option ℕ) (actual : OrderStatus) (o : Order) (s : Store)
    → (after_commit env actor actual o s).failures ≡ s.failures
unfolding after_commit ensure_nonce release_best_effort release_guarantee release_tx
after_commit-failures env actor actual o s = ground arith

keep_nothing-store : (x : Result (Unit {0}) × Store) → (keep_nothing x).1 ≡ x.1
keep_nothing-store (ok u, s) = refl
keep_nothing-store (err e n, s) = refl

keep_some-store : (cents : ℕ) (x : Result (Unit {0}) × Store) → (keep_some cents x).1 ≡ x.1
keep_some-store cents (ok u, s) = refl
keep_some-store cents (err e n, s) = refl

give_back-failures :
    (env : Env) (o : Order) (reason : Text) (admin : ℕ) (s : Store)
    → (give_back env o reason admin s).1.failures ≡ s.failures
unfolding give_back
give_back-failures env o reason admin s = ground (
  arith,
  create_refund-failures env o.id (some admin) none reason true s,
  release_guarantee-failures env o.id (some admin) s,
  keep_nothing-store (create_refund env o.id (some admin) none reason true s),
  keep_nothing-store (release_guarantee env o.id (some admin) s),
)

keep_cents-failures :
    (env : Env) (o : Order) (cents : ℕ) (why reason : Text) (admin : ℕ) (s : Store)
    → (keep_cents env o cents why reason admin s).1.failures ≡ s.failures
unfolding keep_cents
keep_cents-failures env o cents why reason admin s =
    let refund = create_refund env o.id (some admin) (some (o.total - cents)) reason true s in
    let capture = capture_guarantee env o.id (some cents) why (some admin) s in
    ground (
      arith,
      create_refund-failures env o.id (some admin) (some (o.total - cents)) reason true s,
      capture_guarantee-failures env o.id (some cents) why (some admin) s,
      keep_some-store cents refund,
      keep_some-store cents capture,
    )

retain_fee-failures :
    (env : Env) (f : Failure) (o : Order) (amount : Option ℕ) (words : Option Text) (reason : Text)
    (admin : ℕ) (s : Store)
    → (retain_fee env f o amount words reason admin s).1.failures ≡ s.failures
unfolding retain_fee
retain_fee-failures env f o amount words reason admin s =
    elim (Result-cases (check_retention f o amount words)) [
      | inl (x, n, refused) ↦ rw (refused, retain_fee) refl
      | inr ((cents, why), allowed) ↦
          rw (allowed, retain_fee) (keep_cents-failures env o cents why reason admin s)
    ]

route_ready : (status : OrderStatus) (s : Store) → status ≡ ready → route status s ≡ ready
unfolding route
route_ready status s e = ground arith

-- What a change to "ready" does before the stock.
ready_follow :
    (env : Env) (c : Change) (o : Order) (s : Store)
    → (follow env c o ready (write_status c ready (count_out_of_graph c o s))).failures ≡ s.failures
unfolding follow write_status
ready_follow env c o s = ground arith

-- A change to "ready" that returns moves no failure.
ready-failures :
    (env : Env) (c : Change) (s : Store) (fx : List Effect)
    → c.status ≡ ready
    → (update_status env c s).0 ≡ ok fx
    → (update_status env c s).1.failures ≡ s.failures
ready-failures env c s fx asked e =
    let a = update_status_ok env c s fx e in
    let s₁ = count_out_of_graph c a.order s in
    let (routed, settled) = apply_change_ok env c a.order s₁ a.actual a.low a.committed a.applied in
    let s₂ = follow env c a.order a.actual (write_status c a.actual s₁) in
    let is_ready : a.actual ≡ ready = routed ∙ route_ready c.status s₁ asked in
    let agrees = settle_stock-Agrees env c a.order a.actual s₂ a.low a.committed settled in
    let last = after_commit-failures env c.actor_user_id a.actual a.order a.committed in
    ap (λ (x : Store). x.failures) a.tables
    ∙ last
    ∙ agrees.failures
    ∙ ap (λ st. (follow env c a.order st (write_status c st s₁)).failures) is_ready
    ∙ ready_follow env c a.order s

send_again-failures :
    (env : Env) (o : Order) (words : Option Text) (admin : ℕ) (s : Store)
    → (send_again env o words admin s).1.failures ≡ s.failures
unfolding send_again
send_again-failures env o words admin s =
    let c = redelivery o words admin in
    let s₁ = regenerate_nonce env o.id s in
    elim (Result-cases (update_status env c s₁).0) [
      | inl (x, n, refused) ↦ ground arith
      | inr (fx, done) ↦ ground (arith, ready-failures env c s₁ fx refl done)
    ]

pub treat-failures :
    (env : Env) (action : Resolution) (f : Failure) (o : Order) (amount : Option ℕ)
    (words : Option Text) (admin : ℕ) (s : Store)
    → (treat env action f o amount words admin s).1.failures ≡ s.failures
unfolding treat
treat-failures env by_refund f o amount words admin s =
    give_back-failures env o (reason_text by_refund words) admin s
treat-failures env by_retention f o amount words admin s =
    retain_fee-failures env f o amount words (reason_text by_retention words) admin s
treat-failures env by_redelivery f o amount words admin s = send_again-failures env o words admin s
