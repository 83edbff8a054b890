-- ===== src/Delivery/Retained.antt =====
-- What is kept from the customer of a failed delivery was allowed.
use api_kitchen.Base.{
  ℕ, Result, ok, err, Result-cases, Text, find_row, ◌-◌, ◌≤◌, ◌≡◌, refl, ap, subst, ◌∙◌, inl, inr,
  true, Option, none, some, arith,
}
use api_kitchen.Store.{Store, Env}
use api_kitchen.Payments.Guarantee.{release_guarantee, capture_guarantee}
use api_kitchen.Payments.Refunds.{create_refund}
use api_kitchen.Orders.Service.{update_status}
use api_kitchen.Orders.Tables.{Order, is_order}
use api_kitchen.Delivery.Resolved.{check_resolution_ok, resolve_failure_ok, Treated-row}
use api_kitchen.Delivery.Report.{clean_note}
use api_kitchen.Delivery.Resolve.{
  is_failure_row, reason_text, keep_nothing, keep_some, give_back, check_retention, keep_cents,
  retain_fee, regenerate_nonce, redelivery, send_again, treat, resolve, resolve_failure,
}
use api_kitchen.Delivery.Tables.{
  customer, Resolution, by_refund, by_retention, by_redelivery, Failure,
}

keep_nothing-none :
    (x : Result (Unit {0}) × Store) (kept : Option ℕ) → (keep_nothing x).0 ≡ ok kept → kept ≡ none
keep_nothing-none (ok u, s) kept e = ground arith
keep_nothing-none (err y n, s) kept e = absurd (ground arith)

keep_some-some :
    (cents : ℕ) (x : Result (Unit {0}) × Store) (kept : Option ℕ)
    → (keep_some cents x).0 ≡ ok kept
    → kept ≡ some cents
keep_some-some cents (ok u, s) kept e = ground arith
keep_some-some cents (err y n, s) kept e = absurd (ground arith)

give_back-none :
    (env : Env) (o : Order) (reason : Text) (admin : ℕ) (s : Store) (kept : Option ℕ)
    → (give_back env o reason admin s).0 ≡ ok kept
    → kept ≡ none
unfolding give_back
give_back-none env o reason admin s kept e = ground (
  arith,
  keep_nothing-none (create_refund env o.id (some admin) none reason true s) kept,
  keep_nothing-none (release_guarantee env o.id (some admin) s) kept,
)

send_again-none :
    (env : Env) (o : Order) (words : Option Text) (admin : ℕ) (s : Store) (kept : Option ℕ)
    → (send_again env o words admin s).0 ≡ ok kept
    → kept ≡ none
unfolding send_again
send_again-none env o words admin s kept e =
    let c = redelivery o words admin in
    let s₁ = regenerate_nonce env o.id s in
    elim (Result-cases (update_status env c s₁).0) [
      | inl (x, n, refused) ↦ absurd (ground arith)
      | inr (fx, done) ↦ ground arith
    ]

keep_cents-some :
    (env : Env) (o : Order) (cents : ℕ) (why reason : Text) (admin : ℕ) (s : Store)
    (kept : Option ℕ)
    → (keep_cents env o cents why reason admin s).0 ≡ ok kept
    → kept ≡ some cents
unfolding keep_cents
keep_cents-some env o cents why reason admin s kept e =
    let refund = create_refund env o.id (some admin) (some (o.total - cents)) reason true s in
    let capture = capture_guarantee env o.id (some cents) why (some admin) s in
    ground (arith, keep_some-some cents refund kept, keep_some-some cents capture kept)

-- What a retention that kept cents was allowed by.
pub record Allowed (f : Failure) (o : Order) (amount : Option ℕ) (words : Option Text) (cents : ℕ)
    : Type 0 where
  pub why : Text
  pub fault : f.fault ≡ customer
  pub asked : amount ≡ some cents
  pub some_cents : 1 ≤ cents
  pub at_most : cents ≤ o.total
  pub noted : words ≡ some why

check_retention-Allowed :
    (f : Failure) (o : Order) (amount : Option ℕ) (words : Option Text) (cents : ℕ) (why : Text)
    → check_retention f o amount words ≡ ok (cents, why)
    → Allowed f o amount words cents
unfolding check_retention
check_retention-Allowed f o none words cents why e = absurd (ground arith)
check_retention-Allowed f o (some c) none cents why e = absurd (ground arith)
check_retention-Allowed f o (some c) (some w) cents why e = record {
  why = w;
  fault = ground arith;
  asked = ground arith;
  some_cents = ground arith;
  at_most = ground arith;
  noted = refl;
}

retain_fee-Allowed :
    (env : Env) (f : Failure) (o : Order) (amount : Option ℕ) (words : Option Text) (reason : Text)
    (admin : ℕ) (s : Store) (cents : ℕ)
    → (retain_fee env f o amount words reason admin s).0 ≡ ok (some cents)
    → Allowed f o amount words cents
unfolding retain_fee
retain_fee-Allowed env f o amount words reason admin s cents e =
    elim (Result-cases (check_retention f o amount words)) [
      | inl (x, n, refused) ↦ absurd (ground arith)
      | inr ((c, why), allowed) ↦
          let same = keep_cents-some env o c why reason admin s (some cents) (ground arith) in
          check_retention-Allowed f o amount words cents why (ground arith)
    ]

treat-Allowed :
    (env : Env) (action : Resolution) (f : Failure) (o : Order) (amount : Option ℕ)
    (words : Option Text) (admin : ℕ) (s : Store) (cents : ℕ)
    → (treat env action f o amount words admin s).0 ≡ ok (some cents)
    → Allowed f o amount words cents
unfolding treat
treat-Allowed env by_refund f o amount words admin s cents e =
    let lost = give_back-none env o (reason_text by_refund words) admin s (some cents) e in
    absurd (ground arith)
treat-Allowed env by_retention f o amount words admin s cents e =
    retain_fee-Allowed env f o amount words (reason_text by_retention words) admin s cents e
treat-Allowed env by_redelivery f o amount words admin s cents e =
    let lost = send_again-none env o words admin s (some cents) e in absurd (ground arith)

-- When a treatment returns and says that cents were kept from the customer, the failure was not the
-- restaurant's fault, a note was given, and they are the amount that was asked for, at least one cent
-- and at most the total of the order.
pub retained-Allowed :
    (env : Env) (key : ℕ) (action : Resolution) (amount : Option ℕ) (raw_note : Option Text)
    (admin cents : ℕ) (s s' : Store) (f : Failure)
    → resolve_failure env key action amount raw_note admin s ≡ (ok tt, s')
    → find_row (is_failure_row key) s'.failures ≡ some f
    → f.retained_cents ≡ some cents
    → (o : Order) × (find_row (is_order f.order_id) s.orders ≡ some o)
      × Allowed f o amount (clean_note raw_note) cents
retained-Allowed env key action amount raw_note admin cents s s' f e found kept =
    let words = clean_note raw_note in
    let a = resolve_failure_ok env key action amount raw_note admin s s' e in
    let (had, waits, ordered) = check_resolution_ok key s a.failure a.order a.checked in
    let row = Treated-row env key action amount words admin s s' a in
    let new = resolve env action a.kept words admin a.failure in
    let same : new ≡ f = ground arith in
    let held : a.kept ≡ some cents = ap (λ (x : Failure). x.retained_cents) same ∙ kept in
    elim a.treated [
      | inr nothing ↦ absurd (ground arith)
      | inl done ↦
          let allowed =
            treat-Allowed env action a.failure a.order amount words admin s cents
              (done ∙ ap ok held) in
          subst
            (λ (x : Failure).
              (o : Order) × (find_row (is_order x.order_id) s.orders ≡ some o)
              × Allowed x o amount words cents)
            same
            (
              a.order,
              ordered,
              record {
                why = allowed.why;
                fault = allowed.fault;
                asked = allowed.asked;
                some_cents = allowed.some_cents;
                at_most = allowed.at_most;
                noted = allowed.noted;
              },
            )
    ]
