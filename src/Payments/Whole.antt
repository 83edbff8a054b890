-- ===== src/Payments/Whole.antt =====
-- A refund without an amount gives everything back.
use api_kitchen.Base.{
  ℕ, leb, Bool-cases, Option-cases, ok, Result-cases, Text, strip, find_row, change_row, ◌+◌, ◌-◌,
  ◌≤◌, ◌<◌, ◌≡◌, refl, sym, ap, subst, ◌∙◌, inl, inr, Bool, true, ◌||◌, Option, none, some, arith,
}
use api_kitchen.Store.{Store, Env}
use api_kitchen.Payments.Tables.{Payment, RefundId}
use api_kitchen.Payments.Refunds.{
  is_refundable, collected_cents, refunded_cents, is_manual, check_refund, check_amount,
  mark_refunded, post_refund, settle_refund, create_refund, granted_id,
}

post_refund-whole :
    (key : RefundId) (order : ℕ) (p : Payment) (reason : Text) (user : Option ℕ) (s : Store)
    → refunded_cents p.id s.refunds < collected_cents p
    → let left = collected_cents p - refunded_cents p.id s.refunds in
      let s' = post_refund key order p left reason user s in
      (refunded_cents p.id s'.refunds ≡ collected_cents p)
      × (s'.payments ≡ change_row (is_refundable order) (mark_refunded true) s.payments)
unfolding post_refund
post_refund-whole key order p reason user s room =
    let left = collected_cents p - refunded_cents p.id s.refunds in
    let full : leb (collected_cents p) (refunded_cents p.id s.refunds + left) ≡ true =
      ground arith in
    (
      ground arith,
      ap (λ whole. change_row (is_refundable order) (mark_refunded whole) s.payments) full,
    )

check_refund_left :
    (order : ℕ) (reason : Text) (allowed : Bool) (s : Store) (p : Payment) (remaining : ℕ)
    → check_refund order reason allowed s ≡ ok (p, remaining)
    → (find_row (is_refundable order) s.payments ≡ some p)
      × (remaining ≡ collected_cents p - refunded_cents p.id s.refunds)
      × (refunded_cents p.id s.refunds < collected_cents p)
unfolding check_refund
check_refund_left order reason allowed s p remaining e =
    elim (Option-cases (find_row (is_refundable order) s.payments)) [
      | inl nothing ↦ absurd (ground arith)
      | inr (q, found) ↦ ground arith
    ]

whole_amount : (remaining : ℕ) → 1 ≤ remaining → check_amount none remaining ≡ ok remaining
unfolding check_amount
whole_amount remaining some_left = ground arith

settled_store :
    (env : Env) (order : ℕ) (p : Payment) (cents : ℕ) (reason : Text) (user : Option ℕ)
    (s s' : Store)
    → settle_refund env order p cents reason user s ≡ (ok tt, s')
    → post_refund (granted_id env p) order p cents reason user s ≡ s'
unfolding settle_refund
settled_store env order p cents reason user s s' e =
    elim (Bool-cases (is_manual p.provider || env.stripe_accepts)) [
      | inl taken ↦ ground arith
      | inr refused ↦ absurd (ground arith)
    ]

create_settled :
    (env : Env) (order : ℕ) (user : Option ℕ) (reason : Text) (allowed : Bool) (s : Store)
    (p : Payment) (remaining : ℕ)
    → check_refund order reason allowed s ≡ ok (p, remaining)
    → 1 ≤ remaining
    → create_refund env order user none reason allowed s
      ≡ settle_refund env order p remaining (strip reason) user s
unfolding create_refund
create_settled env order user reason allowed s p remaining passed some_left =
    rw (passed, whole_amount remaining some_left, create_refund) refl

-- When a refund that names no amount returns, the order had a payment that was paid, what it was
-- refunded is then what it brought in, and it is marked as refunded.
pub refund_whole :
    (env : Env) (order : ℕ) (user : Option ℕ) (reason : Text) (allowed : Bool) (s s' : Store)
    → create_refund env order user none reason allowed s ≡ (ok tt, s')
    → (p : Payment) × (find_row (is_refundable order) s.payments ≡ some p)
      × (refunded_cents p.id s'.refunds ≡ collected_cents p)
      × (s'.payments ≡ change_row (is_refundable order) (mark_refunded true) s.payments)
unfolding create_refund
refund_whole env order user reason allowed s s' e =
    elim (Result-cases (check_refund order reason allowed s)) [
      | inl (x, n, refused) ↦ absurd (ground arith)
      | inr ((p, remaining), passed) ↦
          let (found, left, room) = check_refund_left order reason allowed s p remaining passed in
          let settled : settle_refund env order p remaining (strip reason) user s ≡ (ok tt, s') =
            sym (create_settled env order user reason allowed s p remaining passed (omega arith))
            ∙ e in
          let same =
            ap (λ cents. post_refund (granted_id env p) order p cents (strip reason) user s)
              (sym left)
            ∙ settled_store env order p remaining (strip reason) user s s' settled in
          let (whole, marked) =
            post_refund-whole (granted_id env p) order p (strip reason) user s room in
          (
            p,
            found,
            subst (λ (t : Store). refunded_cents p.id t.refunds ≡ collected_cents p) same whole,
            subst
                (λ (t : Store).
                  t.payments ≡ change_row (is_refundable order) (mark_refunded true) s.payments)
                same marked,
          )
    ]
