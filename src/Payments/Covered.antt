-- ===== src/Payments/Covered.antt =====
-- Refunds never give back more than a payment brought in.
use api_kitchen.Base.{
  ℕ, ◌==◌, Bool-cases, find_row, change_row, count_rows, All, ◌+◌, ◌≤◌, ◌≡◌, refl, inl, inr, Bool,
  false, some, List, [], ◌∷◌, arith, leb, Option-cases, ok, Result-cases, Text, strip, Option,
}
use api_kitchen.Store.{Store, Env}
use api_kitchen.Payments.Tables.{
  Payment, Refund, refund_succeeded, refund_failed, RefundId, failed_refund,
}
use api_kitchen.Payments.Refunds.{
  collected_cents, refunded_cents, mark_refunded, is_refundable, check_refund, check_amount,
  new_refund, post_refund, settle_refund, create_refund, granted_id,
}

abbrev pub is_payment : ℕ → Payment → Bool
is_payment key p = p.id == key

-- The primary key: no two rows have the same one.
abbrev pub PrimaryKeys : List Payment → Type 0
PrimaryKeys [] = Unit
PrimaryKeys (p ∷ ps) = (count_rows (is_payment p.id) ps ≡ 0) × PrimaryKeys ps

abbrev pub Covered : List Refund → Payment → Type 0
Covered rs p = refunded_cents p.id rs ≤ collected_cents p

-- Every payment has its own key, and was refunded no more than it brought in.
pub record IsCovered (s : Store) : Type 0 where
  pub keys : PrimaryKeys s.payments
  pub covered : All (Covered s.refunds) s.payments

found_elsewhere :
    (p q : Payment → Bool) (ps : List Payment) (r : Payment)
    → count_rows p ps ≡ 0
    → find_row q ps ≡ some r
    → p r ≡ false
found_elsewhere p q [] r none_there e = absurd (cc)
found_elsewhere p q (x ∷ ps) r none_there e = ground (arith, found_elsewhere p q ps r)

-- A refund of another payment.
Covered-skip :
    (r : Refund) (rs : List Refund) (ps : List Payment)
    → count_rows (is_payment r.payment_id) ps ≡ 0
    → All (Covered rs) ps
    → All (Covered (r ∷ rs)) ps
Covered-skip r rs [] none_there h = tt
Covered-skip r rs (p ∷ ps) none_there h = ground (arith, Covered-skip r rs ps)

count-mark :
    (key : ℕ) (q : Payment → Bool) (whole : Bool) (ps : List Payment)
    → count_rows (is_payment key) (change_row q (mark_refunded whole) ps)
      ≡ count_rows (is_payment key) ps
count-mark key q whole [] = refl
count-mark key q whole (p ∷ ps) = ground (arith, count-mark key q whole ps)

mark-PrimaryKeys :
    (q : Payment → Bool) (whole : Bool) (ps : List Payment)
    → PrimaryKeys ps
    → PrimaryKeys (change_row q (mark_refunded whole) ps)
mark-PrimaryKeys q whole [] h = tt
mark-PrimaryKeys q whole (p ∷ ps) h =
    ground (arith, count-mark p.id q whole ps, mark-PrimaryKeys q whole ps h.1)

mark-Covered :
    (rs : List Refund) (whole : Bool) (p : Payment)
    → Covered rs p
    → Covered rs (mark_refunded whole p)
unfolding collected_cents
mark-Covered rs whole p h = h

post-Covered :
    (q : Payment → Bool) (whole : Bool) (r : Refund) (rs : List Refund) (ps : List Payment)
    (p : Payment)
    → PrimaryKeys ps
    → All (Covered rs) ps
    → find_row q ps ≡ some p
    → r.payment_id ≡ p.id
    → refunded_cents p.id rs + r.amount ≤ collected_cents p
    → All (Covered (r ∷ rs)) (change_row q (mark_refunded whole) ps)
post-Covered q whole r rs [] p keys h e own enough = tt
post-Covered q whole r rs (x ∷ ps) p keys h e own enough = elim (Bool-cases (q x)) [
  | inl hit ↦ ground (arith, mark-Covered (r ∷ rs) whole x, Covered-skip r rs ps)
  | inr miss ↦ ground (
    arith,
    found_elsewhere (is_payment x.id) q ps p keys.0,
    post-Covered q whole r rs ps p keys.1 h.1,
  )
]

-- A failed refund counts for nothing.
failed-Covered :
    (r : Refund) (rs : List Refund) (ps : List Payment)
    → r.status ≡ refund_failed
    → All (Covered rs) ps
    → All (Covered (r ∷ rs)) ps
failed-Covered r rs [] e h = tt
failed-Covered r rs (p ∷ ps) e h = ground (arith, failed-Covered r rs ps)

failed-IsCovered :
    (r : Refund) (s : Store)
    → IsCovered s
    → r.status ≡ refund_failed
    → IsCovered (record s { refunds = r ∷ s.refunds })
failed-IsCovered r s h e = record {
  keys = h.keys;
  covered = failed-Covered r s.refunds s.payments e h.covered;
}

post_refund-IsCovered :
    (key : RefundId) (order : ℕ) (p : Payment) (cents : ℕ) (reason : Text) (user : Option ℕ)
    (s : Store)
    → IsCovered s
    → find_row (is_refundable order) s.payments ≡ some p
    → refunded_cents p.id s.refunds + cents ≤ collected_cents p
    → IsCovered (post_refund key order p cents reason user s)
unfolding post_refund
post_refund-IsCovered key order p cents reason user s h found enough =
    let whole = leb (collected_cents p) (refunded_cents p.id s.refunds + cents) in
    record {
      keys = mark-PrimaryKeys (is_refundable order) whole s.payments h.keys;
      covered =
          post-Covered (is_refundable order) whole
            (new_refund order p key cents reason refund_succeeded user) s.refunds s.payments p
            h.keys h.covered found refl enough;
    }

settle_refund-IsCovered :
    (env : Env) (order : ℕ) (p : Payment) (cents : ℕ) (reason : Text) (user : Option ℕ) (s : Store)
    → IsCovered s
    → find_row (is_refundable order) s.payments ≡ some p
    → refunded_cents p.id s.refunds + cents ≤ collected_cents p
    → IsCovered (settle_refund env order p cents reason user s).1
unfolding settle_refund
settle_refund-IsCovered env order p cents reason user s h found enough =
    let failed_key = failed_refund p.id env.now in
    ground (
      arith,
      post_refund-IsCovered (granted_id env p) order p cents reason user s h found enough,
      failed-IsCovered (new_refund order p failed_key cents reason refund_failed user) s h refl,
    )

check_refund_ok :
    (order : ℕ) (reason : Text) (allowed : Bool) (s : Store) (p : Payment) (remaining : ℕ)
    → check_refund order reason allowed s ≡ ok (p, remaining)
    → (find_row (is_refundable order) s.payments ≡ some p)
      × (refunded_cents p.id s.refunds + remaining ≤ collected_cents p)
unfolding check_refund
check_refund_ok order reason allowed s p remaining e =
    elim (Option-cases (find_row (is_refundable order) s.payments)) [
      | inl nothing ↦ absurd (ground arith)
      | inr (q, found) ↦ ground arith
    ]

check_amount_ok :
    (asked : Option ℕ) (remaining cents : ℕ)
    → check_amount asked remaining ≡ ok cents
    → (cents ≤ remaining) × (1 ≤ cents)
unfolding check_amount
check_amount_ok asked remaining cents e = ground arith

-- A refund that is asked for, granted or not, keeps every payment covered.
create_refund-IsCovered :
    (env : Env) (order : ℕ) (user asked : Option ℕ) (reason : Text) (allowed : Bool) (s : Store)
    → IsCovered s
    → IsCovered (create_refund env order user asked reason allowed s).1
unfolding create_refund
create_refund-IsCovered env order user asked reason allowed s h =
    elim (Result-cases (check_refund order reason allowed s)) [
      | inl (x, n, refused) ↦ rw (refused, create_refund) h
      | inr ((p, remaining), passed) ↦ elim (Result-cases (check_amount asked remaining)) [
        | inl (x, n, refused) ↦ rw (passed, refused, create_refund) h
        | inr (cents, allowed_cents) ↦
            let (found, room) = check_refund_ok order reason allowed s p remaining passed in
            let (few, some_cents) = check_amount_ok asked remaining cents allowed_cents in
            rw (passed, allowed_cents, create_refund)
              (settle_refund-IsCovered env order p cents (strip reason) user s h found
                (omega arith))
      ]
    ]

pub record RefundRequest : Type 0 where
  pub order : ℕ
  pub user : Option ℕ
  pub asked : Option ℕ
  pub reason : Text
  pub allowed : Bool

-- Refunds that are asked for one after the other.
abbrev pub refund_all : List (Env × RefundRequest) → Store → Store
refund_all [] s = s
refund_all ((env, r) ∷ rs) s =
    refund_all rs (create_refund env r.order r.user r.asked r.reason r.allowed s).1

-- However often refunds are asked for, one after the other and each over before the next begins,
-- with whatever amounts, for any orders, and whether Stripe accepts them or not, no payment is ever
-- refunded more than it brought in, from a store where none was and each payment has its own key.
pub refund_all-IsCovered :
    (rs : List (Env × RefundRequest)) (s : Store) → IsCovered s → IsCovered (refund_all rs s)
refund_all-IsCovered [] s h = h
refund_all-IsCovered ((env, r) ∷ rs) s h =
    refund_all-IsCovered rs (create_refund env r.order r.user r.asked r.reason r.allowed s).1
      (create_refund-IsCovered env r.order r.user r.asked r.reason r.allowed s h)
