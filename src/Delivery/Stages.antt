-- ===== src/Delivery/Stages.antt =====
-- The stages of a hand-over by the driver: its proof, its settlement and its change of status.
use api_kitchen.Base.{
  ℕ, Bool-cases, Option-cases, Result, ok, err, Text, find_row, ◌≤◌, ◌≡◌, refl, ◌⊎◌, inl, inr, true,
  Option, none, some, List, arith,
}
use api_kitchen.Store.{Store, Env}
use api_kitchen.Payments.Guarantee.{settle_tx, settle_guarantee_cash}
use api_kitchen.Orders.Service.{update_status}
use api_kitchen.Orders.Tables.{is_paid, is_guaranteed, Order, is_order}
use api_kitchen.Orders.Status.{delivered}
use api_kitchen.Orders.AfterCommit.{Effect}
use api_kitchen.Delivery.Courier.{staff_change, given_code, prove, settle_payment, conclude}
use api_kitchen.Delivery.Rules.{is_proof_required}
use api_kitchen.Delivery.Tables.{Proof}
use api_kitchen.Delivery.Proof.{verify_code}

pub prove_ok :
    (env : Env) (key order user : ℕ) (code : Option Text) (s : Store) (p : Proof)
    → (prove env key order user code s).0 ≡ ok p
    → is_proof_required s ≡ true
    → (submitted : Text) × (given_code code ≡ some submitted)
      × ((verify_code env key order (some user) submitted s).0 ≡ ok tt)
unfolding prove
prove_ok env key order user code s p e wanted = elim (Option-cases (given_code code)) [
  | inl nothing ↦ absurd (ground arith)
  | inr (submitted, given) ↦ (submitted, given, ground arith)
]

settle_tx_ok :
    (env : Env) (order cents : ℕ) (user : Option ℕ) (s : Store)
    → (settle_guarantee_cash env order (some cents) user s).0 ≡ ok tt
    → (o : Order) × (find_row (is_order order) s.orders ≡ some o) × (o.total ≤ cents)
unfolding settle_guarantee_cash settle_tx
settle_tx_ok env order cents user s e = elim (Option-cases (find_row (is_order order) s.orders)) [
  | inl nobody ↦ absurd (ground arith)
  | inr (o, found) ↦ (o, found, ground arith)
]

-- The order was paid already, or its total was received in cash.
abbrev pub IsSettled : Order → Option ℕ → List Order → Type 0
IsSettled o received orders =
    (is_paid o.payment_status ≡ true)
    ⊎ ((is_guaranteed o.payment_status ≡ true)
        × ((cents : ℕ) × (received ≡ some cents)
            × ((now : Order) × (find_row (is_order o.id) orders ≡ some now) × (now.total ≤ cents))))

pub settle_payment_ok :
    (env : Env) (o : Order) (received : Option ℕ) (user : ℕ) (s : Store)
    → (settle_payment env o received user s).0 ≡ ok tt
    → IsSettled o received s.orders
unfolding settle_payment
settle_payment_ok env o received user s e = elim (Bool-cases (is_guaranteed o.payment_status)) [
  | inr other ↦ inl (ground arith)
  | inl held ↦ elim (Option-cases received) [
    | inl nothing ↦ absurd (ground arith)
    | inr (cents, given) ↦
        inr (held, (cents, given, settle_tx_ok env o.id cents (some user) s (ground arith)))
  ]
]

-- The stages of a hand-over that returned.
pub record Concluded (env : Env) (key : ℕ) (o : Order) (received : Option ℕ) (code : Option Text)
    (user : ℕ) (s : Store) : Type 0 where
  pub proof : Proof
  pub fx : List Effect
  pub proved : (prove env key o.id user code s).0 ≡ ok proof
  pub paid_up : (settle_payment env o received user (prove env key o.id user code s).1).0 ≡ ok tt
  pub handed :
      let s₂ = (settle_payment env o received user (prove env key o.id user code s).1).1 in
      let r = update_status env (staff_change o.id delivered none user (some proof)) s₂ in
      (r.0 ≡ ok fx) × ((conclude env key o received code user s).1 ≡ r.1)

pub conclude_ok :
    (env : Env) (key : ℕ) (o : Order) (received : Option ℕ) (code : Option Text) (user : ℕ)
    (s : Store)
    → (conclude env key o received code user s).0 ≡ ok tt
    → Concluded env key o received code user s
unfolding conclude
conclude_ok env key o received code user s e = go (prove env key o.id user code s).0 refl
  where
    go :
        (m : Result Proof)
        → (prove env key o.id user code s).0 ≡ m
        → Concluded env key o received code user s
    go (err x n) k = absurd (ground arith)
    go (ok p) k =
        next (settle_payment env o received user (prove env key o.id user code s).1).0 refl
      where
        next :
            (m : Result (Unit {0}))
            → (settle_payment env o received user (prove env key o.id user code s).1).0 ≡ m
            → Concluded env key o received code user s
        next (err x n) j = absurd (ground arith)
        next (ok tt) j =
            last
              (update_status env (staff_change o.id delivered none user (some p))
                (settle_payment env o received user (prove env key o.id user code s).1).1).0
              refl
          where
            last :
                (m : Result (List Effect))
                → (update_status env
                    (staff_change o.id delivered none user (some p))
                    (settle_payment env o received user (prove env key o.id user code s).1).1).0
                  ≡ m
                → Concluded env key o received code user s
            last (err x n) i = absurd (ground arith)
            last (ok fx) i = record {
              proof = p;
              fx = fx;
              proved = k;
              paid_up = j;
              handed = (i, ground arith);
            }
