-- ===== src/Delivery/Ends.antt =====
-- The ends of a delivery leave each order with at most one live delivery.
use api_kitchen.Base.{
  ℕ, ltb, Bool-cases, Option-cases, Result, ok, err, Result-cases, Text, strip, text_len, find_row,
  ◌≡◌, refl, sym, subst, ◌⊎◌, inl, inr, Option, none, some, arith,
}
use api_kitchen.Store.{Store, Env}
use api_kitchen.Payments.Guarantee.{settle_tx, settle_guarantee_cash}
use api_kitchen.Orders.Service.{update_status}
use api_kitchen.Orders.Update.{Change}
use api_kitchen.Orders.Sync.{update_status-OneLive}
use api_kitchen.Orders.Tables.{Order, is_order}
use api_kitchen.Orders.Status.{delivered, delivery_failed}
use api_kitchen.Orders.AfterCommit.{ensure_nonce}
use api_kitchen.Delivery.Report.{clean_note, full_label, check_failure, add_failure, report_failure}
use api_kitchen.Delivery.Courier.{
  staff_change, is_en_route, prove, settle_payment, conclude, driver_deliver, without_code,
  admin_deliver_without_code,
}
use api_kitchen.Delivery.Lifecycle.{active_delivery, add_event}
use api_kitchen.Delivery.Claim.{own_delivery}
use api_kitchen.Delivery.Tables.{
  Delivery, Proof, by_admin, delivered_without_code, said, Driver, FailureReason,
}
use api_kitchen.Delivery.Proof.{try_code, verify_code}
use api_kitchen.Delivery.OneLive.{OneLive}

prove-deliveries :
    (env : Env) (key order user : ℕ) (code : Option Text) (s : Store)
    → (prove env key order user code s).1.deliveries ≡ s.deliveries
unfolding prove verify_code try_code ensure_nonce
prove-deliveries env key order user code s = ground arith

settle_payment-deliveries :
    (env : Env) (o : Order) (received : Option ℕ) (user : ℕ) (s : Store)
    → (settle_payment env o received user s).1.deliveries ≡ s.deliveries
unfolding settle_payment settle_guarantee_cash settle_tx
settle_payment-deliveries env o received user s = ground arith

-- The store after a hand-over: where it stopped, or after the change of status.
conclude_store :
    (env : Env) (key : ℕ) (o : Order) (received : Option ℕ) (code : Option Text) (user : ℕ)
    (s : Store)
    → let s₁ = (prove env key o.id user code s).1 in
      let s₂ = (settle_payment env o received user s₁).1 in
      let after = (conclude env key o received code user s).1 in
      (after ≡ s₁)
      ⊎ ((after ≡ s₂)
          ⊎ ((p : Proof) × (after
                ≡ (update_status env (staff_change o.id delivered none user (some p)) s₂).1)))
unfolding conclude
conclude_store env key o received code user s = go (prove env key o.id user code s).0 refl
  where
    go :
        (m : Result Proof)
        → (prove env key o.id user code s).0 ≡ m
        → let s₁ = (prove env key o.id user code s).1 in
          let s₂ = (settle_payment env o received user s₁).1 in
          let after = (conclude env key o received code user s).1 in
          (after ≡ s₁)
          ⊎ ((after ≡ s₂)
              ⊎ ((p : Proof) × (after
                    ≡ (update_status env (staff_change o.id delivered none user (some p)) s₂).1)))
    go (err x n) e = inl (rw (e, conclude) refl)
    go (ok p) e =
        let s₁ = (prove env key o.id user code s).1 in
        elim (Result-cases (settle_payment env o received user s₁).0) [
          | inl (x, n, stops) ↦ inr (inl (rw (e, stops, conclude) refl))
          | inr (done, goes) ↦ inr (inr (p, rw (e, goes, conclude) refl))
        ]

conclude-OneLive :
    (env : Env) (key : ℕ) (o : Order) (received : Option ℕ) (code : Option Text) (user : ℕ)
    (s : Store)
    → OneLive s.deliveries
    → OneLive (conclude env key o received code user s).1.deliveries
conclude-OneLive env key o received code user s h =
    let s₁ = (prove env key o.id user code s).1 in
    let s₂ = (settle_payment env o received user s₁).1 in
    let h₁ : OneLive s₁.deliveries = rw (prove-deliveries env key o.id user code s) h in
    let h₂ : OneLive s₂.deliveries = rw (settle_payment-deliveries env o received user s₁) h₁ in
    elim (conclude_store env key o received code user s) [
      | inl e ↦ subst (λ (t : Store). OneLive t.deliveries) (sym e) h₁
      | inr (inl e) ↦ subst (λ (t : Store). OneLive t.deliveries) (sym e) h₂
      | inr (inr (p, e)) ↦
          subst (λ (t : Store). OneLive t.deliveries) (sym e)
            (update_status-OneLive env (staff_change o.id delivered none user (some p)) s₂ h₂)
    ]

deliver_store :
    (env : Env) (driver : Driver) (key : ℕ) (received : Option ℕ) (code : Option Text) (user : ℕ)
    (s : Store)
    → let after = (driver_deliver env driver key received code user s).1 in
      (after ≡ s) ⊎ ((o : Order) × (after ≡ (conclude env key o received code user s).1))
unfolding driver_deliver
deliver_store env driver key received code user s =
    elim (Result-cases (own_delivery driver key s)) [
      | inl (x, n, refused) ↦ inl (rw (refused, driver_deliver) refl)
      | inr (d, own) ↦ elim (Bool-cases (is_en_route d.status)) [
        | inr elsewhere ↦ inl (rw (own, elsewhere, driver_deliver) refl)
        | inl there ↦ elim (Option-cases (find_row (is_order d.order_id) s.orders)) [
          | inl lost ↦ inl (rw (own, there, lost, driver_deliver) refl)
          | inr (o, found) ↦ inr (o, rw (own, there, found, driver_deliver) refl)
        ]
      ]
    ]

pub driver_deliver-OneLive :
    (env : Env) (driver : Driver) (key : ℕ) (received : Option ℕ) (code : Option Text) (user : ℕ)
    (s : Store)
    → OneLive s.deliveries
    → OneLive (driver_deliver env driver key received code user s).1.deliveries
driver_deliver-OneLive env driver key received code user s h =
    elim (deliver_store env driver key received code user s) [
      | inl e ↦ subst (λ (t : Store). OneLive t.deliveries) (sym e) h
      | inr (o, e) ↦
          subst (λ (t : Store). OneLive t.deliveries) (sym e)
            (conclude-OneLive env key o received code user s h)
    ]

admin_store :
    (env : Env) (order : ℕ) (reason : Text) (user : ℕ) (s : Store)
    → let after = (admin_deliver_without_code env order reason user s).1 in
      (after ≡ s)
      ⊎ ((d : Delivery) × (change : Change) × (after
            ≡ (update_status env change
                (add_event d delivered_without_code (some user) (some (said (strip reason))) s)).1))
unfolding admin_deliver_without_code
admin_store env order reason user s = elim (Bool-cases (ltb (text_len (strip reason)) 3)) [
  | inl short ↦ inl (rw (short, admin_deliver_without_code) refl)
  | inr long ↦ elim (Option-cases (active_delivery order s)) [
    | inl nobody ↦ inl (rw (long, nobody, admin_deliver_without_code) refl)
    | inr (d, found) ↦ elim (Bool-cases (is_en_route d.status)) [
      | inr elsewhere ↦ inl (rw (long, found, elsewhere, admin_deliver_without_code) refl)
      | inl there ↦
          let why = strip reason in
          let s₁ = add_event d delivered_without_code (some user) (some (said why)) s in
          let change =
            staff_change order delivered (some (without_code why)) user (some by_admin) in
          elim (Result-cases (update_status env change s₁).0) [
            | inl (x, n, refused) ↦
                inl (rw (long, found, there, refused, admin_deliver_without_code) refl)
            | inr (fx, done) ↦
                inr (d, change, rw (long, found, there, done, admin_deliver_without_code) refl)
          ]
    ]
  ]
]

pub admin_deliver-OneLive :
    (env : Env) (order : ℕ) (reason : Text) (user : ℕ) (s : Store)
    → OneLive s.deliveries
    → OneLive (admin_deliver_without_code env order reason user s).1.deliveries
admin_deliver-OneLive env order reason user s h = elim (admin_store env order reason user s) [
  | inl e ↦ subst (λ (t : Store). OneLive t.deliveries) (sym e) h
  | inr (d, change, e) ↦
      subst (λ (t : Store). OneLive t.deliveries) (sym e) (update_status-OneLive env change _ h)
]

report_store :
    (env : Env) (driver : Driver) (key : ℕ) (reason : FailureReason) (raw : Option Text)
    (calls user : ℕ) (s : Store)
    → let after = (report_failure env driver key reason raw calls user s).1 in
      (after ≡ s)
      ⊎ ((d : Delivery) × (waited : Option ℕ) × (change : Change) × (after
            ≡ (update_status env change
                (add_failure d driver reason (clean_note raw) calls waited s)).1))
unfolding report_failure
report_store env driver key reason raw calls user s =
    let note = clean_note raw in
    elim (Result-cases (check_failure env driver key reason note calls s)) [
      | inl (x, n, refused) ↦ inl (rw (refused, report_failure) refl)
      | inr ((d, waited), passed) ↦
          let s₁ = add_failure d driver reason note calls waited s in
          let change =
            staff_change d.order_id delivery_failed (some (full_label reason note)) user none in
          elim (Result-cases (update_status env change s₁).0) [
            | inl (x, n, refused) ↦ inl (rw (passed, refused, report_failure) refl)
            | inr (fx, done) ↦ inr (d, waited, change, rw (passed, done, report_failure) refl)
          ]
    ]

pub report_failure-OneLive :
    (env : Env) (driver : Driver) (key : ℕ) (reason : FailureReason) (raw : Option Text)
    (calls user : ℕ) (s : Store)
    → OneLive s.deliveries
    → OneLive (report_failure env driver key reason raw calls user s).1.deliveries
report_failure-OneLive env driver key reason raw calls user s h =
    elim (report_store env driver key reason raw calls user s) [
      | inl e ↦ subst (λ (t : Store). OneLive t.deliveries) (sym e) h
      | inr (d, waited, change, e) ↦
          subst (λ (t : Store). OneLive t.deliveries) (sym e) (update_status-OneLive env change _ h)
    ]
