-- ===== src/Delivery/Waited.antt =====
-- What a report of a failed delivery has gone through.
use api_kitchen.Base.{
  ℕ, Option-cases, ok, Result-cases, Text, find_row, ◌-◌, ◌*◌, ◌≤◌, ◌≡◌, refl, ap, ◌∙◌, inl, inr,
  true, Option, none, some, List, arith,
}
use api_kitchen.Store.{Store, Env}
use api_kitchen.Orders.Service.{update_status}
use api_kitchen.Orders.Update.{route}
use api_kitchen.Orders.Restock.{actual_of}
use api_kitchen.Orders.Parts.{update_status_ok}
use api_kitchen.Orders.Transitions.{status_of, update_status-status_of}
use api_kitchen.Orders.Status.{delivery_failed}
use api_kitchen.Orders.AfterCommit.{Effect}
use api_kitchen.Delivery.Report.{
  is_waiting_reason, clean_note, full_label, check_wait, check_failure, add_failure, report_failure,
}
use api_kitchen.Delivery.Courier.{staff_change, is_en_route}
use api_kitchen.Delivery.Claim.{is_delivery_row, own_delivery}
use api_kitchen.Delivery.Takes.{own_delivery_ok}
use api_kitchen.Delivery.Rules.{get_effective}
use api_kitchen.Delivery.Tables.{arrived, Delivery, Driver, FailureReason}

-- The wait and the calls that the restaurant asks for, when the reason asks for them.
abbrev pub HasWaited : Env → Driver → Delivery → FailureReason → ℕ → Store → Type 0
HasWaited env driver d reason calls s =
    let rules = get_effective driver.establishment_id s in
    is_waiting_reason reason ≡ true
    → (since : ℕ) × (d.arrived_at ≡ some since)
      × (d.status ≡ arrived)
      × (rules.failure_min_wait_minutes * 60 ≤ env.now - since)
      × (rules.failure_min_call_attempts ≤ calls)

check_wait-HasWaited :
    (env : Env) (driver : Driver) (d : Delivery) (reason : FailureReason) (calls : ℕ) (s : Store)
    (waited : Option ℕ)
    → check_wait env driver d reason calls s ≡ ok waited
    → HasWaited env driver d reason calls s
unfolding check_wait
check_wait-HasWaited env driver d reason calls s waited e must = elim (Option-cases d.arrived_at) [
  | inl never ↦ absurd (ground arith)
  | inr (since, at) ↦ (since, at, ground arith, ground arith, ground arith)
]

check_failure_ok :
    (env : Env) (driver : Driver) (key : ℕ) (reason : FailureReason) (remark : Option Text)
    (calls : ℕ) (s : Store) (d : Delivery) (waited : Option ℕ)
    → check_failure env driver key reason remark calls s ≡ ok (d, waited)
    → (own_delivery driver key s ≡ ok d)
      × (is_en_route d.status ≡ true)
      × (check_wait env driver d reason calls s ≡ ok waited)
unfolding check_failure
check_failure_ok env driver key reason remark calls s d waited e =
    elim (Result-cases (own_delivery driver key s)) [
      | inl (x, n, refused) ↦ absurd (ground arith)
      | inr (own, found) ↦ ground arith
    ]

route_failed : (s : Store) → route delivery_failed s ≡ delivery_failed
unfolding route
route_failed s = refl

report_ok :
    (env : Env) (driver : Driver) (key : ℕ) (reason : FailureReason) (raw : Option Text)
    (calls user : ℕ) (s : Store)
    → (report_failure env driver key reason raw calls user s).0 ≡ ok tt
    → (d : Delivery) × (waited : Option ℕ) × (fx : List Effect) × (check_failure env driver key
          reason
          (clean_note raw)
          calls
          s
        ≡ ok (d, waited))
      × (let s₁ = add_failure d driver reason (clean_note raw) calls waited s in
          let label = full_label reason (clean_note raw) in
          let r =
            update_status env (staff_change d.order_id delivery_failed (some label) user none) s₁ in
          (r.0 ≡ ok fx) × ((report_failure env driver key reason raw calls user s).1 ≡ r.1))
unfolding report_failure
report_ok env driver key reason raw calls user s e =
    let note = clean_note raw in
    elim (Result-cases (check_failure env driver key reason note calls s)) [
      | inl (x, n, refused) ↦ absurd (ground arith)
      | inr ((d, waited), passed) ↦
          let s₁ = add_failure d driver reason note calls waited s in
          let change =
            staff_change d.order_id delivery_failed (some (full_label reason note)) user none in
          elim (Result-cases (update_status env change s₁).0) [
            | inl (x, n, refused) ↦ absurd (ground arith)
            | inr (fx, done) ↦
                (d, waited, fx, passed, (done, rw (passed, done, report_failure) refl))
          ]
    ]

-- When the driver's report of a failure returns, the delivery was the driver's own and on its way;
-- for a customer who is absent or cannot be reached, the driver had arrived, had waited the time
-- that the rules of the establishment ask for and had called as often; and the order ends as failed.
pub report_failure-HasWaited :
    (env : Env) (driver : Driver) (key : ℕ) (reason : FailureReason) (raw : Option Text)
    (calls user : ℕ) (s : Store)
    → (report_failure env driver key reason raw calls user s).0 ≡ ok tt
    → (d : Delivery) × (find_row (is_delivery_row key) s.deliveries ≡ some d)
      × (d.driver_id ≡ driver.id)
      × (is_en_route d.status ≡ true)
      × HasWaited env driver d reason calls s
      × (status_of d.order_id (report_failure env driver key reason raw calls user s).1.orders
          ≡ some delivery_failed)
report_failure-HasWaited env driver key reason raw calls user s e =
    let (d, waited, fx, passed, done) = report_ok env driver key reason raw calls user s e in
    let note = clean_note raw in
    let (own, there, wait) = check_failure_ok env driver key reason note calls s d waited passed in
    let (found, of_driver) = own_delivery_ok driver key s d own in
    let s₁ = add_failure d driver reason note calls waited s in
    let change =
      staff_change d.order_id delivery_failed (some (full_label reason note)) user none in
    let a = update_status_ok env change s₁ fx done.0 in
    (
      d,
      found,
      of_driver,
      there,
      check_wait-HasWaited env driver d reason calls s waited wait,
      ap (λ (t : Store). status_of d.order_id t.orders) done.1
          ∙ update_status-status_of env change s₁ a
          ∙ ap some (actual_of env change s₁ a ∙ route_failed s₁),
    )
