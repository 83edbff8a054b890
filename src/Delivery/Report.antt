-- ===== src/Delivery/Report.antt =====
-- The driver's report of a failed delivery (app/modules/delivery/failures.py: report_failure; the
-- reasons are a data type, so an unknown one has no branch).
use api_kitchen.Base.{
  ℕ, ltb, if◌then◌else◌, delivery_not_en_route, failure_note_required, failure_arrival_required,
  failure_too_early, failure_call_required, Result, ok, err, ◌>>=◌, ◌>>◌, raise_if, Action, Text,
  text, strip, text_len, zero, suc, ◌+◌, ◌-◌, ◌*◌, Bool, true, false, not, ◌&&◌, Option, none, some,
  [], ◌∷◌, ◌++◌,
}
use api_kitchen.Store.{Store, Env}
use api_kitchen.Orders.Service.{update_status}
use api_kitchen.Orders.Status.{delivery_failed}
use api_kitchen.Delivery.Courier.{staff_change, is_en_route}
use api_kitchen.Delivery.Claim.{own_delivery}
use api_kitchen.Delivery.Rules.{get_effective}
use api_kitchen.Delivery.Tables.{
  is_arrived, Delivery, Driver, FailureReason, customer_absent, customer_unreachable, wrong_address,
  customer_refused, order_problem, other_reason, fault_of,
}

abbrev pub is_waiting_reason : FailureReason → Bool
is_waiting_reason customer_absent = true
is_waiting_reason customer_unreachable = true
is_waiting_reason _ = false

abbrev pub is_other_reason : FailureReason → Bool
is_other_reason other_reason = true
is_other_reason _ = false

-- REASON_LABELS.
abbrev pub label_of : FailureReason → Text
label_of customer_absent = text "Client absent"
label_of customer_unreachable = text "Client injoignable"
label_of wrong_address = text "Adresse introuvable ou fausse"
label_of customer_refused = text "Client a refuse la commande"
label_of order_problem = text "Probleme de commande (restaurant)"
label_of other_reason = text "Autre"

-- `(note or "").strip() or None`.
abbrev pub or_none : Text → Option Text
or_none [] = none
or_none (c ∷ cs) = some (c ∷ cs)

abbrev pub clean_note : Option Text → Option Text
clean_note none = none
clean_note (some note) = or_none (strip note)

abbrev pub first_chars : ℕ → Text → Text
first_chars zero cs = []
first_chars (suc n) [] = []
first_chars (suc n) (c ∷ cs) = c ∷ first_chars n cs

abbrev pub cut_note : Option Text → Option Text
cut_note none = none
cut_note (some note) = some (first_chars 256 note)

abbrev pub is_short_note : Option Text → Bool
is_short_note none = true
is_short_note (some note) = ltb (text_len note) 3

abbrev pub full_label : FailureReason → Option Text → Text
full_label reason none = label_of reason
full_label reason (some note) = label_of reason ++ (text " - " ++ note)

-- The seconds that the driver has waited at the door, when the reason asks for a wait. The clock
-- does not go back, so the difference is not negative.
unfoldable pub check_wait : Env → Driver → Delivery → FailureReason → ℕ → Store → Result (Option ℕ)
check_wait env driver d reason calls s =
    if is_waiting_reason reason
    then elim d.arrived_at [
      | none ↦ err failure_arrival_required 409
      | some arrived_at ↦
          let rules = get_effective driver.establishment_id s in
          let waited = env.now - arrived_at in
          raise_if (not (is_arrived d.status)) failure_arrival_required 409
          >> raise_if (ltb waited (rules.failure_min_wait_minutes * 60)) failure_too_early 409
          >> raise_if (ltb calls rules.failure_min_call_attempts) failure_call_required 422
          >> ok (some waited)
    ]
    else ok none

-- The checks, with the delivery and the time that was waited.
unfoldable pub check_failure :
    Env → Driver → ℕ → FailureReason → Option Text → ℕ → Store → Result (Delivery × Option ℕ)
check_failure env driver key reason note calls s = do
  raise_if (is_other_reason reason && is_short_note note) failure_note_required 422
  d ← own_delivery driver key s
  raise_if (not (is_en_route d.status)) delivery_not_en_route 409
  waited ← check_wait env driver d reason calls s
  ok (d, waited)

abbrev pub add_failure :
    Delivery → Driver → FailureReason → Option Text → ℕ → Option ℕ → Store → Store
add_failure d driver reason note calls waited s = record s {
  failures =
      record {
        id = s.next_failure_id;
        delivery_id = d.id;
        order_id = d.order_id;
        driver_id = driver.id;
        reason = reason;
        fault = fault_of reason;
        note = cut_note note;
        call_attempts = calls;
        waited_seconds = waited;
        is_pending = true;
        resolution = none;
        retained_cents = none;
        resolved_by_user_id = none;
        resolved_at = none;
        resolution_note = none;
      }
      ∷ s.failures;
  next_failure_id = s.next_failure_id + 1;
}

-- The row and the change of status are one transaction.
unfoldable pub report_failure :
    Env → Driver → ℕ → FailureReason → Option Text → ℕ → ℕ → Action Store (Unit {0})
report_failure env driver key reason raw_note calls user s =
    let note = clean_note raw_note in
    elim (check_failure env driver key reason note calls s) [
      | err e n ↦ (err e n, s)
      | ok (d, waited) ↦
          let s₁ = add_failure d driver reason note calls waited s in
          let change =
            staff_change d.order_id delivery_failed (some (full_label reason note)) user none in
          let (r, s₂) = update_status env change s₁ in
          elim r [ err e n ↦ (err e n, s) | ok fx ↦ (ok tt, s₂) ]
    ]
