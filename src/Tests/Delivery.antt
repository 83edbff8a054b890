-- ===== src/Tests/Delivery.antt =====
-- Runs of the delivery services, and instances of their theorems.
use api_kitchen.Base.{
  ℕ, leb, delivery_code_locked, ok, err, text, strip, text_eq, find_row, All, ◌≤◌, ◌<◌, ◌≡◌, refl,
  true, ◌&&◌, none, some, List, [], ◌∷◌, ◌++◌, arith, ◌+◌, waiting,
}
use api_kitchen.Tests.Orders.{ride, dinner, kitchen_store}
use api_kitchen.Store.{Store, Env}
use api_kitchen.Hr.Tables.{clock_open}
use api_kitchen.Orders.Update.{set_status}
use api_kitchen.Orders.Transitions.{status_of}
use api_kitchen.Orders.Status.{ready, out_for_delivery, delivery_failed}
use api_kitchen.Orders.AfterCommit.{ensure_nonce}
use api_kitchen.Delivery.Capacity.{IsTaken, claim-Taken}
use api_kitchen.Delivery.Report.{report_failure}
use api_kitchen.Delivery.Attempts.{
  verify_code_sound, no_step, and_then, attempts-bounded, code_checked, code_finished,
}
use api_kitchen.Delivery.Courier.{is_en_route}
use api_kitchen.Delivery.Claim.{active_count, claim, is_delivery_row}
use api_kitchen.Delivery.Rules.{get_effective}
use api_kitchen.Delivery.Tables.{arrived, Delivery, Driver, customer_absent}
use api_kitchen.Delivery.Proof.{
  derive_code, failed_attempts, nonce_of, verify_code, check_code, finish_code,
}
use api_kitchen.Delivery.OneLive.{OneLive}
use api_kitchen.Delivery.Reachable.{
  assigns, arrives, delivers, serve_requests, serve_requests-OneLive, Request,
}
use api_kitchen.Delivery.HandOver.{HandedOver, driver_deliver-HandedOver}
use api_kitchen.Delivery.Waited.{HasWaited, report_failure-HasWaited}

abbrev rider : Driver
rider = record { id = 2; user_id = 20; establishment_id = 1; is_active = true }

abbrev door_env : Env
door_env = record {
  now = 2000;
  fresh_nonce = 77;
  departure_minutes = λ order stops. some 20;
  recipe_deltas = λ order. [];
  usable_qty = λ i. i.current_qty;
  stripe_accepts = true;
  stripe_refund_id = text "re_1";
  code_digest = λ order nonce. 120034;
  is_digit = λ c. leb 48 c && leb c 57;
}

-- Order 5 is at the door of its customer, paid, and its code is 0034.
abbrev at_the_door : Store
at_the_door = record kitchen_store {
  orders = set_status out_for_delivery dinner ∷ [];
  deliveries =
      record ride {
        status = arrived;
        arrived_at = some 1000;
        departed_at = some 900;
        run_id = some 1;
      }
      ∷ [];
  drivers = rider ∷ [];
  employees = record { id = 6; user_id = 20 } ∷ [];
  clock =
      record {
        id = 1;
        employee_id = 6;
        shift_id = none;
        establishment_id = 1;
        clock_in_at = 0;
        clock_out_at = none;
        status = clock_open;
      }
      ∷ [];
  settings = some (record {
    driver_dispatch_enabled = true;
    delivery_proof_required = true;
    failure_min_wait_minutes = 5;
    failure_min_call_attempts = 1;
  });
  dispatch =
      record {
        establishment_id = 1;
        self_assign = true;
        max_active_deliveries = 2;
        failure_min_wait_minutes = none;
        failure_min_call_attempts = none;
      }
      ∷ [];
}

-- The kitchen has the order ready, and nobody has it.
abbrev on_the_pass : Store
on_the_pass = record at_the_door { orders = set_status ready dinner ∷ []; deliveries = [] }

door-OneLive : OneLive at_the_door.deliveries
door-OneLive order = ground arith

abbrev evening : List (Env × Request)
evening =
    (door_env, arrives rider 4 20)
    ∷ (door_env, delivers rider 4 none (some (text "0034")) 20)
    ∷ (door_env, assigns (5 ∷ []) 2 3)
    ∷ []

serve_requests-OneLive_example : OneLive (serve_requests evening at_the_door).deliveries
serve_requests-OneLive_example = serve_requests-OneLive evening at_the_door door-OneLive

claim-Taken_example :
    let s' = (claim door_env rider (5 ∷ []) 20 on_the_pass).1 in
    let rules = get_effective 1 on_the_pass in
    (rules.self_assign ≡ true)
    × ((added : List Delivery) × (s'.deliveries ≡ added ++ []) × All (IsTaken 2 on_the_pass) added)
    × (active_count 2 s'.deliveries ≤ rules.max_active_deliveries)
unfolding claim api_kitchen.Delivery.Claim.claim_tx get_effective
    api_kitchen.Delivery.Assign.check_known api_kitchen.Delivery.Claim.claim_all
    api_kitchen.Delivery.Claim.claim_one api_kitchen.Delivery.Assign.create_delivery
claim-Taken_example =
    claim-Taken door_env rider (5 ∷ []) 20 on_the_pass
      (claim door_env rider (5 ∷ []) 20 on_the_pass).1 refl

driver_deliver-HandedOver_example :
    HandedOver door_env rider 4 none (some (text " 0034")) 20 at_the_door
unfolding api_kitchen.Delivery.Courier.driver_deliver api_kitchen.Delivery.Claim.own_delivery
    api_kitchen.Delivery.Courier.conclude api_kitchen.Delivery.Courier.prove verify_code strip
    ensure_nonce api_kitchen.Delivery.Proof.try_code derive_code
    api_kitchen.Delivery.Courier.settle_payment api_kitchen.Orders.Service.update_status
    api_kitchen.Orders.Update.admit api_kitchen.Orders.Update.guards
    api_kitchen.Orders.Update.apply_change api_kitchen.Orders.Update.settle_stock
    api_kitchen.Orders.Update.route
driver_deliver-HandedOver_example =
    driver_deliver-HandedOver door_env rider 4 none (some (text " 0034")) 20 at_the_door refl

-- Two wrong codes pass the check together.
abbrev two_guesses : Store
two_guesses =
    let s = at_the_door in
    (finish_code door_env 4 5 none (text "2222")
      (finish_code door_env 4 5 none (text "1111") s).1).1

attempts-bounded_example : failed_attempts 4 two_guesses + waiting 4 [] ≤ 6
unfolding check_code strip
attempts-bounded_example =
    let s = at_the_door in
    let s' = (finish_code door_env 4 5 none (text "1111") s).1 in
    attempts-bounded 2 [] s two_guesses
      (and_then [] (4 ∷ []) [] s s two_guesses
        (code_checked door_env 4 (text "1111") [] s refl (omega arith))
        (and_then (4 ∷ []) (4 ∷ 4 ∷ []) [] s s two_guesses
          (code_checked door_env 4 (text "2222") (4 ∷ []) s refl (omega arith))
          (and_then (4 ∷ 4 ∷ []) (4 ∷ []) [] s s' two_guesses
            (code_finished door_env 4 5 none (text "1111") (4 ∷ 4 ∷ []) s (omega arith))
            (and_then (4 ∷ []) [] [] s' two_guesses two_guesses
              (code_finished door_env 4 5 none (text "2222") (4 ∷ []) s' (omega arith))
              (no_step [] two_guesses)))))
      4 (omega arith)

verify_code_sound_example :
    let s = at_the_door in
    let r = verify_code door_env 4 5 none (text "0034") s in
    (r.0 ≡ ok tt
      → (failed_attempts 4 s < 5)
        × ((nonce : ℕ) × (nonce_of 5 (ensure_nonce door_env 5 s) ≡ some nonce)
            × (text_eq (strip (text "0034")) (derive_code door_env 5 nonce) ≡ true)))
    × (5 ≤ failed_attempts 4 s → r ≡ (err delivery_code_locked 423, s))
verify_code_sound_example = verify_code_sound door_env 4 5 none (text "0034") at_the_door

report_failure-HasWaited_example :
    (d : Delivery) × (find_row (is_delivery_row 4) at_the_door.deliveries ≡ some d)
    × (d.driver_id ≡ 2)
    × (is_en_route d.status ≡ true)
    × HasWaited door_env rider d customer_absent 2 at_the_door
    × (status_of d.order_id
          (report_failure door_env rider 4 customer_absent none 2 20 at_the_door).1.orders
        ≡ some delivery_failed)
unfolding report_failure api_kitchen.Delivery.Report.check_failure
    api_kitchen.Delivery.Claim.own_delivery api_kitchen.Delivery.Report.check_wait get_effective
    api_kitchen.Delivery.Rules.tenant_rules api_kitchen.Orders.Service.update_status
    api_kitchen.Orders.Update.admit api_kitchen.Orders.Update.guards strip
    api_kitchen.Orders.Update.apply_change api_kitchen.Orders.Update.settle_stock
    api_kitchen.Orders.Update.route
report_failure-HasWaited_example =
    report_failure-HasWaited door_env rider 4 customer_absent none 2 20 at_the_door refl
