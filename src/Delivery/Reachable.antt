-- ===== src/Delivery/Reachable.antt =====
-- Requests of the counter, the drivers and the staff, one after the other, from an empty table of
-- deliveries.
use api_kitchen.Base.{
  ℕ, Result, ok, err, atomic-keeps, Text, ◌≡◌, refl, sym, subst, ◌⊎◌, inl, inr, Option, none, List,
  [], ◌∷◌, arith,
}
use api_kitchen.Store.{Store, Env}
use api_kitchen.Orders.Service.{update_status}
use api_kitchen.Orders.Sync.{update_status-OneLive}
use api_kitchen.Orders.Status.{out_for_delivery}
use api_kitchen.Orders.AfterCommit.{Effect}
use api_kitchen.Delivery.Assign.{sort, assign, unassign}
use api_kitchen.Delivery.Capacity.{claim_one_ok, claim_all_cons, claim_tx_ok}
use api_kitchen.Delivery.Courier.{
  staff_change, check_departures, depart_all, driver_depart, driver_deliver,
  admin_deliver_without_code,
}
use api_kitchen.Delivery.Claim.{claim_all, claim_tx, claim, release}
use api_kitchen.Delivery.Fleet.{create-OneLive, assign-OneLive, unassign-OneLive}
use api_kitchen.Delivery.Tables.{claimed, Driver, FailureReason}
use api_kitchen.Delivery.OneLive.{OneLive}
use api_kitchen.Orders.Update.{Change}
use api_kitchen.Delivery.Report.{report_failure}
use api_kitchen.Delivery.Takes.{driver_arrived-OneLive, release-OneLive}
use api_kitchen.Delivery.Ends.{
  driver_deliver-OneLive, admin_deliver-OneLive, report_failure-OneLive,
}
use api_kitchen.Delivery.Arrive.{driver_arrived}

claim_all-OneLive :
    (env : Env) (driver establishment user : ℕ) (orders : List ℕ) (s s' : Store)
    → OneLive s.deliveries
    → claim_all env driver establishment user orders s ≡ ok s'
    → OneLive s'.deliveries
unfolding claim_all
claim_all-OneLive env driver establishment user [] s s' h e = ground arith
claim_all-OneLive env driver establishment user (order ∷ orders) s s' h e =
    let (s₁, one, rest) = claim_all_cons env driver establishment user order orders s s' e in
    let (free, made) = claim_one_ok env driver establishment user order s s₁ one in
    claim_all-OneLive env driver establishment user orders s₁ s'
      (rw made (create-OneLive env driver order claimed user s h free)) rest

claim-OneLive :
    (env : Env) (driver : Driver) (orders : List ℕ) (user : ℕ) (s : Store)
    → OneLive s.deliveries
    → OneLive (claim env driver orders user s).1.deliveries
unfolding claim
claim-OneLive env driver orders user s h =
    atomic-keeps (λ (t : Store). OneLive t.deliveries) (claim_tx env driver orders user) s h
      (λ done s' e.
        claim_all-OneLive env driver.id driver.establishment_id user (sort orders) s s' h
          (claim_tx_ok env driver orders user s s' e).0)

depart_all_step :
    (env : Env) (user order : ℕ) (orders : List ℕ) (s : Store)
    → let s₁ = (update_status env (staff_change order out_for_delivery none user none) s).1 in
      let after = (depart_all env user (order ∷ orders) s).1 in
      (after ≡ s₁) ⊎ (after ≡ (depart_all env user orders s₁).1)
unfolding depart_all
depart_all_step env user order orders s =
    go (update_status env (staff_change order out_for_delivery none user none) s).0 refl
  where
    go :
        (m : Result (List Effect))
        → (update_status env (staff_change order out_for_delivery none user none) s).0 ≡ m
        → let s₁ = (update_status env (staff_change order out_for_delivery none user none) s).1 in
          let after = (depart_all env user (order ∷ orders) s).1 in
          (after ≡ s₁) ⊎ (after ≡ (depart_all env user orders s₁).1)
    go (err x n) e = inl (rw (e, depart_all) refl)
    go (ok fx) e = inr (rw (e, depart_all) refl)

depart_all-OneLive :
    (env : Env) (user : ℕ) (orders : List ℕ) (s : Store)
    → OneLive s.deliveries
    → OneLive (depart_all env user orders s).1.deliveries
unfolding depart_all
depart_all-OneLive env user [] s h = h
depart_all-OneLive env user (order ∷ orders) s h =
    let change = staff_change order out_for_delivery none user none in
    let first = update_status-OneLive env change s h in
    let rest = depart_all-OneLive env user orders (update_status env change s).1 first in
    elim (depart_all_step env user order orders s) [
      | inl stops ↦ subst (λ (t : Store). OneLive t.deliveries) (sym stops) first
      | inr goes ↦ subst (λ (t : Store). OneLive t.deliveries) (sym goes) rest
    ]

driver_depart-OneLive :
    (env : Env) (driver : Driver) (keys : List ℕ) (user : ℕ) (s : Store)
    → OneLive s.deliveries
    → OneLive (driver_depart env driver keys user s).1.deliveries
unfolding driver_depart
driver_depart-OneLive env driver keys user s h = go (check_departures driver (sort keys) s) refl
  where
    go :
        (m : Result (List ℕ))
        → check_departures driver (sort keys) s ≡ m
        → OneLive (driver_depart env driver keys user s).1.deliveries
    go (err x n) e = rw (e, driver_depart) h
    go (ok orders) e = rw (e, driver_depart) (depart_all-OneLive env user orders s h)

pub data Request : Type 0 where
  assigns : (orders : List ℕ) (driver actor : ℕ) → Request
  unassigns : (order actor : ℕ) → Request
  claims : (driver : Driver) (orders : List ℕ) (user : ℕ) → Request
  releases : (driver : Driver) (key user : ℕ) → Request
  departs : (driver : Driver) (keys : List ℕ) (user : ℕ) → Request
  arrives : (driver : Driver) (key user : ℕ) → Request
  delivers :
      (driver : Driver) (key : ℕ) (received : Option ℕ) (code : Option Text) (user : ℕ) → Request
  delivers_without_code : (order : ℕ) (reason : Text) (user : ℕ) → Request
  reports :
      (driver : Driver) (key : ℕ) (reason : FailureReason) (note : Option Text) (calls user : ℕ)
      → Request
  changes : (change : Change) → Request

-- The store after one request, which may be refused.
abbrev pub serve : Env → Request → Store → Store
serve env (assigns orders driver actor) s = (assign env orders driver actor s).1
serve env (unassigns order actor) s = (unassign env order actor s).1
serve env (claims driver orders user) s = (claim env driver orders user s).1
serve env (releases driver key user) s = (release env driver key user s).1
serve env (departs driver keys user) s = (driver_depart env driver keys user s).1
serve env (arrives driver key user) s = (driver_arrived env driver key user s).1
serve env (delivers driver key received code user) s =
    (driver_deliver env driver key received code user s).1
serve env (delivers_without_code order reason user) s =
    (admin_deliver_without_code env order reason user s).1
serve env (reports driver key reason note calls user) s =
    (report_failure env driver key reason note calls user s).1
serve env (changes change) s = (update_status env change s).1

abbrev pub serve_requests : List (Env × Request) → Store → Store
serve_requests [] s = s
serve_requests ((env, r) ∷ rs) s = serve_requests rs (serve env r s)

serve-OneLive :
    (env : Env) (r : Request) (s : Store)
    → OneLive s.deliveries
    → OneLive (serve env r s).deliveries
serve-OneLive env (assigns orders driver actor) s h = assign-OneLive env orders driver actor s h
serve-OneLive env (unassigns order actor) s h = unassign-OneLive env order actor s h
serve-OneLive env (claims driver orders user) s h = claim-OneLive env driver orders user s h
serve-OneLive env (releases driver key user) s h = release-OneLive env driver key user s h
serve-OneLive env (departs driver keys user) s h = driver_depart-OneLive env driver keys user s h
serve-OneLive env (arrives driver key user) s h = driver_arrived-OneLive env driver key user s h
serve-OneLive env (delivers driver key received code user) s h =
    driver_deliver-OneLive env driver key received code user s h
serve-OneLive env (delivers_without_code order reason user) s h =
    admin_deliver-OneLive env order reason user s h
serve-OneLive env (reports driver key reason note calls user) s h =
    report_failure-OneLive env driver key reason note calls user s h
serve-OneLive env (changes change) s h = update_status-OneLive env change s h

-- Whatever assignments, claims, releases, departures, arrivals, hand-overs, failures and changes of
-- status are asked for, one after the other, accepted or refused, an order never has more than one
-- live delivery, from a store where each has at most one.
pub serve_requests-OneLive :
    (rs : List (Env × Request)) (s : Store)
    → OneLive s.deliveries
    → OneLive (serve_requests rs s).deliveries
serve_requests-OneLive [] s h = h
serve_requests-OneLive ((env, r) ∷ rs) s h =
    serve_requests-OneLive rs (serve env r s) (serve-OneLive env r s h)
