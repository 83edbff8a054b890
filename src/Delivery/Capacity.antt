-- ===== src/Delivery/Capacity.antt =====
-- What a driver who takes orders gets: new deliveries only, within the limit.
use api_kitchen.Base.{
  ℕ, Option-cases, Result, ok, err, All, ◌≤◌, ◌≡◌, refl, sym, ap, subst, ◌∙◌, inl, inr, true, none,
  List, [], ◌∷◌, ◌++◌, arith, commit_ok,
}
use api_kitchen.Store.{Store, Env}
use api_kitchen.Delivery.Assign.{sort, new_delivery, create_delivery}
use api_kitchen.Delivery.Lifecycle.{active_delivery}
use api_kitchen.Delivery.Claim.{active_count, claim_one, claim_all, claim_tx, claim}
use api_kitchen.Delivery.Rules.{get_effective}
use api_kitchen.Delivery.Tables.{assigned, Delivery, claimed, Driver}

-- A delivery that the driver has just taken, of an order that nobody had.
abbrev pub IsTaken : ℕ → Store → Delivery → Type 0
IsTaken driver s d =
    (d.driver_id ≡ driver) × (d.status ≡ assigned) × (active_delivery d.order_id s ≡ none)

pub claim_one_ok :
    (env : Env) (driver establishment user order : ℕ) (s s' : Store)
    → claim_one env driver establishment user order s ≡ ok s'
    → (active_delivery order s ≡ none) × (s' ≡ create_delivery env driver order claimed user s)
unfolding claim_one
claim_one_ok env driver establishment user order s s' e =
    elim (Option-cases (active_delivery order s)) [
      | inl free ↦ (free, ground arith)
      | inr (d, taken) ↦ absurd (ground arith)
    ]

pub claim_all_cons :
    (env : Env) (driver establishment user order : ℕ) (orders : List ℕ) (s s' : Store)
    → claim_all env driver establishment user (order ∷ orders) s ≡ ok s'
    → (s₁ : Store) × (claim_one env driver establishment user order s ≡ ok s₁)
      × (claim_all env driver establishment user orders s₁ ≡ ok s')
unfolding claim_all
claim_all_cons env driver establishment user order orders s s' e =
    go (claim_one env driver establishment user order s) refl
  where
    go :
        (m : Result Store)
        → claim_one env driver establishment user order s ≡ m
        → (s₁ : Store) × (claim_one env driver establishment user order s ≡ ok s₁)
          × (claim_all env driver establishment user orders s₁ ≡ ok s')
    go (err x n) k = absurd (ground arith)
    go (ok s₁) k = (s₁, k, ground arith)

-- What was free after a creation was free before it.
create-free :
    (env : Env) (driver order : ℕ) (user k : ℕ) (s : Store)
    → active_delivery k (create_delivery env driver order claimed user s) ≡ none
    → active_delivery k s ≡ none
unfolding create_delivery
create-free env driver order user k s e = ground arith

All-IsTaken :
    (env : Env) (driver order user : ℕ) (s : Store) (ds : List Delivery)
    → All (IsTaken driver (create_delivery env driver order claimed user s)) ds
    → All (IsTaken driver s) ds
All-IsTaken env driver order user s [] a = tt
All-IsTaken env driver order user s (d ∷ ds) (taken, a) =
    let (own, fresh, free) = taken in
    (
      (own, fresh, create-free env driver order user d.order_id s free),
      All-IsTaken env driver order user s ds a,
    )

All-append :
    (P : Delivery → Type 0) (ds es : List Delivery) → All P ds → All P es → All P (ds ++ es)
All-append P [] es a b = b
All-append P (d ∷ ds) es a b = (a.0, All-append P ds es a.1 b)

append_assoc : (a b c : List Delivery) → (a ++ b) ++ c ≡ a ++ (b ++ c)
append_assoc [] b c = refl
append_assoc (d ∷ a) b c = ap (λ r. d ∷ r) (append_assoc a b c)

-- The deliveries after a series of claims.
record Taken (driver : ℕ) (s s' : Store) : Type 0 where
  pub taken : List Delivery
  pub kept : s'.deliveries ≡ taken ++ s.deliveries
  pub each : All (IsTaken driver s) taken

created :
    (env : Env) (driver order user : ℕ) (s : Store)
    → (create_delivery env driver order claimed user s).deliveries
      ≡ new_delivery s.next_delivery_id order driver user env.now ∷ s.deliveries
unfolding create_delivery
created env driver order user s = refl

claim_all-Taken :
    (env : Env) (driver establishment user : ℕ) (orders : List ℕ) (s s' : Store)
    → claim_all env driver establishment user orders s ≡ ok s'
    → Taken driver s s'
unfolding claim_all
claim_all-Taken env driver establishment user [] s s' e = record {
  taken = [];
  kept = ground arith;
  each = tt;
}
claim_all-Taken env driver establishment user (order ∷ orders) s s' e =
    let (s₁, one, rest) = claim_all_cons env driver establishment user order orders s s' e in
    let (free, made) = claim_one_ok env driver establishment user order s s₁ one in
    let later = claim_all-Taken env driver establishment user orders s₁ s' rest in
    let first = new_delivery s.next_delivery_id order driver user env.now in
    record {
      taken = later.taken ++ (first ∷ []);
      kept =
          later.kept
          ∙ ap (λ (t : Store). later.taken ++ t.deliveries) made
          ∙ ap (λ ds. later.taken ++ ds) (created env driver order user s)
          ∙ sym (append_assoc later.taken (first ∷ []) s.deliveries);
      each =
          All-append (IsTaken driver s) later.taken (first ∷ [])
            (All-IsTaken env driver order user s later.taken
              (subst (λ (t : Store). All (IsTaken driver t) later.taken) made later.each))
            ((refl, refl, free), tt);
    }

pub claim_tx_ok :
    (env : Env) (driver : Driver) (orders : List ℕ) (user : ℕ) (s s' : Store)
    → claim_tx env driver orders user s ≡ ok (tt, s')
    → (claim_all env driver.id driver.establishment_id user (sort orders) s ≡ ok s')
      × (active_count driver.id s'.deliveries
          ≤ (get_effective driver.establishment_id s).max_active_deliveries)
      × ((get_effective driver.establishment_id s).self_assign ≡ true)
unfolding claim_tx
claim_tx_ok env driver orders user s s' e =
    go (claim_all env driver.id driver.establishment_id user (sort orders) s) refl
  where
    go :
        (m : Result Store)
        → claim_all env driver.id driver.establishment_id user (sort orders) s ≡ m
        → (claim_all env driver.id driver.establishment_id user (sort orders) s ≡ ok s')
          × (active_count driver.id s'.deliveries
              ≤ (get_effective driver.establishment_id s).max_active_deliveries)
          × ((get_effective driver.establishment_id s).self_assign ≡ true)
    go (err x n) k = absurd (ground arith)
    go (ok s₁) k = ground arith

-- When a driver's claim returns, claims are allowed in the establishment, every delivery that was
-- there is as it was, those that were added are of this driver, for orders that had no live
-- delivery, and the driver has no more live deliveries than the limit.
pub claim-Taken :
    (env : Env) (driver : Driver) (orders : List ℕ) (user : ℕ) (s s' : Store)
    → claim env driver orders user s ≡ (ok tt, s')
    → let rules = get_effective driver.establishment_id s in
      (rules.self_assign ≡ true)
      × ((added : List Delivery) × (s'.deliveries ≡ added ++ s.deliveries)
          × All (IsTaken driver.id s) added)
      × (active_count driver.id s'.deliveries ≤ rules.max_active_deliveries)
unfolding claim
claim-Taken env driver orders user s s' e =
    let done : claim_tx env driver orders user s ≡ ok (tt, s') =
      commit_ok (claim_tx env driver orders user s) s s' tt e in
    let (all, within, allowed) = claim_tx_ok env driver orders user s s' done in
    let t = claim_all-Taken env driver.id driver.establishment_id user (sort orders) s s' all in
    (allowed, (t.taken, t.kept, t.each), within)
