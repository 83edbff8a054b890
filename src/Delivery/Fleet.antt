-- ===== src/Delivery/Fleet.antt =====
-- Whatever the counter, the drivers and the orders do, an order has at most one live delivery.
use api_kitchen.Base.{
  ℕ, Option-cases, Result, ok, err, change_row, count-find_row-none, ◌≡◌, refl, sym, ◌⊎◌, inl, inr,
  none, some, List, [], ◌∷◌, arith, find_row, atomic-keeps,
}
use api_kitchen.Store.{Store, Env}
use api_kitchen.Delivery.Assign.{
  create_delivery, hand_to, place, assign_one, assign_all, sort, assign_tx, assign, unassign_tx,
  unassign,
}
use api_kitchen.Delivery.Lifecycle.{is_live_of, active_delivery, finish}
use api_kitchen.Delivery.Tables.{Delivery, EventKind, was_assigned, Driver, called_off}
use api_kitchen.Delivery.OneLive.{OneLive, live_count-change_row}
use api_kitchen.Delivery.Rules.{is_driver}

pub create-OneLive :
    (env : Env) (driver order : ℕ) (kind : EventKind) (actor : ℕ) (s : Store)
    → OneLive s.deliveries
    → active_delivery order s ≡ none
    → OneLive (create_delivery env driver order kind actor s).deliveries
unfolding create_delivery
create-OneLive env driver order kind actor s h free k =
    ground (arith, h k, count-find_row-none (is_live_of order) s.deliveries free)

place_free :
    (env : Env) (driver actor order : ℕ) (s : Store)
    → active_delivery order s ≡ none
    → (place env driver actor order s).1 ≡ create_delivery env driver order was_assigned actor s
unfolding place
place_free env driver actor order s free = rw (free, place) refl

place_taken :
    (env : Env) (driver actor order : ℕ) (s : Store) (d : Delivery)
    → active_delivery order s ≡ some d
    → let after = (place env driver actor order s).1.deliveries in
      (after ≡ s.deliveries)
      ⊎ (after ≡ change_row (is_live_of order) (hand_to driver actor env.now) s.deliveries)
unfolding place
place_taken env driver actor order s d found = ground arith

place-OneLive :
    (env : Env) (driver actor order : ℕ) (s : Store)
    → OneLive s.deliveries
    → OneLive (place env driver actor order s).1.deliveries
place-OneLive env driver actor order s h = elim (Option-cases (active_delivery order s)) [
  | inl free ↦
      rw (place_free env driver actor order s free)
        (create-OneLive env driver order was_assigned actor s h free)
  | inr (d, found) ↦ λ k. ground (
    arith,
    h k,
    place_taken env driver actor order s d found,
    live_count-change_row k order (hand_to driver actor env.now) s.deliveries d found refl,
  )
]

assign_one_ok :
    (env : Env) (d : Driver) (actor order : ℕ) (s : Store) (changed : List ℕ) (s' : Store)
    → assign_one env d actor order s ≡ ok (changed, s')
    → (place env d.id actor order s).1 ≡ s'
unfolding assign_one
assign_one_ok env d actor order s changed s' e = ground arith

assign_one-OneLive :
    (env : Env) (d : Driver) (actor order : ℕ) (s : Store) (changed : List ℕ) (s' : Store)
    → OneLive s.deliveries
    → assign_one env d actor order s ≡ ok (changed, s')
    → OneLive s'.deliveries
assign_one-OneLive env d actor order s changed s' h e =
    rw (sym (assign_one_ok env d actor order s changed s' e))
      (place-OneLive env d.id actor order s h)

-- The first order of an assignment that returned, and the others.
pub assign_all_cons :
    (env : Env) (d : Driver) (actor order : ℕ) (orders : List ℕ) (s : Store) (changed : List ℕ)
    (s' : Store)
    → assign_all env d actor (order ∷ orders) s ≡ ok (changed, s')
    → (first : List ℕ × Store) × (others : List ℕ) × (assign_one env d actor order s ≡ ok first)
      × (assign_all env d actor orders first.1 ≡ ok (others, s'))
unfolding assign_all
assign_all_cons env d actor order orders s changed s' e = go (assign_one env d actor order s) refl
  where
    go :
        (m : Result (List ℕ × Store))
        → assign_one env d actor order s ≡ m
        → (first : List ℕ × Store) × (others : List ℕ) × (assign_one env d actor order s ≡ ok first)
          × (assign_all env d actor orders first.1 ≡ ok (others, s'))
    go (err x n) k = absurd (ground arith)
    go (ok first) k = rest (assign_all env d actor orders first.1) refl
      where
        rest :
            (m : Result (List ℕ × Store))
            → assign_all env d actor orders first.1 ≡ m
            → (first : List ℕ × Store) × (others : List ℕ) × (assign_one env d actor order s
                ≡ ok first)
              × (assign_all env d actor orders first.1 ≡ ok (others, s'))
        rest (err x n) j = absurd (ground arith)
        rest (ok (others, s₂)) j = (first, others, k, ground arith)

assign_all-OneLive :
    (env : Env) (d : Driver) (actor : ℕ) (orders : List ℕ) (s : Store) (changed : List ℕ)
    (s' : Store)
    → OneLive s.deliveries
    → assign_all env d actor orders s ≡ ok (changed, s')
    → OneLive s'.deliveries
unfolding assign_all
assign_all-OneLive env d actor [] s changed s' h e = ground arith
assign_all-OneLive env d actor (order ∷ orders) s changed s' h e =
    let (first, others, one, rest) = assign_all_cons env d actor order orders s changed s' e in
    assign_all-OneLive env d actor orders first.1 others s'
      (assign_one-OneLive env d actor order s first.0 first.1 h one) rest

assign_tx_ok :
    (env : Env) (orders : List ℕ) (driver actor : ℕ) (s : Store) (changed : List ℕ) (s' : Store)
    → assign_tx env orders driver actor s ≡ ok (changed, s')
    → (d : Driver) × (find_row (is_driver driver) s.drivers ≡ some d)
      × (assign_all env d actor (sort orders) s ≡ ok (changed, s'))
unfolding assign_tx
assign_tx_ok env orders driver actor s changed s' e =
    elim (Option-cases (find_row (is_driver driver) s.drivers)) [
      | inl nobody ↦ absurd (ground arith)
      | inr (d, found) ↦ (d, found, ground arith)
    ]

pub assign-OneLive :
    (env : Env) (orders : List ℕ) (driver actor : ℕ) (s : Store)
    → OneLive s.deliveries
    → OneLive (assign env orders driver actor s).1.deliveries
unfolding assign
assign-OneLive env orders driver actor s h =
    atomic-keeps (λ (t : Store). OneLive t.deliveries) (assign_tx env orders driver actor) s h
      (λ changed s' e.
        let (d, found, all) = assign_tx_ok env orders driver actor s changed s' e in
        assign_all-OneLive env d actor (sort orders) s changed s' h all)

pub unassign-OneLive :
    (env : Env) (order actor : ℕ) (s : Store)
    → OneLive s.deliveries
    → OneLive (unassign env order actor s).1.deliveries
unfolding unassign unassign_tx
unassign-OneLive env order actor s h k = elim (Option-cases (active_delivery order s)) [
  | inl nobody ↦ ground (arith, h k)
  | inr (d, found) ↦ ground (
    arith,
    h k,
    live_count-change_row k order (finish called_off env.now) s.deliveries d found refl,
  )
]
