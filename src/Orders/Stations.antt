-- ===== src/Orders/Stations.antt =====
-- What a station's preparation does to the items and to their order.
use api_kitchen.Base.{
  ℕ, Bool-cases, Option-cases, ok, Text, find_row, change_rows, ◌≡◌, refl, sym, ap, ◌∙◌, ◌⊎◌, inl,
  inr, Bool, true, false, Option, none, some, List, [], ◌∷◌, arith,
}
use api_kitchen.Orders.Status.{preparing, ready, OrderStatus, is_station_preparable}
use api_kitchen.Store.{Store, Env}
use api_kitchen.Orders.Preparation.{
  same_preparation, is_item_at, is_left, is_stuck, prepare, is_unfinished, all_ready,
  follow_station, is_followed, write_station, station_tx, update_station_preparation,
}
use api_kitchen.Orders.Transitions.{status_of, status_of-set_status}
use api_kitchen.Orders.Tables.{
  Order, PreparationStatus, to_prepare, in_preparation, prepared, Station, Item, is_order,
}

abbrev moved : Env → ℕ → Station → PreparationStatus → Option ℕ → Store → Store
moved env order post status user s = record s {
  items = change_rows (is_item_at order post) (prepare env.now status user) s.items;
}

station_ok :
    (env : Env) (order : ℕ) (post : Station) (status : PreparationStatus) (remark : Option Text)
    (user : Option ℕ) (s s' : Store) (i : Item)
    → update_station_preparation env order post status remark user s ≡ (ok tt, s')
    → find_row (is_left order post status) s.items ≡ some i
    → (o : Order) × (find_row (is_order order) s.orders ≡ some o)
      × (is_station_preparable o.status ≡ true)
      × (find_row (is_stuck order post status) s.items ≡ none)
      × (s' ≡ write_station order status remark o.status (moved env order post status user s))
unfolding update_station_preparation station_tx
station_ok env order post status remark user s s' i e left =
    elim (Option-cases (find_row (is_order order) s.orders)) [
      | inl nobody ↦ absurd (ground arith)
      | inr (o, found) ↦ elim (Option-cases (find_row (is_stuck order post status) s.items)) [
        | inr (j, stuck) ↦ absurd (ground arith)
        | inl free ↦ (o, found, ground arith, free, ground arith)
      ]
    ]

same_preparation_self : (status : PreparationStatus) → same_preparation status status ≡ true
same_preparation_self to_prepare = refl
same_preparation_self in_preparation = refl
same_preparation_self prepared = refl

-- A station that was moved has no item left.
moved-left :
    (order now : ℕ) (post : Station) (status : PreparationStatus) (user : Option ℕ)
    (items : List Item)
    → find_row
        (is_left order post status)
        (change_rows (is_item_at order post) (prepare now status user) items)
      ≡ none
moved-left order now post status user [] = refl
moved-left order now post status user (i ∷ items) =
    ground (arith, same_preparation_self status, moved-left order now post status user items)

write_station-items :
    (order : ℕ) (status : PreparationStatus) (remark : Option Text) (previous : OrderStatus)
    (s : Store)
    → (write_station order status remark previous s).items ≡ s.items
unfolding write_station
write_station-items order status remark previous s = ground arith

status_found :
    (key : ℕ) (os : List Order) (o : Order)
    → find_row (is_order key) os ≡ some o
    → status_of key os ≡ some o.status
status_found key os o found = ground arith

follow_station_kept :
    (status : PreparationStatus) (previous : OrderStatus) (whole : Bool)
    → is_followed status previous whole ≡ false
    → follow_station status previous whole ≡ previous
unfolding follow_station
follow_station_kept prepared preparing whole e = ground arith
follow_station_kept in_preparation ready whole e = absurd (cc)
follow_station_kept _ _ whole e = ground arith

write_station-status_of :
    (order : ℕ) (status : PreparationStatus) (remark : Option Text) (s : Store) (o : Order)
    → find_row (is_order order) s.orders ≡ some o
    → status_of order (write_station order status remark o.status s).orders
      ≡ some (follow_station status o.status (all_ready order s.items))
unfolding write_station
write_station-status_of order status remark s o found =
    elim (Bool-cases (is_followed status o.status (all_ready order s.items))) [
      | inl followed ↦ rw followed (
          status_of-set_status order (follow_station status o.status (all_ready order s.items))
            s.orders o found)
      | inr kept ↦ rw kept (
          status_found order s.orders o found
          ∙ ap some (sym (follow_station_kept status o.status (all_ready order s.items) kept)))
    ]

-- The moves of the order's own status.
pub record StationMoved (order : ℕ) (post : Station) (status : PreparationStatus) (o : Order)
    (s' : Store) : Type 0 where
  pub none_left : find_row (is_left order post status) s'.items ≡ none
  pub announced :
      status_of order s'.orders ≡ some ready
      → (o.status ≡ ready) ⊎ (find_row (is_unfinished order) s'.items ≡ none)
  pub completed :
      status ≡ prepared
      → o.status ≡ preparing
      → all_ready order s'.items ≡ true
      → status_of order s'.orders ≡ some ready
  pub reopened :
      status ≡ in_preparation → o.status ≡ ready → status_of order s'.orders ≡ some preparing

follow_announced :
    (status : PreparationStatus) (previous : OrderStatus) (order : ℕ) (items : List Item)
    → follow_station status previous (all_ready order items) ≡ ready
    → (previous ≡ ready) ⊎ (find_row (is_unfinished order) items ≡ none)
unfolding follow_station all_ready
follow_announced prepared preparing order items e =
    elim (Option-cases (find_row (is_unfinished order) items)) [
      | inl finished ↦ inr finished
      | inr (i, busy) ↦ absurd (ground arith)
    ]
follow_announced in_preparation ready order items e = inl refl
follow_announced _ _ order items e = inl (ground arith)

follow_completed : follow_station prepared preparing true ≡ ready
unfolding follow_station
follow_completed = refl

follow_reopened : (whole : Bool) → follow_station in_preparation ready whole ≡ preparing
unfolding follow_station
follow_reopened whole = refl

-- When a station with an item to move returns, the order could be prepared and no item of the
-- station was in a status that the move does not start from; all the items of the station are then
-- in the status asked for; an order that becomes ready by it has no unfinished item at any station;
-- an order in preparation whose stations are all ready becomes ready; and an order that was ready
-- goes back to preparation when a station starts again.
pub update_station-StationMoved :
    (env : Env) (order : ℕ) (post : Station) (status : PreparationStatus) (remark : Option Text)
    (user : Option ℕ) (s s' : Store) (i : Item)
    → update_station_preparation env order post status remark user s ≡ (ok tt, s')
    → find_row (is_left order post status) s.items ≡ some i
    → (o : Order) × (find_row (is_order order) s.orders ≡ some o)
      × (is_station_preparable o.status ≡ true)
      × (find_row (is_stuck order post status) s.items ≡ none)
      × StationMoved order post status o s'
update_station-StationMoved env order post status remark user s s' i e left =
    let (o, found, preparable, free, same) =
      station_ok env order post status remark user s s' i e left in
    let s₁ = moved env order post status user s in
    let items : s'.items ≡ s₁.items =
      ap (λ (t : Store). t.items) same ∙ write_station-items order status remark o.status s₁ in
    let after : status_of order s'.orders
        ≡ some (follow_station status o.status (all_ready order s'.items)) =
      ap (λ (t : Store). status_of order t.orders) same
      ∙ write_station-status_of order status remark s₁ o found
      ∙ ap (λ rows. some (follow_station status o.status (all_ready order rows))) (sym items) in
    (
      o,
      found,
      preparable,
      free,
      record {
        none_left =
            ap (find_row (is_left order post status)) items
            ∙ moved-left order env.now post status user s.items;
        announced = λ now_ready. follow_announced status o.status order s'.items (cc);
        completed = λ done was whole. rw (after, done, was, whole) (ap some follow_completed);
        reopened = λ again was.
            rw (after, again, was) (ap some (follow_reopened (all_ready order s'.items)));
      },
    )
