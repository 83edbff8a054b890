-- ===== src/Orders/Preparation.antt =====
-- The preparation of an order's items by one station of the kitchen
-- (app/modules/orders/service.py: update_station_preparation, _apply_preparation_status). The
-- notifications after the commit change no table and are left out.
use api_kitchen.Base.{
  ℕ, ◌==◌, if◌then◌else◌, is_some, order_not_found, order_not_preparable, order_station_not_found,
  invalid_preparation_transition, Result, ok, ◌>>=◌, ◌>>◌, raise_if, or_raise, Action, atomic, Text,
  text, is_empty, find_row, change_row, change_rows, Bool, true, false, not, ◌&&◌, Option, none,
  some, List, ◌∷◌,
}
use api_kitchen.Orders.Status.{preparing, ready, OrderStatus, is_station_preparable}
use api_kitchen.Store.{Store, Env}
use api_kitchen.Orders.Update.{set_status}
use api_kitchen.Orders.Tables.{
  internal, PreparationStatus, to_prepare, in_preparation, prepared, Station, kitchen, counter,
  no_station, Item, is_order,
}

-- VALID_PREPARATION_TRANSITIONS.
abbrev pub can_prepare : PreparationStatus → PreparationStatus → Bool
can_prepare to_prepare in_preparation = true
can_prepare to_prepare prepared = true
can_prepare in_preparation prepared = true
can_prepare prepared in_preparation = true
can_prepare _ _ = false

abbrev pub is_prepared : PreparationStatus → Bool
is_prepared prepared = true
is_prepared _ = false

abbrev pub same_preparation : PreparationStatus → PreparationStatus → Bool
same_preparation to_prepare to_prepare = true
same_preparation in_preparation in_preparation = true
same_preparation prepared prepared = true
same_preparation _ _ = false

abbrev pub same_station : Station → Station → Bool
same_station kitchen kitchen = true
same_station counter counter = true
same_station no_station no_station = true
same_station _ _ = false

abbrev pub has_station : Station → Bool
has_station no_station = false
has_station _ = true

abbrev pub is_item_at : ℕ → Station → Item → Bool
is_item_at order station i = i.order_id == order && same_station i.preparation_station station

-- An item of the station that is not in the status asked for.
abbrev pub is_left : ℕ → Station → PreparationStatus → Item → Bool
is_left order station status i =
    is_item_at order station i && not (same_preparation i.preparation_status status)

abbrev pub is_stuck : ℕ → Station → PreparationStatus → Item → Bool
is_stuck order station status i =
    is_left order station status i && not (can_prepare i.preparation_status status)

-- `_apply_preparation_status`.
abbrev pub prepare : ℕ → PreparationStatus → Option ℕ → Item → Item
prepare now status user i = record i {
  preparation_status = status;
  prepared_at = if is_prepared status then some now else none;
  prepared_by_user_id = if is_prepared status then user else none;
}

abbrev pub is_item_of : ℕ → Item → Bool
is_item_of order i = i.order_id == order && has_station i.preparation_station

-- An item of the order that a station still has to prepare.
abbrev pub is_unfinished : ℕ → Item → Bool
is_unfinished order i = is_item_of order i && not (is_prepared i.preparation_status)

unfoldable pub all_ready : ℕ → List Item → Bool
all_ready order items =
    is_some (find_row (is_item_of order) items)
    && not (is_some (find_row (is_unfinished order) items))

-- What the preparation of a station does to the order, and the note that goes with it.
unfoldable pub follow_station : PreparationStatus → OrderStatus → Bool → OrderStatus
follow_station prepared preparing whole = if whole then ready else preparing
follow_station in_preparation ready whole = preparing
follow_station _ status whole = status

abbrev pub is_followed : PreparationStatus → OrderStatus → Bool → Bool
is_followed prepared preparing whole = whole
is_followed in_preparation ready whole = true
is_followed _ _ _ = false

-- `note or "KDS station reopened"` when a station starts again.
abbrev pub station_note : PreparationStatus → Option Text → Option Text
station_note in_preparation none = some (text "KDS station reopened")
station_note in_preparation (some note) =
    if is_empty note then some (text "KDS station reopened") else some note
station_note _ note = note

unfoldable pub write_station : ℕ → PreparationStatus → Option Text → OrderStatus → Store → Store
write_station order status note previous s =
    let whole = all_ready order s.items in
    let next = follow_station status previous whole in
    if is_followed status previous whole
    then record s {
      orders = change_row (is_order order) (set_status next) s.orders;
      history =
          record {
            order_id = order;
            status = next;
            note = station_note status note;
            authority = internal;
          }
          ∷ s.history;
    }
    else s

-- The items of a station move together, or not at all; when they are there already, nothing changes.
unfoldable pub station_tx :
    Env
    → ℕ
    → Station
    → PreparationStatus
    → Option Text
    → Option ℕ
    → Store
    → Result (Unit {0} × Store)
station_tx env order station status note user s = do
  o ← or_raise (find_row (is_order order) s.orders) order_not_found 404
  raise_if (not (is_station_preparable o.status)) order_not_preparable 409
  raise_if (not (is_some (find_row (is_item_at order station) s.items))) order_station_not_found 404
  if not (is_some (find_row (is_left order station status) s.items))
      then ok (tt, s)
      else raise_if (is_some (find_row (is_stuck order station status) s.items))
          invalid_preparation_transition 422
        >> ok (
          tt,
          write_station order status note o.status (record s {
            items = change_rows (is_item_at order station) (prepare env.now status user) s.items;
          }),
        )

unfoldable pub update_station_preparation :
    Env → ℕ → Station → PreparationStatus → Option Text → Option ℕ → Action Store (Unit {0})
update_station_preparation env order station status note user =
    atomic (station_tx env order station status note user)
