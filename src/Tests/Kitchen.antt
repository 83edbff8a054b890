-- ===== src/Tests/Kitchen.antt =====
-- A run of the preparation by stations, and an instance of its theorem.
use api_kitchen.Base.{find_row, ◌≡◌, refl, true, none, some, [], ◌∷◌}
use api_kitchen.Orders.Status.{preparing, ready, is_station_preparable}
use api_kitchen.Store.{Store}
use api_kitchen.Tests.Orders.{dinner, kitchen_env, kitchen_store}
use api_kitchen.Orders.Update.{set_status}
use api_kitchen.Orders.Preparation.{is_stuck, update_station_preparation}
use api_kitchen.Orders.Transitions.{status_of}
use api_kitchen.Orders.Tables.{
  Order, in_preparation, prepared, kitchen, counter, product, Item, is_order,
}
use api_kitchen.Orders.Stations.{StationMoved, update_station-StationMoved}

-- Order 5 has a pizza at the kitchen, and a drink that the counter has prepared.
abbrev pizza : Item
pizza = record {
  id = 1;
  order_id = 5;
  item_type = product;
  preparation_status = in_preparation;
  preparation_station = kitchen;
  prepared_at = none;
  prepared_by_user_id = none;
}

abbrev drink : Item
drink = record {
  id = 2;
  order_id = 5;
  item_type = product;
  preparation_status = prepared;
  preparation_station = counter;
  prepared_at = some 950;
  prepared_by_user_id = some 3;
}

abbrev busy_kitchen : Store
busy_kitchen = record kitchen_store {
  orders = set_status preparing dinner ∷ [];
  items = pizza ∷ drink ∷ [];
}

-- The kitchen ends last, so the order becomes ready.
kitchen_ends_lem :
    status_of 5
      (update_station_preparation kitchen_env 5 kitchen prepared none
        (some 3)
        busy_kitchen).1.orders
    ≡ some ready
unfolding update_station_preparation api_kitchen.Orders.Preparation.station_tx
    api_kitchen.Orders.Preparation.write_station api_kitchen.Orders.Preparation.all_ready
    api_kitchen.Orders.Preparation.follow_station
kitchen_ends_lem = refl

update_station-StationMoved_example :
    let s' =
      (update_station_preparation kitchen_env 5 kitchen prepared none (some 3) busy_kitchen).1 in
    (o : Order) × (find_row (is_order 5) busy_kitchen.orders ≡ some o)
    × (is_station_preparable o.status ≡ true)
    × (find_row (is_stuck 5 kitchen prepared) busy_kitchen.items ≡ none)
    × StationMoved 5 kitchen prepared o s'
unfolding update_station_preparation api_kitchen.Orders.Preparation.station_tx
update_station-StationMoved_example =
    update_station-StationMoved kitchen_env 5 kitchen prepared none (some 3) busy_kitchen
      (update_station_preparation kitchen_env 5 kitchen prepared none (some 3) busy_kitchen).1 pizza
      refl refl
