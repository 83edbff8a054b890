-- ===== src/Tests/Orders.antt =====
-- Runs of the order services, and instances of their theorems.
use api_kitchen.Base.{
  find_row, ◌≡◌, refl, true, false, none, some, [], ◌∷◌, arith, leb, ◌&&◌, is_key, text,
}
use api_kitchen.Base.Int.{pos, ◌+ℤ◌, ◌≤ℤ◌, negate}
use api_kitchen.Orders.Status.{confirmed, cancelled, ready, OrderStatus, pending, queued, delivered}
use api_kitchen.Store.{Store, Env}
use api_kitchen.Stock.RoundTrip.{qty_of}
use api_kitchen.Stock.Sufficient.{deduct-covered}
use api_kitchen.Stock.Tables.{Ingredient}
use api_kitchen.Stock.Movements.{required, take_all}
use api_kitchen.Orders.Stays.{serve_changes, serve_changes-final}
use api_kitchen.Orders.Service.{update_status, cancel_my_order}
use api_kitchen.Orders.Update.{Change, route, set_status}
use api_kitchen.Orders.Restock.{confirm_then_cancel}
use api_kitchen.Orders.Sync.{update_status-OneLive, update_status_closes}
use api_kitchen.Orders.Lawful.{Lawful, Ends, update_status-Lawful}
use api_kitchen.Orders.Transitions.{status_of}
use api_kitchen.Orders.Tables.{OrderType, paid, Order, internal, is_order}
use api_kitchen.Orders.Queue.{queue_stuck}
use api_kitchen.Delivery.Lifecycle.{active_delivery}
use api_kitchen.Delivery.Tables.{assigned, Delivery}
use api_kitchen.Delivery.OneLive.{OneLive}
use api_kitchen.Orders.Customer.{cancel_my_order_own}

-- Order 5, paid, delivered by driver 2; its recipes take 3 and 2 of ingredient 1.
abbrev pub dinner : Order
dinner = record {
  id = 5;
  user_id = some 7;
  customer_phone = none;
  establishment_id = some 1;
  order_type = OrderType.delivery;
  status = pending;
  payment_status = paid;
  total = 2500;
  promo_code = none;
  delivery_code_nonce = none;
  estimated_delivery_at = none;
}

abbrev pub kitchen_env : Env
kitchen_env = record {
  now = 1000;
  fresh_nonce = 77;
  departure_minutes = λ o stops. some 20;
  recipe_deltas = λ order. (1, pos 3) ∷ (1, pos 2) ∷ [];
  usable_qty = λ i. i.current_qty;
  stripe_accepts = true;
  stripe_refund_id = text "re_1";
  code_digest = λ order nonce. 120034;
  is_digit = λ c. leb 48 c && leb c 57;
}

abbrev pub ride : Delivery
ride = record {
  id = 4;
  order_id = 5;
  driver_id = 2;
  run_id = none;
  status = assigned;
  assigned_at = 900;
  assigned_by_user_id = none;
  departed_at = none;
  arrived_at = none;
  finished_at = none;
}

abbrev tomato : Ingredient
tomato = record { id = 1; current_qty = pos 9; alert_threshold = pos 4 }

abbrev pub kitchen_store : Store
kitchen_store = record {
  orders = dinner ∷ [];
  items = [];
  history = [];
  promotions = [];
  deliveries = ride ∷ [];
  runs = [];
  events = [];
  attempts = [];
  failures = [];
  drivers = [];
  employees = [];
  clock = [];
  settings = none;
  dispatch = [];
  ingredients = tomato ∷ [];
  movements = [];
  payments = [];
  refunds = [];
  peak_orders_threshold = none;
  out_of_graph_total = 0;
  next_delivery_id = 5;
  next_run_id = 1;
  next_failure_id = 1;
  next_payment_id = 1;
}

abbrev ask : OrderStatus → Change
ask status = record {
  order_id = 5;
  status = status;
  note = none;
  actor_user_id = some 3;
  authority = internal;
  delivery_proof = none;
  allow_redelivery = false;
}

abbrev with_status : OrderStatus → Store
with_status status = record kitchen_store { orders = set_status status dinner ∷ [] }

pub one_ride : OneLive kitchen_store.deliveries
one_ride order = ground arith

update_status-OneLive_example :
    OneLive (update_status kitchen_env (ask confirmed) kitchen_store).1.deliveries
update_status-OneLive_example =
    update_status-OneLive kitchen_env (ask confirmed) kitchen_store one_ride

update_status_closes_example :
    active_delivery 5 (update_status kitchen_env (ask cancelled) kitchen_store).1 ≡ none
unfolding update_status api_kitchen.Orders.Update.admit api_kitchen.Orders.Update.guards
    api_kitchen.Orders.Update.apply_change api_kitchen.Orders.Update.settle_stock route
update_status_closes_example =
    update_status_closes kitchen_env (ask cancelled) kitchen_store _ one_ride refl refl

serve_changes-final_example :
    status_of 5
      (serve_changes
        ((kitchen_env, ask confirmed) ∷ (kitchen_env, ask ready) ∷ [])
        (with_status delivered)).orders
    ≡ some delivered
serve_changes-final_example =
    serve_changes-final 5 delivered ((kitchen_env, ask confirmed) ∷ (kitchen_env, ask ready) ∷ [])
      (with_status delivered) refl ((refl, refl), ((refl, refl), tt)) refl

update_status-Lawful_example :
    (o : Order) × (actual : OrderStatus) × (find_row (is_order 5) kitchen_store.orders ≡ some o)
    × Lawful (ask confirmed) o kitchen_store
    × Ends confirmed kitchen_store actual
    × (status_of 5 (update_status kitchen_env (ask confirmed) kitchen_store).1.orders ≡ some actual)
unfolding update_status api_kitchen.Orders.Update.admit api_kitchen.Orders.Update.guards
    api_kitchen.Orders.Update.apply_change api_kitchen.Orders.Update.settle_stock route
    api_kitchen.Stock.Movements.deduct_for_order api_kitchen.Stock.Movements.check_all
    api_kitchen.Stock.Movements.check_ingredient api_kitchen.Orders.Update.follow required ◌+ℤ◌
update_status-Lawful_example =
    update_status-Lawful kitchen_env (ask confirmed) kitchen_store _ refl refl

abbrev confirmed_store : Store
confirmed_store = (update_status kitchen_env (ask confirmed) kitchen_store).1

confirm_then_cancel_example :
    (update_status kitchen_env (ask cancelled) confirmed_store).1.ingredients ≡ tomato ∷ []
unfolding route update_status api_kitchen.Orders.Update.admit api_kitchen.Orders.Update.guards
    api_kitchen.Orders.Update.apply_change api_kitchen.Orders.Update.settle_stock
    api_kitchen.Stock.Movements.deduct_for_order api_kitchen.Stock.Movements.check_all
    api_kitchen.Stock.Movements.check_ingredient api_kitchen.Orders.Update.follow required ◌+ℤ◌
    api_kitchen.Orders.AfterCommit.after_commit take_all api_kitchen.Stock.Movements.move
confirm_then_cancel_example =
    confirm_then_cancel kitchen_env kitchen_env (ask confirmed) (ask cancelled) kitchen_store
      confirmed_store (update_status kitchen_env (ask cancelled) confirmed_store).1 _ _ refl refl
      refl refl refl refl refl

abbrev queue_store : Store
queue_store = record (with_status queued) { peak_orders_threshold = some 1 }

queue_stuck_example :
    status_of 5 (update_status kitchen_env (ask confirmed) queue_store).1.orders ≡ some queued
unfolding update_status api_kitchen.Orders.Update.admit api_kitchen.Orders.Update.guards
    api_kitchen.Orders.Update.apply_change api_kitchen.Orders.Update.settle_stock route
queue_stuck_example =
    queue_stuck kitchen_env (ask confirmed) queue_store
      (update_status kitchen_env (ask confirmed) queue_store).1 _ 1 refl refl refl (omega arith)
      refl

deduct-covered_example :
    let s' = (take_all 5 none (kitchen_env.recipe_deltas 5) kitchen_store).1 in
    (qty_of 1 s'.ingredients ≡ some (pos 9 +ℤ negate (required 1 (kitchen_env.recipe_deltas 5))))
    × (pos 0 ≤ℤ pos 9 +ℤ negate (required 1 (kitchen_env.recipe_deltas 5)))
unfolding api_kitchen.Stock.Movements.deduct_for_order api_kitchen.Stock.Movements.check_all
    api_kitchen.Stock.Movements.check_ingredient required ◌+ℤ◌
deduct-covered_example =
    deduct-covered kitchen_env 5 none kitchen_store _ _ 1 (pos 9) refl refl refl

cancel_my_order_own_example :
    (o : Order) × (find_row (is_order 5) kitchen_store.orders ≡ some o)
    × (is_key o.user_id 7 ≡ true)
    × (o.status ≡ pending)
    × (status_of 5 (cancel_my_order kitchen_env 5 7 kitchen_store).1.orders ≡ some cancelled)
unfolding cancel_my_order update_status api_kitchen.Orders.Update.admit
    api_kitchen.Orders.Update.guards api_kitchen.Orders.Update.apply_change
    api_kitchen.Orders.Update.settle_stock route
cancel_my_order_own_example = cancel_my_order_own kitchen_env 5 7 kitchen_store _ refl
