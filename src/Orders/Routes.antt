-- ===== src/Orders/Routes.antt =====
-- The routing of a confirmation to the queue does not read the counter of changes outside the graph.
use api_kitchen.Base.{ℕ, Bool-cases, ◌+◌, ◌≡◌, refl, inl, inr}
use api_kitchen.Store.{Store}
use api_kitchen.Orders.Update.{Change, is_graph_transition, count_out_of_graph, route}
use api_kitchen.Orders.Tables.{Order}
use api_kitchen.Orders.Status.{OrderStatus, confirmed}

route_counter :
    (status : OrderStatus) (total : ℕ) (s : Store)
    → route status (record s { out_of_graph_total = total + 1 }) ≡ route status s
unfolding route
route_counter confirmed total s = refl
route_counter _ total s = refl

pub route-count :
    (c : Change) (o : Order) (s : Store)
    → route c.status (count_out_of_graph c o s) ≡ route c.status s
unfolding route
route-count c o s = elim (Bool-cases (is_graph_transition c o)) [
  | inl inside ↦ rw inside refl
  | inr outside ↦ rw outside (route_counter c.status s.out_of_graph_total s)
]
