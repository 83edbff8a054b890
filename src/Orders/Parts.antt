-- ===== src/Orders/Parts.antt =====
-- `update_status` taken apart: the steps that a change which returned went through.
use api_kitchen.Base.{
  ℕ, Result, ok, err, find_row, ◌≡◌, refl, ◌⊎◌, true, false, Option, some, List, arith,
}
use api_kitchen.Store.{Store, Env}
use api_kitchen.Payments.Guarantee.{release_guarantee, release_best_effort, release_tx}
use api_kitchen.Orders.Service.{update_status}
use api_kitchen.Orders.Update.{
  Change, guards, is_graph_transition, admit, count_out_of_graph, route, write_status, follow,
  settle_stock, apply_change,
}
use api_kitchen.Orders.Tables.{Order, is_internal, is_order}
use api_kitchen.Orders.Keeps.{Agrees}
use api_kitchen.Orders.Status.{
  OrderStatus, out_for_delivery, delivered, cancelled, rejected, delivery_failed,
}
use api_kitchen.Orders.AfterCommit.{Effect, ensure_nonce, after_commit}
use api_kitchen.Delivery.Lifecycle.{proof_note, on_delivered, on_order_closed}
use api_kitchen.Delivery.Tables.{
  handed_over, failed, called_off, was_delivered, was_failed, was_cancelled, closed_by,
}
use api_kitchen.Delivery.OneLive.{OneLive, on_departure-OneLive, close_active-OneLive}

pub record Applied (env : Env) (c : Change) (s : Store) : Type 0 where
  pub order : Order
  pub actual : OrderStatus
  pub low : List ℕ
  pub committed : Store
  pub admitted : admit c s ≡ ok order
  pub applied :
      apply_change env c order (count_out_of_graph c order s) ≡ ok (actual, low, committed)
  pub tables : (update_status env c s).1 ≡ after_commit env c.actor_user_id actual order committed

-- The counter touches no table.
pub count_out_of_graph-Agrees :
    (c : Change) (o : Order) (s : Store) → Agrees s (count_out_of_graph c o s)
count_out_of_graph-Agrees c o s = ground arith

pub update_status_ok :
    (env : Env) (c : Change) (s : Store) (fx : List Effect)
    → (update_status env c s).0 ≡ ok fx
    → Applied env c s
unfolding update_status
update_status_ok env c s fx e = go (admit c s) refl
  where
    go : (m : Result Order) → admit c s ≡ m → Applied env c s
    go (err x n) h = absurd (ground arith)
    go (ok o) h = inner (apply_change env c o (count_out_of_graph c o s)) refl
      where
        inner :
            (m : Result (OrderStatus × List ℕ × Store))
            → apply_change env c o (count_out_of_graph c o s) ≡ m
            → Applied env c s
        inner (err x n) k = absurd (ground arith)
        inner (ok (actual, low, s₂)) k = record {
          order = o;
          actual = actual;
          low = low;
          committed = s₂;
          admitted = h;
          applied = k;
          tables = ground arith;
        }

-- The status that was written is the one asked for, or the queue for a confirmation.
pub apply_change_ok :
    (env : Env) (c : Change) (o : Order) (s : Store) (actual : OrderStatus) (low : List ℕ)
    (s' : Store)
    → apply_change env c o s ≡ ok (actual, low, s')
    → (actual ≡ route c.status s)
      × (settle_stock env c o actual (follow env c o actual (write_status c actual s))
          ≡ ok (low, s'))
unfolding apply_change
apply_change_ok env c o s actual low s' e = ground arith

pub admit_ok :
    (c : Change) (s : Store) (o : Order)
    → admit c s ≡ ok o
    → (find_row (is_order c.order_id) s.orders ≡ some o)
      × (guards c o s ≡ ok tt)
      × ((is_internal c.authority ≡ false) ⊎ (is_graph_transition c o ≡ true))
unfolding admit
admit_ok c s o e = ground arith

release-deliveries :
    (env : Env) (order : ℕ) (user : Option ℕ) (s : Store)
    → (release_best_effort env order user s).deliveries ≡ s.deliveries
unfolding release_best_effort release_guarantee release_tx
release-deliveries env order user s = ground arith

-- The release of a guarantee and the delivery code leave the deliveries alone.
pub after_commit-deliveries :
    (env : Env) (actor : Option ℕ) (actual : OrderStatus) (o : Order) (s : Store)
    → (after_commit env actor actual o s).deliveries ≡ s.deliveries
unfolding after_commit ensure_nonce
after_commit-deliveries env actor actual o s = ground (arith, release-deliveries env o.id actor s)

pub follow-OneLive :
    (env : Env) (c : Change) (o : Order) (actual : OrderStatus) (s : Store)
    → OneLive s.deliveries
    → OneLive (follow env c o actual s).deliveries
unfolding follow on_delivered on_order_closed
follow-OneLive env c o out_for_delivery s h = on_departure-OneLive env o c.actor_user_id s h
follow-OneLive env c o delivered s h =
    close_active-OneLive env o.id handed_over was_delivered c.actor_user_id
      (proof_note c.delivery_proof) s h
follow-OneLive env c o cancelled s h =
    close_active-OneLive env o.id called_off was_cancelled c.actor_user_id
      (some (closed_by cancelled)) s h
follow-OneLive env c o rejected s h =
    close_active-OneLive env o.id called_off was_cancelled c.actor_user_id
      (some (closed_by rejected)) s h
follow-OneLive env c o delivery_failed s h =
    close_active-OneLive env o.id failed was_failed c.actor_user_id
      (some (closed_by delivery_failed)) s h
follow-OneLive env c o _ s h = h
