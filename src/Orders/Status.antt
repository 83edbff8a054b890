-- ===== src/Orders/Status.antt =====
-- The statuses of an order and its transition graph (app/modules/orders/service.py:
-- VALID_TRANSITIONS and the status sets beside it; the strings are constructors).
use api_kitchen.Base.{ℕ, Bool, true, false}

-- `unlisted` stands for any string that is none of the ten keys of VALID_TRANSITIONS.
pub data OrderStatus : Type 0 where
  pending confirmed queued preparing ready : OrderStatus
  out_for_delivery delivered cancelled rejected delivery_failed : OrderStatus
  unlisted : ℕ → OrderStatus

-- `status in VALID_TRANSITIONS.get(previous, set())`.
abbrev pub valid_transition : OrderStatus → OrderStatus → Bool
valid_transition pending confirmed = true
valid_transition pending cancelled = true
valid_transition pending rejected = true
valid_transition confirmed preparing = true
valid_transition confirmed cancelled = true
valid_transition queued confirmed = true
valid_transition queued cancelled = true
valid_transition preparing ready = true
valid_transition preparing cancelled = true
valid_transition ready out_for_delivery = true
valid_transition ready delivered = true
valid_transition out_for_delivery delivered = true
valid_transition out_for_delivery cancelled = true
valid_transition out_for_delivery delivery_failed = true
valid_transition _ _ = false

-- ACTIVE_PREPARATION_ORDER_STATUSES.
abbrev pub is_active_preparation : OrderStatus → Bool
is_active_preparation pending = true
is_active_preparation confirmed = true
is_active_preparation queued = true
is_active_preparation preparing = true
is_active_preparation ready = true
is_active_preparation out_for_delivery = true
is_active_preparation _ = false

-- STATION_PREPARABLE_ORDER_STATUSES.
abbrev pub is_station_preparable : OrderStatus → Bool
is_station_preparable confirmed = true
is_station_preparable preparing = true
is_station_preparable ready = true
is_station_preparable _ = false

-- The statuses that count as load: `Order.status.in_(("confirmed", "preparing", "queued"))`.
abbrev pub is_load : OrderStatus → Bool
is_load confirmed = true
is_load preparing = true
is_load queued = true
is_load _ = false

-- ASSIGNABLE_ORDER_STATUSES of app/modules/delivery/dispatch_service.py.
abbrev pub is_assignable : OrderStatus → Bool
is_assignable confirmed = true
is_assignable queued = true
is_assignable preparing = true
is_assignable ready = true
is_assignable _ = false
