-- ===== src/Delivery/Tables.antt =====
-- The rows of app/modules/delivery/models.py that the modelled services read and write.
use api_kitchen.Base.{ℕ, Text, Bool, true, false, Option}
use api_kitchen.Orders.Status.{OrderStatus}

pub data DeliveryStatus : Type 0 where
  assigned on_the_way arrived handed_over failed called_off : DeliveryStatus

-- `status in DELIVERY_ACTIVE_STATUSES`: ("assigned", "out_for_delivery", "arrived").
abbrev pub is_live : DeliveryStatus → Bool
is_live assigned = true
is_live on_the_way = true
is_live arrived = true
is_live _ = false

abbrev pub is_assigned : DeliveryStatus → Bool
is_assigned assigned = true
is_assigned _ = false

abbrev pub is_arrived : DeliveryStatus → Bool
is_arrived arrived = true
is_arrived _ = false

abbrev pub is_on_the_way : DeliveryStatus → Bool
is_on_the_way on_the_way = true
is_on_the_way _ = false

pub record Delivery : Type 0 where
  pub id : ℕ
  pub order_id : ℕ
  pub driver_id : ℕ
  pub run_id : Option ℕ
  pub status : DeliveryStatus
  pub assigned_at : ℕ
  pub assigned_by_user_id : Option ℕ
  pub departed_at : Option ℕ
  pub arrived_at : Option ℕ
  pub finished_at : Option ℕ

pub record Run : Type 0 where
  pub id : ℕ
  pub driver_id : ℕ
  pub is_active : Bool
  pub started_at : ℕ
  pub ended_at : Option ℕ

-- How a delivery was proved: the `delivery_proof` of `update_status`.
pub data Proof : Type 0 where
  by_code by_admin not_required : Proof

pub data EventKind : Type 0 where
  was_assigned reassigned unassigned claimed released_by_driver : EventKind
  departed at_door was_delivered was_failed was_cancelled : EventKind
  delivered_without_code failure_resolved : EventKind

-- The note of an event, by what the service formats into it.
pub data Note : Type 0 where
  from_driver : ℕ → Note
  with_proof : Proof → Note
  closed_by : OrderStatus → Note
  said : Text → Note

pub record Event : Type 0 where
  pub delivery_id : Option ℕ
  pub order_id : ℕ
  pub driver_id : Option ℕ
  pub event : EventKind
  pub actor_user_id : Option ℕ
  pub note : Option Note

pub record Driver : Type 0 where
  pub id : ℕ
  pub user_id : ℕ
  pub establishment_id : ℕ
  pub is_active : Bool

-- RestaurantDeliverySettings.
pub record Settings : Type 0 where
  pub driver_dispatch_enabled : Bool
  pub delivery_proof_required : Bool
  pub failure_min_wait_minutes : ℕ
  pub failure_min_call_attempts : ℕ

-- EstablishmentDispatchSettings; `self_assign` is its `dispatch_mode`.
pub record DispatchSettings : Type 0 where
  pub establishment_id : ℕ
  pub self_assign : Bool
  pub max_active_deliveries : ℕ
  pub failure_min_wait_minutes : Option ℕ
  pub failure_min_call_attempts : Option ℕ

pub record CodeAttempt : Type 0 where
  pub delivery_id : ℕ
  pub user_id : Option ℕ
  pub success : Bool

pub data FailureReason : Type 0 where
  customer_absent customer_unreachable wrong_address : FailureReason
  customer_refused order_problem other_reason : FailureReason

pub data Fault : Type 0 where
  customer restaurant : Fault

-- FAILURE_REASONS.
abbrev pub fault_of : FailureReason → Fault
fault_of order_problem = restaurant
fault_of _ = customer

-- The resolutions of a failure: "refund", "retain", "redeliver".
pub data Resolution : Type 0 where
  by_refund by_retention by_redelivery : Resolution

pub record Failure : Type 0 where
  pub id : ℕ
  pub delivery_id : ℕ
  pub order_id : ℕ
  pub driver_id : ℕ
  pub reason : FailureReason
  pub fault : Fault
  pub note : Option Text
  pub call_attempts : ℕ
  pub waited_seconds : Option ℕ
  pub is_pending : Bool
  pub resolution : Option Resolution
  pub retained_cents : Option ℕ
  pub resolved_by_user_id : Option ℕ
  pub resolved_at : Option ℕ
  pub resolution_note : Option Text
