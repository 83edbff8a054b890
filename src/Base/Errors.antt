-- ===== src/Base/Errors.antt =====
-- The codes of the `AppError`s that the modelled services raise (app/core/http/errors.py:
-- `AppError.code`), by module of the program.
pub data ErrorCode : Type 0 where
  -- app/modules/orders/service.py
  order_not_found : ErrorCode
  invalid_status_transition : ErrorCode
  -- app/modules/loyalty
  invalid_points : ErrorCode
  insufficient_points : ErrorCode
  order_not_eligible : ErrorCode
  reservation_not_found : ErrorCode
  reservation_not_active : ErrorCode
  reservation_expired : ErrorCode
  -- app/modules/orders/service.py: update_status and the preparation of items
  delivery_failure_reason_required : ErrorCode
  payment_required : ErrorCode
  payment_settlement_required : ErrorCode
  invalid_preparation_status : ErrorCode
  order_not_active : ErrorCode
  order_item_not_found : ErrorCode
  menu_parent_not_preparable : ErrorCode
  order_not_preparable : ErrorCode
  order_station_not_found : ErrorCode
  invalid_preparation_transition : ErrorCode
  order_cancel_not_allowed : ErrorCode
  -- app/modules/stock/service.py
  insufficient_stock : ErrorCode
  -- app/modules/delivery
  driver_required : ErrorCode
  delivery_proof_required : ErrorCode
  driver_not_found : ErrorCode
  driver_inactive : ErrorCode
  driver_not_clocked_in : ErrorCode
  order_not_delivery : ErrorCode
  delivery_already_started : ErrorCode
  order_not_assignable : ErrorCode
  driver_wrong_establishment : ErrorCode
  delivery_not_found : ErrorCode
  delivery_not_assigned_state : ErrorCode
  order_not_ready : ErrorCode
  delivery_not_en_route : ErrorCode
  delivery_code_required : ErrorCode
  delivery_code_locked : ErrorCode
  delivery_code_invalid : ErrorCode
  cash_received_required : ErrorCode
  order_not_paid : ErrorCode
  override_reason_required : ErrorCode
  dispatch_disabled : ErrorCode
  self_assign_disabled : ErrorCode
  order_ids_invalid : ErrorCode
  order_already_taken : ErrorCode
  driver_capacity_reached : ErrorCode
  failure_note_required : ErrorCode
  failure_arrival_required : ErrorCode
  failure_too_early : ErrorCode
  failure_call_required : ErrorCode
  -- app/modules/payments
  refund_reason_required : ErrorCode
  refund_not_allowed : ErrorCode
  payment_not_found : ErrorCode
  refund_already_complete : ErrorCode
  invalid_refund_amount : ErrorCode
  refund_amount_exceeds_payment : ErrorCode
  stripe_refund_failed : ErrorCode
  guarantee_not_found : ErrorCode
  stripe_release_failed : ErrorCode
  capture_reason_required : ErrorCode
  invalid_capture_amount : ErrorCode
  stripe_capture_failed : ErrorCode
  cash_amount_insufficient : ErrorCode
  -- app/modules/hr/service.py
  already_clocked_in : ErrorCode
  not_clocked_in : ErrorCode
  not_on_break : ErrorCode
  not_found : ErrorCode
  -- What the server answers when a query for one row finds several.
  several_rows_found : ErrorCode
  -- app/modules/kds/service.py
  kds_screen_not_found : ErrorCode
  kds_screen_inactive : ErrorCode
  kds_screen_remote_disabled : ErrorCode
  kds_screen_key_already_exists : ErrorCode
  pairing_code_generation_failed : ErrorCode
  kds_session_generation_failed : ErrorCode
  pairing_code_invalid : ErrorCode
  pairing_code_already_used : ErrorCode
  pairing_code_expired : ErrorCode
  kds_session_invalid : ErrorCode
  kds_session_revoked : ErrorCode
  kds_session_expired : ErrorCode
  -- app/modules/auth/service.py
  invalid_token : ErrorCode
  unauthorized : ErrorCode
  forbidden : ErrorCode
  invalid_credentials : ErrorCode
  mfa_required : ErrorCode
  invalid_mfa_code : ErrorCode
  mfa_already_enabled : ErrorCode
  mfa_not_enabled : ErrorCode
  already_verified : ErrorCode
  validation_error : ErrorCode
  -- app/modules/promotions/service.py
  invalid_promo : ErrorCode
  promotion_not_found : ErrorCode
  invalid_promotion : ErrorCode
  -- app/modules/delivery/failures.py: resolve_failure
  failure_not_found : ErrorCode
  failure_already_resolved : ErrorCode
  retain_not_allowed : ErrorCode
  retain_amount_invalid : ErrorCode
  resolution_note_required : ErrorCode
  retain_not_possible : ErrorCode
  redelivery_not_possible : ErrorCode
  -- Python exceptions that no service catches: the request is answered with a 500.
  integrity_error : ErrorCode
  index_error : ErrorCode
  attribute_error : ErrorCode
