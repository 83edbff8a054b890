-- ===== src/Delivery/Rules.antt =====
-- The settings that a delivery reads (app/modules/delivery/dispatch_settings.py: get_effective;
-- failures.py: get_rules), and the presence of a driver (dispatch_service.py: _presence).
use api_kitchen.Base.{ℕ, ◌==◌, is_some, find_row, Bool, false, ◌&&◌, Option, none, some, List}
use api_kitchen.Store.{Store}
use api_kitchen.Hr.Tables.{Employee, is_clocked, ClockEntry}
use api_kitchen.Delivery.Tables.{Driver, DispatchSettings}

-- `_tenant_rules`: the waiting time in minutes, and the number of calls.
unfoldable pub tenant_rules : Store → ℕ × ℕ
tenant_rules s = elim s.settings [
  | none ↦ (5, 1)
  | some r ↦ (r.failure_min_wait_minutes, r.failure_min_call_attempts)
]

pub record Effective : Type 0 where
  pub self_assign : Bool
  pub max_active_deliveries : ℕ
  pub failure_min_wait_minutes : ℕ
  pub failure_min_call_attempts : ℕ

abbrev pub is_settings_of : ℕ → DispatchSettings → Bool
is_settings_of establishment r = r.establishment_id == establishment

abbrev pub or_else : Option ℕ → ℕ → ℕ
or_else none inherited = inherited
or_else (some own) inherited = own

unfoldable pub get_effective : ℕ → Store → Effective
get_effective establishment s =
    let (wait, calls) = tenant_rules s in
    elim (find_row (is_settings_of establishment) s.dispatch) [
      | none ↦ record {
        self_assign = false;
        max_active_deliveries = 3;
        failure_min_wait_minutes = wait;
        failure_min_call_attempts = calls;
      }
      | some r ↦ record {
        self_assign = r.self_assign;
        max_active_deliveries = r.max_active_deliveries;
        failure_min_wait_minutes = or_else r.failure_min_wait_minutes wait;
        failure_min_call_attempts = or_else r.failure_min_call_attempts calls;
      }
    ]

-- `get_rules(...)["proof_required"]`.
abbrev pub is_proof_required : Store → Bool
is_proof_required s = elim s.settings [ none ↦ false | some r ↦ r.delivery_proof_required ]

abbrev pub is_clocked_entry : ℕ → ClockEntry → Bool
is_clocked_entry employee e = e.employee_id == employee && is_clocked e.status

abbrev pub is_at_work : List ClockEntry → ℕ → Employee → Bool
is_at_work clock user e = e.user_id == user && is_some (find_row (is_clocked_entry e.id) clock)

-- `user_id in await _presence(session, [user_id])`.
abbrev pub is_present : ℕ → Store → Bool
is_present user s = is_some (find_row (is_at_work s.clock user) s.employees)

abbrev pub is_driver : ℕ → Driver → Bool
is_driver key d = d.id == key
