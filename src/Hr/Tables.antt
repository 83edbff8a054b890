-- ===== src/Hr/Tables.antt =====
-- The rows of app/modules/hr/models.py that the time clock reads and writes.
use api_kitchen.Base.{ℕ, Bool, true, false, Option}

pub record Employee : Type 0 where
  pub id : ℕ
  pub user_id : ℕ

pub data ClockStatus : Type 0 where
  clock_open on_break closed corrected : ClockStatus

-- `status in ("open", "break")`.
abbrev pub is_clocked : ClockStatus → Bool
is_clocked clock_open = true
is_clocked on_break = true
is_clocked _ = false

pub record ClockEntry : Type 0 where
  pub id : ℕ
  pub employee_id : ℕ
  pub shift_id : Option ℕ
  pub establishment_id : ℕ
  pub clock_in_at : ℕ
  pub clock_out_at : Option ℕ
  pub status : ClockStatus
