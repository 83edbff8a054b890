-- ===== src/Hr/Lateness.antt =====
-- The lateness that the time clock reports.
use api_kitchen.Base.{ℕ, find_row, ◌+◌, ◌≤◌, ◌≡◌, none, some, arith}
use api_kitchen.Hr.Clock.{
  Shift, HrConfig, Clocks, is_shift, is_config, late_tolerance, delay, detect_late_arrival,
}
use api_kitchen.Hr.Tables.{ClockEntry}

-- When the tolerance of an establishment is set to zero, an arrival up to ten minutes late is not
-- reported all the same: zero is read as no setting.
pub late_tolerance_zero :
    (e : ClockEntry) (s : Clocks) (c : HrConfig) (shift : Shift) (key : ℕ)
    → e.shift_id ≡ some key
    → find_row (is_shift key) s.shifts ≡ some shift
    → find_row (is_config e.establishment_id) s.configs ≡ some c
    → c.late_tolerance_minutes ≡ 0
    → e.clock_in_at ≤ shift.starts_at + 600
    → detect_late_arrival e s ≡ none
unfolding detect_late_arrival late_tolerance delay
late_tolerance_zero e s c shift key planned found set zero_set early = ground arith
