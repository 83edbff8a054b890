-- ===== src/Hr/Clock.antt =====
-- The time clock of the employees (app/modules/hr/service.py: clock_in, clock_out, start_break,
-- end_break, correct_time_clock_entry, detect_late_arrival, detect_shift_overrun). The jobs that
-- alert the managers are the values that are returned.
use api_kitchen.Base.{
  ℕ, leb, ◌==◌, if◌then◌else◌, is_some, already_clocked_in, not_clocked_in, not_on_break, not_found,
  several_rows_found, Result, ok, err, ◌>>=◌, ◌>>◌, raise_if, or_raise, Action, atomic, Text,
  find_row, change_row, count_rows, zero, suc, ◌+◌, ◌-◌, ◌*◌, ◌/◌, Bool, true, false, ◌&&◌, Option,
  none, some, List, ◌∷◌,
}
use api_kitchen.Stock.RoundTrip.{shift}
use api_kitchen.Hr.Tables.{
  ClockStatus, clock_open, on_break, closed, corrected, is_clocked, ClockEntry,
}

pub record Shift : Type 0 where
  pub id : ℕ
  pub starts_at : ℕ
  pub ends_at : ℕ

pub record HrConfig : Type 0 where
  pub establishment_id : ℕ
  pub late_tolerance_minutes : ℕ

pub record Correction : Type 0 where
  pub entry_id : ℕ
  pub corrected_by_user_id : ℕ
  pub old_clock_in_at : ℕ
  pub old_clock_out_at : Option ℕ
  pub new_clock_in_at : Option ℕ
  pub new_clock_out_at : Option ℕ
  pub reason : Text

-- The tables of the time clock.
pub record Clocks : Type 0 where
  pub entries : List ClockEntry
  pub corrections : List Correction
  pub shifts : List Shift
  pub configs : List HrConfig
  pub next_entry_id : ℕ

pub record Lateness : Type 0 where
  pub employee_id : ℕ
  pub shift_id : ℕ
  pub minutes : ℕ

abbrev pub is_open_entry : ℕ → ClockEntry → Bool
is_open_entry employee e = e.employee_id == employee && is_clocked e.status

abbrev pub is_working_entry : ℕ → ClockEntry → Bool
is_working_entry employee e =
    e.employee_id == employee && (elim e.status [ clock_open ↦ true | _ ↦ false ])

abbrev pub is_break_entry : ℕ → ClockEntry → Bool
is_break_entry employee e =
    e.employee_id == employee && (elim e.status [ on_break ↦ true | _ ↦ false ])

-- `scalar_one_or_none`.
abbrev pub sole_row : (ClockEntry → Bool) → List ClockEntry → Result (Option ClockEntry)
sole_row p rows =
    if leb (count_rows p rows) 1 then ok (find_row p rows) else err several_rows_found 500

abbrev pub is_shift : ℕ → Shift → Bool
is_shift key r = r.id == key

abbrev pub is_config : ℕ → HrConfig → Bool
is_config establishment c = c.establishment_id == establishment

-- `value or 10`: none, and zero.
abbrev pub or_ten : ℕ → ℕ
or_ten zero = 10
or_ten (suc n) = suc n

unfoldable pub late_tolerance : ℕ → Clocks → ℕ
late_tolerance establishment s = elim (find_row (is_config establishment) s.configs) [
  | none ↦ 10
  | some c ↦ or_ten c.late_tolerance_minutes
]

-- The delay at an instant against a planned one, over the tolerance.
unfoldable pub delay : ClockEntry → ℕ → ℕ → ℕ → ℕ → Option Lateness
delay e shift instant planned tolerance =
    if leb (instant - planned) (tolerance * 60)
    then none
    else some (record {
      employee_id = e.employee_id;
      shift_id = shift;
      minutes = (instant - planned - tolerance * 60) / 60;
    })

unfoldable pub detect_late_arrival : ClockEntry → Clocks → Option Lateness
detect_late_arrival e s = elim e.shift_id [
  | none ↦ none
  | some key ↦ elim (find_row (is_shift key) s.shifts) [
    | none ↦ none
    | some r ↦ delay e r.id e.clock_in_at r.starts_at (late_tolerance e.establishment_id s)
  ]
]

unfoldable pub detect_shift_overrun : ClockEntry → Clocks → Option Lateness
detect_shift_overrun e s = elim e.shift_id [
  | none ↦ none
  | some key ↦ elim e.clock_out_at [
    | none ↦ none
    | some out ↦ elim (find_row (is_shift key) s.shifts) [
      | none ↦ none
      | some r ↦ delay e r.id out r.ends_at (late_tolerance e.establishment_id s)
    ]
  ]
]

abbrev pub new_entry : ℕ → ℕ → Option ℕ → ℕ → ℕ → ClockEntry
new_entry key employee shift establishment now = record {
  id = key;
  employee_id = employee;
  shift_id = shift;
  establishment_id = establishment;
  clock_in_at = now;
  clock_out_at = none;
  status = clock_open;
}

-- What an arrival reads before it writes: that the employee has no entry open or on a break.
unfoldable pub check_clock_in : ℕ → Clocks → Result (Unit {0})
check_clock_in employee s = do
  existing ← sole_row (is_open_entry employee) s.entries
  raise_if (is_some existing) already_clocked_in 409

unfoldable pub open_entry : ℕ → ℕ → Option ℕ → ℕ → Clocks → (ClockEntry × Option Lateness) × Clocks
open_entry now employee shift establishment s =
    let e = new_entry s.next_entry_id employee shift establishment now in
    let s' = record s { entries = e ∷ s.entries; next_entry_id = s.next_entry_id + 1 } in
    ((e, detect_late_arrival e s'), s')

-- No lock is taken and no index forbids a second entry: here nothing comes between the check and the
-- entry.
unfoldable pub clock_in_tx :
    ℕ → ℕ → Option ℕ → ℕ → Clocks → Result ((ClockEntry × Option Lateness) × Clocks)
unfolding check_clock_in open_entry
clock_in_tx now employee shift establishment s = do
  check_clock_in employee s
  ok (open_entry now employee shift establishment s)

unfoldable pub clock_in : ℕ → ℕ → Option ℕ → ℕ → Action Clocks (ClockEntry × Option Lateness)
clock_in now employee shift establishment = atomic (clock_in_tx now employee shift establishment)

abbrev pub close_entry : ℕ → ClockEntry → ClockEntry
close_entry now e = record e { clock_out_at = some now; status = closed }

unfoldable pub clock_out_tx : ℕ → ℕ → Clocks → Result ((ClockEntry × Option Lateness) × Clocks)
clock_out_tx now employee s = do
  existing ← sole_row (is_open_entry employee) s.entries
  e ← or_raise existing not_clocked_in 409
  let s' = record s { entries = change_row (is_open_entry employee) (close_entry now) s.entries }
  ok ((close_entry now e, detect_shift_overrun (close_entry now e) s'), s')

unfoldable pub clock_out : ℕ → ℕ → Action Clocks (ClockEntry × Option Lateness)
clock_out now employee = atomic (clock_out_tx now employee)

abbrev pub with_clock_status : ClockStatus → ClockEntry → ClockEntry
with_clock_status status e = record e { status = status }

unfoldable pub start_break_tx : ℕ → Clocks → Result (Unit {0} × Clocks)
start_break_tx employee s = do
  existing ← sole_row (is_working_entry employee) s.entries
  e ← or_raise existing not_clocked_in 409
  ok (
    tt,
    record s {
      entries = change_row (is_working_entry employee) (with_clock_status on_break) s.entries;
    },
  )

unfoldable pub start_break : ℕ → Action Clocks (Unit {0})
start_break employee = atomic (start_break_tx employee)

unfoldable pub end_break_tx : ℕ → Clocks → Result (Unit {0} × Clocks)
end_break_tx employee s = do
  existing ← sole_row (is_break_entry employee) s.entries
  e ← or_raise existing not_on_break 409
  ok (
    tt,
    record s {
      entries = change_row (is_break_entry employee) (with_clock_status clock_open) s.entries;
    },
  )

unfoldable pub end_break : ℕ → Action Clocks (Unit {0})
end_break employee = atomic (end_break_tx employee)

abbrev pub is_entry : ℕ → ClockEntry → Bool
is_entry key e = e.id == key

abbrev pub or_new : Option ℕ → Option ℕ → Option ℕ
or_new none old = old
or_new (some t) old = some t

abbrev pub or_old : Option ℕ → ℕ → ℕ
or_old none old = old
or_old (some t) old = t

abbrev pub correct : Option ℕ → Option ℕ → ClockEntry → ClockEntry
correct clock_in_at clock_out_at e = record e {
  clock_in_at = or_old clock_in_at e.clock_in_at;
  clock_out_at = or_new clock_out_at e.clock_out_at;
  status = corrected;
}

unfoldable pub correct_tx : ℕ → Option ℕ → Option ℕ → Text → ℕ → Clocks → Result (Unit {0} × Clocks)
correct_tx key clock_in_at clock_out_at reason user s = do
  e ← or_raise (find_row (is_entry key) s.entries) not_found 404
  ok (
    tt,
    record s {
      entries = change_row (is_entry key) (correct clock_in_at clock_out_at) s.entries;
      corrections =
          record {
            entry_id = e.id;
            corrected_by_user_id = user;
            old_clock_in_at = e.clock_in_at;
            old_clock_out_at = e.clock_out_at;
            new_clock_in_at = clock_in_at;
            new_clock_out_at = clock_out_at;
            reason = reason;
          }
          ∷ s.corrections;
    },
  )

unfoldable pub correct_time_clock_entry :
    ℕ → Option ℕ → Option ℕ → Text → ℕ → Action Clocks (Unit {0})
correct_time_clock_entry key clock_in_at clock_out_at reason user =
    atomic (correct_tx key clock_in_at clock_out_at reason user)
