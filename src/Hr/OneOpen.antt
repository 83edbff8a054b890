-- ===== src/Hr/OneOpen.antt =====
-- An employee is clocked in at most once.
use api_kitchen.Base.{
  ℕ, Option-cases, ok, atomic-keeps, Text, find_row, change_row, count_rows, count-find_row-none,
  ◌≤◌, ◌≡◌, refl, ◌⊎◌, inl, inr, Bool, true, false, Option, List, [], ◌∷◌, arith,
}
use api_kitchen.Hr.Clock.{
  Clocks, Lateness, is_open_entry, is_working_entry, is_break_entry, clock_in_tx, clock_in,
  close_entry, clock_out_tx, clock_out, with_clock_status, start_break_tx, start_break,
  end_break_tx, end_break, is_entry, correct, correct_tx, correct_time_clock_entry, check_clock_in,
  open_entry,
}
use api_kitchen.Hr.Tables.{clock_open, on_break, is_clocked, ClockEntry}

abbrev pub open_count : ℕ → List ClockEntry → ℕ
open_count employee = count_rows (is_open_entry employee)

abbrev pub OneOpen : Clocks → Type 0
OneOpen s = (employee : ℕ) → open_count employee s.entries ≤ 1

-- A change of an entry that keeps its employee, and opens nothing, opens nothing for anybody.
pub change-open_count :
    (p : ClockEntry → Bool) (f : ClockEntry → ClockEntry) (es : List ClockEntry) (employee : ℕ)
    → ((e : ClockEntry)
        → p e ≡ true
        → ((f e).employee_id ≡ e.employee_id)
          × ((is_clocked (f e).status ≡ false) ⊎ (is_clocked e.status ≡ true)))
    → open_count employee (change_row p f es) ≤ open_count employee es
change-open_count p f [] employee h = omega arith
change-open_count p f (e ∷ es) employee h = ground (arith, h e, change-open_count p f es employee h)

clock_in_tx-OneOpen :
    (now employee : ℕ) (shift : Option ℕ) (establishment : ℕ) (s s' : Clocks)
    (r : ClockEntry × Option Lateness)
    → OneOpen s
    → clock_in_tx now employee shift establishment s ≡ ok (r, s')
    → OneOpen s'
unfolding clock_in_tx check_clock_in open_entry
clock_in_tx-OneOpen now employee shift establishment s s' r h e k =
    elim (Option-cases (find_row (is_open_entry employee) s.entries)) [
      | inr (x, there) ↦ absurd (ground (arith, h employee))
      | inl nobody ↦
          ground
            (arith, h k, h employee, count-find_row-none (is_open_entry employee) s.entries nobody)
    ]

clock_out_tx-OneOpen :
    (now employee : ℕ) (s s' : Clocks) (r : ClockEntry × Option Lateness)
    → OneOpen s
    → clock_out_tx now employee s ≡ ok (r, s')
    → OneOpen s'
unfolding clock_out_tx
clock_out_tx-OneOpen now employee s s' r h e k = ground (
  arith,
  h k,
  change-open_count (is_open_entry employee) (close_entry now) s.entries k
      (λ x hit. (refl, inl refl)),
)

start_break_tx-OneOpen :
    (employee : ℕ) (s s' : Clocks)
    → OneOpen s
    → start_break_tx employee s ≡ ok (tt, s')
    → OneOpen s'
unfolding start_break_tx
start_break_tx-OneOpen employee s s' h e k = ground (
  arith,
  h k,
  change-open_count (is_working_entry employee) (with_clock_status on_break) s.entries k
      (λ x hit. (refl, inr (ground arith))),
)

end_break_tx-OneOpen :
    (employee : ℕ) (s s' : Clocks) → OneOpen s → end_break_tx employee s ≡ ok (tt, s') → OneOpen s'
unfolding end_break_tx
end_break_tx-OneOpen employee s s' h e k = ground (
  arith,
  h k,
  change-open_count (is_break_entry employee) (with_clock_status clock_open) s.entries k
      (λ x hit. (refl, inr (ground arith))),
)

correct_tx-OneOpen :
    (key : ℕ) (from until : Option ℕ) (reason : Text) (user : ℕ) (s s' : Clocks)
    → OneOpen s
    → correct_tx key from until reason user s ≡ ok (tt, s')
    → OneOpen s'
unfolding correct_tx
correct_tx-OneOpen key from until reason user s s' h e k = ground (
  arith,
  h k,
  change-open_count (is_entry key) (correct from until) s.entries k (λ x hit. (refl, inl refl)),
)

pub data ClockRequest : Type 0 where
  comes : (now employee : ℕ) (shift : Option ℕ) (establishment : ℕ) → ClockRequest
  leaves : (now employee : ℕ) → ClockRequest
  pauses : (employee : ℕ) → ClockRequest
  resumes : (employee : ℕ) → ClockRequest
  corrects : (key : ℕ) (from until : Option ℕ) (reason : Text) (user : ℕ) → ClockRequest

abbrev pub serve_clock : ClockRequest → Clocks → Clocks
serve_clock (comes now employee shift establishment) s =
    (clock_in now employee shift establishment s).1
serve_clock (leaves now employee) s = (clock_out now employee s).1
serve_clock (pauses employee) s = (start_break employee s).1
serve_clock (resumes employee) s = (end_break employee s).1
serve_clock (corrects key from until reason user) s =
    (correct_time_clock_entry key from until reason user s).1

abbrev pub serve_clocks : List ClockRequest → Clocks → Clocks
serve_clocks [] s = s
serve_clocks (r ∷ rs) s = serve_clocks rs (serve_clock r s)

serve_clock-OneOpen : (r : ClockRequest) (s : Clocks) → OneOpen s → OneOpen (serve_clock r s)
unfolding clock_in clock_out start_break end_break correct_time_clock_entry
serve_clock-OneOpen (comes now employee shift establishment) s h =
    atomic-keeps OneOpen (clock_in_tx now employee shift establishment) s h
      (λ r s' e. clock_in_tx-OneOpen now employee shift establishment s s' r h e)
serve_clock-OneOpen (leaves now employee) s h =
    atomic-keeps OneOpen (clock_out_tx now employee) s h
      (λ r s' e. clock_out_tx-OneOpen now employee s s' r h e)
serve_clock-OneOpen (pauses employee) s h =
    atomic-keeps OneOpen (start_break_tx employee) s h
      (λ r s' e. start_break_tx-OneOpen employee s s' h e)
serve_clock-OneOpen (resumes employee) s h =
    atomic-keeps OneOpen (end_break_tx employee) s h
      (λ r s' e. end_break_tx-OneOpen employee s s' h e)
serve_clock-OneOpen (corrects key from until reason user) s h =
    atomic-keeps OneOpen (correct_tx key from until reason user) s h
      (λ r s' e. correct_tx-OneOpen key from until reason user s s' h e)

-- Whatever arrivals, departures, breaks and corrections are asked for, accepted or refused, one
-- after the other and each over before the next begins, an employee never has more than one entry
-- that is open or on a break, from tables where nobody has more.
pub serve_clocks-OneOpen :
    (rs : List ClockRequest) (s : Clocks) → OneOpen s → OneOpen (serve_clocks rs s)
serve_clocks-OneOpen [] s h = h
serve_clocks-OneOpen (r ∷ rs) s h =
    serve_clocks-OneOpen rs (serve_clock r s) (serve_clock-OneOpen r s h)
