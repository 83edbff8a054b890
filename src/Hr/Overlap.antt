-- ===== src/Hr/Overlap.antt =====
-- Arrivals that overlap: the check and the entry of an arrival are steps of their own.
use api_kitchen.Base.{
  ℕ, ◌==◌, if◌then◌else◌, Option-cases, waiting, take_out, waiting-take_out, ok, Text, find_row,
  count-find_row-none, ◌+◌, ◌≤◌, ◌≡◌, refl, inl, inr, Option, List, ◌∷◌, arith,
}
use api_kitchen.Hr.Clock.{
  Clocks, is_open_entry, is_working_entry, is_break_entry, check_clock_in, open_entry, close_entry,
  clock_out_tx, clock_out, with_clock_status, start_break_tx, start_break, end_break_tx, end_break,
  is_entry, correct, correct_tx, correct_time_clock_entry,
}
use api_kitchen.Hr.Tables.{clock_open, on_break}
use api_kitchen.Hr.OneOpen.{open_count, change-open_count}

-- An arrival checks, while at most `limit` of its employee wait, itself included; an arrival that
-- waits writes its entry; or another request is served whole.
pub data ClockStep (limit : ℕ) : List ℕ → Clocks → List ℕ → Clocks → Type 0 where
  arrival_checked :
      (employee : ℕ) (ps : List ℕ) (s : Clocks)
      → check_clock_in employee s ≡ ok tt
      → waiting employee (employee ∷ ps) ≤ limit
      → ClockStep limit ps s (employee ∷ ps) s
  arrival_written :
      (now employee : ℕ) (shift : Option ℕ) (establishment : ℕ) (ps : List ℕ) (s : Clocks)
      → 1 ≤ waiting employee ps
      → ClockStep limit ps s
          (take_out employee ps)
          (open_entry now employee shift establishment s).1
  clock_left :
      (now employee : ℕ) (ps : List ℕ) (s : Clocks)
      → ClockStep limit ps s ps (clock_out now employee s).1
  clock_paused :
      (employee : ℕ) (ps : List ℕ) (s : Clocks) → ClockStep limit ps s ps (start_break employee s).1
  clock_resumed :
      (employee : ℕ) (ps : List ℕ) (s : Clocks) → ClockStep limit ps s ps (end_break employee s).1
  clock_corrected :
      (key : ℕ) (from until : Option ℕ) (reason : Text) (user : ℕ) (ps : List ℕ) (s : Clocks)
      → ClockStep limit ps s ps (correct_time_clock_entry key from until reason user s).1

pub data ClockSteps (limit : ℕ) : List ℕ → Clocks → List ℕ → Clocks → Type 0 where
  no_clock_step : (ps : List ℕ) (s : Clocks) → ClockSteps limit ps s ps s
  clock_step_then :
      (ps ps' ps'' : List ℕ) (s s' s'' : Clocks)
      → ClockStep limit ps s ps' s'
      → ClockSteps limit ps' s' ps'' s''
      → ClockSteps limit ps s ps'' s''

check_clock_in-none_open :
    (employee : ℕ) (s : Clocks)
    → check_clock_in employee s ≡ ok tt
    → open_count employee s.entries ≡ 0
unfolding check_clock_in
check_clock_in-none_open employee s e =
    elim (Option-cases (find_row (is_open_entry employee) s.entries)) [
      | inr (x, there) ↦ absurd (ground arith)
      | inl nobody ↦ count-find_row-none (is_open_entry employee) s.entries nobody
    ]

open_entry-open_count :
    (now employee : ℕ) (shift : Option ℕ) (establishment : ℕ) (s : Clocks) (k : ℕ)
    → open_count k (open_entry now employee shift establishment s).1.entries
      ≤ open_count k s.entries + (if employee == k then 1 else 0)
unfolding open_entry
open_entry-open_count now employee shift establishment s k = ground arith

clock_out-open_count :
    (now employee : ℕ) (s : Clocks) (k : ℕ)
    → open_count k (clock_out now employee s).1.entries ≤ open_count k s.entries
unfolding clock_out clock_out_tx
clock_out-open_count now employee s k = ground (
  arith,
  change-open_count (is_open_entry employee) (close_entry now) s.entries k
      (λ x hit. (refl, inl refl)),
)

start_break-open_count :
    (employee : ℕ) (s : Clocks) (k : ℕ)
    → open_count k (start_break employee s).1.entries ≤ open_count k s.entries
unfolding start_break start_break_tx
start_break-open_count employee s k = ground (
  arith,
  change-open_count (is_working_entry employee) (with_clock_status on_break) s.entries k
      (λ x hit. (refl, inr (ground arith))),
)

end_break-open_count :
    (employee : ℕ) (s : Clocks) (k : ℕ)
    → open_count k (end_break employee s).1.entries ≤ open_count k s.entries
unfolding end_break end_break_tx
end_break-open_count employee s k = ground (
  arith,
  change-open_count (is_break_entry employee) (with_clock_status clock_open) s.entries k
      (λ x hit. (refl, inr (ground arith))),
)

correct-open_count :
    (key : ℕ) (from until : Option ℕ) (reason : Text) (user : ℕ) (s : Clocks) (k : ℕ)
    → open_count k (correct_time_clock_entry key from until reason user s).1.entries
      ≤ open_count k s.entries
unfolding correct_time_clock_entry correct_tx
correct-open_count key from until reason user s k = ground (
  arith,
  change-open_count (is_entry key) (correct from until) s.entries k (λ x hit. (refl, inl refl)),
)

ClockStep-bounded :
    (limit : ℕ) (ps ps' : List ℕ) (s s' : Clocks)
    → ClockStep limit ps s ps' s'
    → (k : ℕ) → open_count k s.entries + waiting k ps ≤ limit
    → open_count k s'.entries + waiting k ps' ≤ limit
ClockStep-bounded limit _ _ _ _ (arrival_checked employee ps s e few) k h =
    ground (arith, check_clock_in-none_open employee s e)
ClockStep-bounded limit _ _ _ _ (arrival_written now employee shift place ps s there) k h =
    let less = waiting-take_out employee k ps there in
    let more = open_entry-open_count now employee shift place s k in omega arith
ClockStep-bounded limit _ _ _ _ (clock_left now employee ps s) k h =
    let less = clock_out-open_count now employee s k in omega arith
ClockStep-bounded limit _ _ _ _ (clock_paused employee ps s) k h =
    let less = start_break-open_count employee s k in omega arith
ClockStep-bounded limit _ _ _ _ (clock_resumed employee ps s) k h =
    let less = end_break-open_count employee s k in omega arith
ClockStep-bounded limit _ _ _ _ (clock_corrected key from until reason user ps s) k h =
    let less = correct-open_count key from until reason user s k in omega arith

-- When arrivals overlap, and of one employee never more than `limit` at once have passed the check
-- and not written their entry, while every other request of the time clock is served whole, an
-- employee's entries that are open or on a break and the arrivals that wait are together at most
-- `limit`, if they were at the start.
pub arrivals-bounded :
    (limit : ℕ) (ps ps' : List ℕ) (s s' : Clocks)
    → ClockSteps limit ps s ps' s'
    → (k : ℕ) → open_count k s.entries + waiting k ps ≤ limit
    → open_count k s'.entries + waiting k ps' ≤ limit
arrivals-bounded limit _ _ _ _ (no_clock_step ps s) k h = h
arrivals-bounded limit _ _ _ _ (clock_step_then ps ps' ps'' s s' s'' step steps) k h =
    arrivals-bounded limit ps' ps'' s' s'' steps k (ClockStep-bounded limit ps ps' s s' step k h)
