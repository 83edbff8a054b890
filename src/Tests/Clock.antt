-- ===== src/Tests/Clock.antt =====
-- Runs of the time clock, and instances of its theorems.
use api_kitchen.Base.{text, ◌≡◌, refl, none, some, List, [], ◌∷◌, arith, ok, waiting, ◌+◌, ◌≤◌}
use api_kitchen.Hr.Clock.{
  Shift, HrConfig, Clocks, detect_late_arrival, new_entry, check_clock_in, open_entry,
}
use api_kitchen.Hr.OneOpen.{
  OneOpen, ClockRequest, comes, leaves, pauses, resumes, corrects, serve_clocks,
  serve_clocks-OneOpen, open_count,
}
use api_kitchen.Hr.Lateness.{late_tolerance_zero}
use api_kitchen.Hr.Overlap.{
  arrival_checked, arrival_written, no_clock_step, clock_step_then, arrivals-bounded,
}

abbrev strict : HrConfig
strict = record { establishment_id = 1; late_tolerance_minutes = 0 }

abbrev evening_shift : Shift
evening_shift = record { id = 9; starts_at = 1000; ends_at = 9000 }

abbrev empty_clocks : Clocks
empty_clocks = record {
  entries = [];
  corrections = [];
  shifts = evening_shift ∷ [];
  configs = strict ∷ [];
  next_entry_id = 1;
}

abbrev day : List ClockRequest
day =
    comes 1200 6 (some 9) 1
    ∷ comes 1300 6 none 1
    ∷ pauses 6
    ∷ resumes 6
    ∷ leaves 9000 6
    ∷ corrects 1 none (some 9100) (text "late") 3
    ∷ []

serve_clocks-OneOpen_example : OneOpen (serve_clocks day empty_clocks)
serve_clocks-OneOpen_example = serve_clocks-OneOpen day empty_clocks (λ employee. omega arith)

-- Two arrivals that are checked together leave two open entries.
overlapping_arrivals_lem :
    let (r, s) = open_entry 1200 6 none 1 empty_clocks in
    let (r', s') = open_entry 1200 6 none 1 s in
    (check_clock_in 6 empty_clocks ≡ ok tt) × (open_count 6 s'.entries ≡ 2)
unfolding check_clock_in open_entry
overlapping_arrivals_lem = (refl, refl)

arrivals-bounded_example :
    let s = (open_entry 1200 6 none 1 empty_clocks).1 in
    let s' = (open_entry 1201 6 none 1 s).1 in open_count 6 s'.entries + waiting 6 [] ≤ 2
unfolding check_clock_in
arrivals-bounded_example =
    let t = empty_clocks in
    let s = (open_entry 1200 6 none 1 t).1 in
    let s' = (open_entry 1201 6 none 1 s).1 in
    arrivals-bounded 2 [] [] t s'
      (clock_step_then [] (6 ∷ []) [] t t s' (arrival_checked 6 [] t refl (omega arith)) (
        clock_step_then (6 ∷ []) (6 ∷ 6 ∷ []) [] t t s'
          (arrival_checked 6 (6 ∷ []) t refl (omega arith))
          (clock_step_then (6 ∷ 6 ∷ []) (6 ∷ []) [] t s s'
            (arrival_written 1200 6 none 1 (6 ∷ 6 ∷ []) t (omega arith))
            (clock_step_then (6 ∷ []) [] [] s s' s'
              (arrival_written 1201 6 none 1 (6 ∷ []) s (omega arith)) (no_clock_step [] s')))))
      6 (omega arith)

late_tolerance_zero_example :
    detect_late_arrival (new_entry 1 6 (some 9) 1 1500) empty_clocks ≡ none
late_tolerance_zero_example =
    late_tolerance_zero (new_entry 1 6 (some 9) 1 1500) empty_clocks strict evening_shift 9 refl
      refl refl refl (omega arith)
