-- ===== src/Guard/Tests.antt =====
-- Guards over short histories of polls, and the theorems at them.
use regulator.Prelude.{◌≡◌, refl, true, false, ◌&&◌, some, [], ◌∷◌, List, ltb}
use regulator.Guard.{
  Sample, raised, no_rows, value, poll_error, poll_cpu, guard_notes, new_guard, start, round,
  poll_once, fresh, poll_skipped, unevaluated, notes_for, sut_cpu_pct,
}
use regulator.Guard.Breaches.{after, readings_of, over_in_row, is_reading, poll_cpu-stops}
use regulator.Guard.Account.{IsAccount, after-IsAccount}
use regulator.Guard.Status.{polled}

-- The newest first: over, a failed poll, over, under.
abbrev history : List Sample
history = value 95 ∷ raised 1 ∷ value 90 ∷ value 20 ∷ []

abbrev both_history : List (Sample × Sample)
both_history = (raised 7, value 12) ∷ (no_rows, raised 3) ∷ (raised 5, no_rows) ∷ []

program : Unit {0}
unfolding fresh poll_skipped after readings_of over_in_row poll_cpu polled new_guard start round
    poll_once unevaluated notes_for guard_notes
program = tt

second_stops : (poll_cpu (value 91) (after 80 (value 90 ∷ []))).1 ≡ true
unfolding program
second_stops = refl

first_does_not : (poll_cpu (value 91) (after 80 (value 20 ∷ value 90 ∷ []))).1 ≡ false
unfolding program
first_does_not = refl

notes_values : guard_notes (polled 80 5 both_history) ≡ (sut_cpu_pct, some (poll_error 5)) ∷ []
unfolding program
notes_values = refl

poll_cpu-stops_example :
    (poll_cpu (value 99) (after 80 history)).1
    ≡ is_reading (value 99) && ltb 1 (over_in_row 80 (readings_of (value 99 ∷ history)))
poll_cpu-stops_example = poll_cpu-stops 80 (value 99) history

after-IsAccount_example : IsAccount history (after 80 history)
after-IsAccount_example = after-IsAccount 80 history
