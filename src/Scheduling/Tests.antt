-- ===== src/Scheduling/Tests.antt =====
-- Runs of the scheduler on small inputs.
use regulator.Prelude.{
  ℕ, ◌%◌, ◌/◌, ◌≡◌, ◌≢◌, ◌<◌, refl, arith, true, false, none, some, List, [], ◌∷◌, max_of,
}
use regulator.Results.{auth, timeout}
use regulator.Results.Run.{new_run}
use regulator.Fleet.Summaries.Reports.{completed, stopped, aborted}
use regulator.Scheduling.Ramp.{RampStage, ramp_duration, new_ramp, target_at}
use regulator.Scheduling.RampEnd.{reached}
use regulator.Scheduling.RampBounds.{IsAtMost, targets, target_at-IsAtMost}
use regulator.Scheduling.Open.{open_run, Turn, passed, held, task_done, turns}
use regulator.Scheduling.OpenBounds.{AreBooks, KeepsUp, turns-AreBooks}
use regulator.Scheduling.Closed.{new_closed, ClosedEvent, ticked, iterated, lived, tick}
use regulator.Scheduling.Population.{AreDistinct}
use regulator.Scheduling.ClosedBounds.{IsTurn, tick-IsTurn-lived}
use regulator.Scheduling.Cron.{Part, star, range, value, Cron, Moment, parse_cron, next_after}
use regulator.Scheduling.Firings.{IsFirst, next_after-IsFirst}
use regulator.Scheduling.Fields.{IsCron, parse_cron-IsCron}
use regulator.Scheduling.Guards.{AbortIf, summarise, given}
use regulator.Scheduling.Happening.{
  Event, noted, guarded, asked, whole_course, LateEvent, late_asked,
}
use regulator.Scheduling.Refusals.{Noted, note_all, is_dead, note_all-is_dead}

-- Up to 100 in 10 seconds, 5 seconds there, and down to 40.
abbrev stages : List RampStage
stages =
    record { to = some 100; over = 10_000; hold = 0 }
    ∷ record { to = none; over = 0; hold = 5_000 }
    ∷ record { to = some 40; over = 10_000; hold = 0 }
    ∷ []

half_way : target_at (new_ramp stages 100) 5_000 ≡ record { num = 500_000; den = 10_000 }
unfolding target_at new_ramp
half_way = refl

over : target_at (new_ramp stages 100) 30_000 ≡ record { num = 40; den = 1 }
unfolding target_at new_ramp
over = refl

target_at-IsAtMost_example :
    IsAtMost (max_of (100 ∷ targets stages)) (target_at (new_ramp stages 100) 5_000)
    × (ramp_duration (new_ramp stages 100).legs < 5_000
        → target_at (new_ramp stages 100) 5_000 ≡ record { num = reached 100 stages; den = 1 })
target_at-IsAtMost_example = target_at-IsAtMost stages 100 5_000

-- Four arrivals are due with room for two; then a task ends, and the timetable falls far behind.
abbrev busy : List Turn
busy =
    passed 0 60 1_000
    ∷ passed 1_000 60 1_000
    ∷ passed 1_500 60 1_000
    ∷ passed 2_000 60 1_000
    ∷ task_done
    ∷ passed 40_000 60 1_000
    ∷ held
    ∷ passed 41_000 60 1_000
    ∷ []

issued_busy :
    let s = turns 2 busy (open_run 0 (new_run 0)) in
    (s.issued ≡ 3) × (s.shed ≡ 2) × (s.skipped ≡ 36) × (s.in_flight ≡ 2)
unfolding turns open_run new_run
issued_busy = (refl, refl, refl, refl)

turns-AreBooks_example :
    AreBooks 2 (turns 2 busy (open_run 0 (new_run 0)))
    × ((now rate : ℕ) → KeepsUp 2 now rate (turns 2 busy (open_run 0 (new_run 0))))
turns-AreBooks_example = turns-AreBooks 2 0 (new_run 0) busy

abbrev guards : AbortIf
guards = record { error_rate = none; p95 = none; generator_drift = some 2_000_000 }

abbrev quiet : List Event
quiet = noted 5 true none ∷ guarded guards (new_run 0) ∷ noted 9 false (some timeout) ∷ []

quiet_run : summarise 0 0 (whole_course quiet []) ≡ (completed, true)
unfolding summarise whole_course new_run
quiet_run = refl

-- A stop by request leaves a valid run; a shed arrival does not.
asked_run : summarise 0 0 (whole_course (asked (given false) ∷ quiet) []) ≡ (stopped, true)
unfolding summarise whole_course new_run
asked_run = refl

shed_run : summarise 1 0 (whole_course quiet []) ≡ (aborted, false)
unfolding summarise whole_course new_run
shed_run = refl

-- A stop that is asked for while the run drains comes too late.
abbrev too_late : List LateEvent
too_late = late_asked (given true) ∷ []

late_run : summarise 0 0 (whole_course quiet too_late) ≡ (completed, true)
unfolding summarise whole_course new_run
late_run = refl

-- Ten refusals, 7 seconds apart, with a timeout among them.
abbrev refusals : List Noted
refusals =
    (63_000, false, some auth)
    ∷ (56_000, false, some auth)
    ∷ (49_000, false, some auth)
    ∷ (42_000, false, some auth)
    ∷ (35_000, false, some auth)
    ∷ (33_000, false, some timeout)
    ∷ (28_000, false, some auth)
    ∷ (21_000, false, some auth)
    ∷ (14_000, false, some auth)
    ∷ (7_000, false, some auth)
    ∷ (0, false, some auth)
    ∷ []

refusals_stop : (note_all refusals).stopping ≡ true
unfolding note_all
refusals_stop = refl

note_all-is_dead_example : (note_all refusals).stopping ≡ is_dead refusals
note_all-is_dead_example = note_all-is_dead refusals

-- Four users start and two are asked to retire, one of whom is gone after the iteration.
abbrev shrinking : List ClosedEvent
shrinking = ticked 4 ∷ ticked 2 ∷ iterated 3 ∷ iterated 0 ∷ []

shrinking_users : (lived shrinking (new_closed 0)).vu_tasks ≡ 0 ∷ 1 ∷ 2 ∷ []
unfolding lived new_closed
shrinking_users = refl

tick-IsTurn-lived_example :
    AreDistinct (lived shrinking (new_closed 0)).vu_tasks
    × IsTurn 5 (lived shrinking (new_closed 0)) (tick 5 (lived shrinking (new_closed 0)))
tick-IsTurn-lived_example = tick-IsTurn-lived 0 5 shrinking

-- 30-45/5 9 * * 5-7
abbrev fields : List (List Part)
fields =
    (range 30 45 (some 5) ∷ [])
    ∷ (value 9 none ∷ [])
    ∷ (star none ∷ [])
    ∷ (star none ∷ [])
    ∷ (range 5 7 none ∷ [])
    ∷ []

abbrev weekend : Cron
weekend = record {
  minutes = 30 ∷ 35 ∷ 40 ∷ 45 ∷ [];
  hours = 9 ∷ [];
  days = 1 ∷ 5 ∷ [];
  months = 1 ∷ [];
  weekdays = 0 ∷ 5 ∷ 6 ∷ [];
  day_wild = false;
  weekday_wild = false;
}

-- A field with a step, and a weekday field that names Sunday by its 7.
weekend_fields :
    (parse_cron fields ≢ none)
    × (parse_cron (
          (value 60 none ∷ [])
          ∷ (star none ∷ [])
          ∷ (star none ∷ [])
          ∷ (star none ∷ [])
          ∷ (star none ∷ [])
          ∷ [])
        ≡ none)
unfolding parse_cron
weekend_fields = (λ e. absurd (ground (arith, e)), refl)

parse_cron-IsCron_example : IsCron (parse_cron fields)
parse_cron-IsCron_example = parse_cron-IsCron fields

-- The minutes of the 5th of January, a Monday.
abbrev monday : ℕ → Moment
monday t = record { minute = t % 60; hour = t / 60; day = 5; month = 1; weekday = 0 }

next_monday : next_after monday weekend 571 100 ≡ some 575
unfolding next_after
next_monday = refl

next_after-IsFirst_example : IsFirst monday weekend 100 572 (next_after monday weekend 571 100)
next_after-IsFirst_example = next_after-IsFirst monday weekend 571 100
