-- ===== src/Scheduling/Verdicts.antt =====
-- What the outcome of a run says of its course.
use regulator.Prelude.{◌≡◌, Bool, true, false, ◌||◌, not}
use regulator.Fleet.Summaries.Reports.{Outcome, completed}
use regulator.Scheduling.Guards.{Course, is_none_of}

-- A run has a reason just if it is stopping, and is found invalid only then.
abbrev IsSettled : Course → Type 0
IsSettled c =
    (is_none_of c.abort_reason ≡ not c.stopping)
    × ((is_none_of c.invalid_reason || c.stopping) ≡ true)

abbrev pub is_completed : Outcome → Bool
is_completed completed = true
is_completed _ = false

-- What a course that is stopped already keeps.
record IsKept (c after : Course) : Type 0 where
  abort_reason : after.abort_reason ≡ c.abort_reason
  invalid_reason : after.invalid_reason ≡ c.invalid_reason
  is_fatal : after.is_fatal ≡ c.is_fatal
  stopping : after.stopping ≡ true
