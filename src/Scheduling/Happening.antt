-- ===== src/Scheduling/Happening.antt =====
-- What happens to a run in its loop (`Scheduler.run`), and after it.
use regulator.Prelude.{ℕ, Bool, true, Option, List, [], ◌∷◌}
use regulator.Results.{ErrorClass}
use regulator.Results.Run.{RunStats}
use regulator.Scheduling.Guards.{
  Course, new_course, Reason, AbortIf, ask_stop, check_guards, note_auth,
}

-- What can happen to a run in its loop: a record, a look at the guards, a call to stop, an exception.
pub data Event : Type 0 where
  noted : (now : ℕ) → (ok : Bool) → Option ErrorClass → Event
  guarded : AbortIf → RunStats → Event
  asked : Reason → Event
  raised : Event

unfoldable pub happen : Event → Course → Course
unfolding note_auth check_guards ask_stop
happen (noted now ok error_class) c = note_auth now ok error_class c
happen (guarded guards stats) c = check_guards guards stats c
happen (asked reason) c = ask_stop reason c
happen raised c = record c { is_fatal = true }

unfoldable pub course_of : List Event → Course → Course
unfolding happen
course_of [] c = c
course_of (e ∷ rest) c = course_of rest (happen e c)

-- What can happen after that, while the tasks in flight end and the harvest lasts.
pub data LateEvent : Type 0 where
  late_noted : (now : ℕ) → (ok : Bool) → Option ErrorClass → LateEvent
  late_asked : Reason → LateEvent

unfoldable pub happen_late : LateEvent → Course → Course
unfolding note_auth ask_stop
happen_late (late_noted now ok error_class) c = note_auth now ok error_class c
happen_late (late_asked reason) c = ask_stop reason c

-- `_drain` stops the run without a reason.
unfoldable pub drain : Course → Course
drain c = record c { stopping = true }

unfoldable pub wind_up : List LateEvent → Course → Course
unfolding happen_late
wind_up [] c = c
wind_up (e ∷ rest) c = wind_up rest (happen_late e c)

-- The whole course of a run, for `_summarise`.
unfoldable pub whole_course : List Event → List LateEvent → Course
unfolding course_of drain wind_up new_course
whole_course es late = wind_up late (drain (course_of es new_course))
