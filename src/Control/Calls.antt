-- ===== src/Control/Calls.antt =====
-- What a scheduler can be called to do (worker/regulator_agent/scheduler.py), and the pauses that such calls
-- make.
use regulator.Prelude.{
  ℕ, ◌+◌, ◌-◌, Bool, true, false, Option, none, some, List, [], ◌∷◌, ◌++◌, any, ◌||◌, if◌then◌else◌,
}
use regulator.Fleet.Plan.{LoadModel}
use regulator.Fleet.Leases.Handlers.{is_some}
use regulator.Control.{Scheduler, apply_pause, close_last, apply_resume, apply_load}

pub data Call : Type 0 where
  pausing resuming : (tick wall : ℕ) → Call
  loading : (wall value : ℕ) → Call
  starting : (tick wall : ℕ) → Call
  stopping : Call

unfoldable pub fresh : LoadModel → Scheduler
fresh model = record {
  model = model;
  stopping = false;
  paused_since = none;
  paused_total = 0;
  pauses = [];
  stats_paused_since = none;
  stats_paused = 0;
  load_override = none;
  load_changes = [];
}

-- The start of `Scheduler.run`: a pause that is on counts from here.
unfoldable pub anchor_from : ℕ → ℕ → Scheduler → Option ℕ → Scheduler
anchor_from tick wall s none = s
anchor_from tick wall s (some since) = record s {
  paused_since = some tick;
  stats_paused_since = some wall;
}

unfoldable pub begin_run : ℕ → ℕ → Scheduler → Scheduler
unfolding anchor_from
begin_run tick wall s = anchor_from tick wall s s.paused_since

unfoldable pub perform : Call → Scheduler → Scheduler
perform (pausing tick wall) s = apply_pause tick wall s
perform (resuming tick wall) s = apply_resume tick wall s
perform (loading wall value) s = apply_load wall value s
perform (starting tick wall) s = begin_run tick wall s
perform stopping s = record s { stopping = true }

-- The scheduler after these calls, the newest first.
unfoldable pub performed : LoadModel → List Call → Scheduler
performed model [] = fresh model
performed model (call ∷ before) = perform call (performed model before)

abbrev pub length_of : ℕ × Option ℕ → ℕ
length_of (at_, none) = 0
length_of (at_, some resumed) = resumed - at_

unfoldable pub closed_sum : List (ℕ × Option ℕ) → ℕ
closed_sum [] = 0
closed_sum (p ∷ rest) = length_of p + closed_sum rest

abbrev pub opened_at : ℕ × Option ℕ → Option ℕ
opened_at (at_, none) = some at_
opened_at (at_, some resumed) = none

-- When the last pause began, if it is still going on.
unfoldable pub open_at : List (ℕ × Option ℕ) → Option ℕ
open_at [] = none
open_at (p ∷ []) = opened_at p
open_at (p ∷ q ∷ rest) = open_at (q ∷ rest)

abbrev pub is_stopping : Call → Bool
is_stopping stopping = true
is_stopping _ = false

-- What counts of the pauses: the last one, if it is on, counts from the start of the run.
unfoldable pub anchor_last : ℕ → List (ℕ × Option ℕ) → List (ℕ × Option ℕ)
anchor_last wall [] = []
anchor_last wall ((at_, none) ∷ []) = (wall, none) ∷ []
anchor_last wall ((at_, some resumed) ∷ []) = (at_, some resumed) ∷ []
anchor_last wall (p ∷ q ∷ rest) = p ∷ anchor_last wall (q ∷ rest)

-- The pauses that calls make, as they count: one begins where none is on and the run is not stopping.
unfoldable pub counted : List Call → List (ℕ × Option ℕ)
unfolding open_at close_last
counted [] = []
counted (pausing tick wall ∷ before) =
    let pauses = counted before in
    if is_some (open_at pauses) || any is_stopping before
    then pauses
    else pauses ++ (wall, none) ∷ []
counted (resuming tick wall ∷ before) =
    let pauses = counted before in
    if is_some (open_at pauses) then close_last wall pauses else pauses
counted (starting tick wall ∷ before) = anchor_last wall (counted before)
counted (loading wall value ∷ before) = counted before
counted (stopping ∷ before) = counted before

-- The same pauses as they are listed: a start changes none.
abbrev pub without_starts : List Call → List Call
without_starts [] = []
without_starts (starting tick wall ∷ before) = without_starts before
without_starts (call ∷ before) = call ∷ without_starts before
