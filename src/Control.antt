-- ===== src/Control.antt =====
-- server/regulator_server/runcontrol.py, and the part of worker/regulator_agent/scheduler.py that it
-- calls: a run is paused, resumed, or given another load. `_on_loop` is the call itself here. Labels
-- and notes, which are text, are left out.
pub mod Pauses
pub mod Calls
pub mod Books
pub mod Loads
pub mod Tests
use regulator.Prelude.{
  ℕ, ◌+◌, ◌-◌, ◌*◌, Bool, true, false, not, ◌&&◌, ◌||◌, Option, none, some, List, [], ◌∷◌, ◌++◌,
  any, length, ltb, ◌==◌, if◌then◌else◌,
}
use regulator.Fleet.Plan.{LoadModel, closed, opened, schedule, browser}
use regulator.Fleet.Leases.{
  RunState, started, FleetState, active, WorkerLease, Run, Session, is_terminal,
}

-- The scheduler's bookkeeping, by two clocks: `tick` is perf_counter and `wall` is time.
pub record Scheduler : Type 0 where
  pub model : LoadModel
  pub stopping : Bool
  pub paused_since : Option ℕ
  pub paused_total : ℕ
  pub pauses : List (ℕ × Option ℕ)
  pub stats_paused_since : Option ℕ
  pub stats_paused : ℕ
  pub load_override : Option ℕ
  pub load_changes : List (ℕ × ℕ)

-- A scheduler that is paused already, or is stopping, stays as it is.
unfoldable pub pause_from : ℕ → ℕ → Scheduler → Option ℕ → Bool → Scheduler
pause_from tick wall s (some since) stopping = s
pause_from tick wall s none true = s
pause_from tick wall s none false = record s {
  paused_since = some tick;
  pauses = s.pauses ++ (wall, none) ∷ [];
  stats_paused_since = some wall;
}

-- `_apply_pause`
unfoldable pub apply_pause : ℕ → ℕ → Scheduler → Scheduler
unfolding pause_from
apply_pause tick wall s = pause_from tick wall s s.paused_since s.stopping

-- self._pauses[-1]["resumed_at"] = wall
unfoldable pub close_last : ℕ → List (ℕ × Option ℕ) → List (ℕ × Option ℕ)
close_last wall [] = []
close_last wall (p ∷ []) = (p.0, some wall) ∷ []
close_last wall (p ∷ q ∷ rest) = p ∷ close_last wall (q ∷ rest)

unfoldable pub stats_more : ℕ → Option ℕ → ℕ → ℕ
stats_more wall none paused = paused
stats_more wall (some since) paused = paused + (wall - since)

unfoldable pub resume_since : ℕ → ℕ → Scheduler → Option ℕ → Scheduler
unfolding close_last stats_more
resume_since tick wall s none = s
resume_since tick wall s (some since) = record s {
  paused_total = s.paused_total + (tick - since);
  paused_since = none;
  stats_paused = stats_more wall s.stats_paused_since s.stats_paused;
  stats_paused_since = none;
  pauses = close_last wall s.pauses;
}

-- `_apply_resume`
unfoldable pub apply_resume : ℕ → ℕ → Scheduler → Scheduler
unfolding resume_since
apply_resume tick wall s = resume_since tick wall s s.paused_since

-- `_apply_load`
unfoldable pub apply_load : ℕ → ℕ → Scheduler → Scheduler
apply_load wall value s = record s {
  load_override = some value;
  load_changes = s.load_changes ++ (wall, value) ∷ [];
}

pub data Figure : Type 0 where
  virtual_users arrival_rate_per_min : Figure

pub data Change : Type 0 where
  pause_entry resume_entry : Change
  load_entry : Figure → ℕ → Change

-- A run, the scheduler of an in-process one (`manager.active_entry`: none, or one that may not have its
-- scheduler yet), and `controls_json`.
pub record Controlled : Type 0 where
  pub session : Session
  pub in_process : Bool
  pub entry : Option (Option Scheduler)
  pub controls : List (ℕ × Change)

pub data ControlRefused : Type 0 where
  run_over not_in_flight not_running not_paused negative_load still_starting over_users over_rate
        mixed_groups no_figure over_fleet :
      ControlRefused

pub data Outcome (A : Type 0) : Type 0 where
  refuse : ControlRefused → Outcome A
  accept : A → Outcome A

abbrev pub is_running_fleet : Run → Bool
is_running_fleet run = elim run.state [
  | started ↦ elim run.fleet_state [ none ↦ false | some f ↦ elim f [ active ↦ true | _ ↦ false ] ]
  | _ ↦ false
]

abbrev pub of_entry : Option (Option Scheduler) → Outcome (Option Scheduler)
of_entry none = refuse not_in_flight
of_entry (some scheduler) = accept scheduler

-- `_require_running`
unfoldable pub require_running : Controlled → Outcome (Option Scheduler)
require_running c =
    if is_terminal c.session.run.state
    then refuse run_over
    else if c.in_process
    then of_entry c.entry
    else if is_running_fleet c.session.run
    then accept none
    else refuse not_running

-- The run's scheduler after a call of it.
abbrev pub called :
    (Scheduler → Scheduler)
    → Option Scheduler
    → Option (Option Scheduler)
    → Option (Option Scheduler)
called f none entry = entry
called f (some scheduler) entry = some (some (f scheduler))

abbrev pub with_run : Controlled → Run → Option (Option Scheduler) → ℕ × Change → Controlled
with_run c run entry change = record c {
  session = record (c.session) { run = run };
  entry = entry;
  controls = c.controls ++ change ∷ [];
}

-- A run that is paused already stays as it is.
unfoldable pub paused_by : ℕ → ℕ → Controlled → Option ℕ → Option Scheduler → Controlled
unfolding apply_pause
paused_by tick now c (some since) scheduler = c
paused_by tick now c none scheduler =
    with_run c (record (c.session.run) { paused_at = some now })
      (called (apply_pause tick now) scheduler c.entry) (now, pause_entry)

abbrev pub and_then : {A B : Type 0} → Outcome A → (A → Outcome B) → Outcome B
and_then (refuse why) f = refuse why
and_then (accept a) f = f a

unfoldable pub pause : ℕ → ℕ → Controlled → Outcome Controlled
unfolding require_running paused_by
pause tick now c =
    and_then (require_running c)
      (λ scheduler. accept (paused_by tick now c c.session.run.paused_at scheduler))

unfoldable pub resumed_by : ℕ → ℕ → ℕ → Controlled → Option Scheduler → Controlled
unfolding apply_resume
resumed_by tick now since c scheduler =
    with_run c
      (record (c.session.run) {
        paused_s = c.session.run.paused_s + (now - since);
        paused_at = none;
      })
      (called (apply_resume tick now) scheduler c.entry) (now, resume_entry)

unfoldable pub resume_from : ℕ → ℕ → Controlled → Option ℕ → Outcome Controlled
unfolding require_running resumed_by
resume_from tick now c none = refuse not_paused
resume_from tick now c (some since) =
    and_then (require_running c) (λ scheduler. accept (resumed_by tick now since c scheduler))

unfoldable pub resume : ℕ → ℕ → Controlled → Outcome Controlled
unfolding resume_from
resume tick now c = resume_from tick now c c.session.run.paused_at

pub record Limits : Type 0 where
  pub max_virtual_users : ℕ
  pub vus_per_worker : ℕ
  pub browser_contexts_per_worker : ℕ

-- `_fleet_model`: the leases' model and engine, or none without leases.
unfoldable pub fleet_model : List WorkerLease → Outcome (Option (LoadModel × ℕ))
fleet_model [] = accept none
fleet_model (l ∷ ls) =
    if any (λ m. not (m.group == l.group)) ls
    then refuse mixed_groups
    else accept (some (l.model, l.engine))

abbrev pub density : Limits → ℕ → ℕ
density limits engine =
    if engine == browser then limits.browser_contexts_per_worker else limits.vus_per_worker

-- The scheduler's own `set_load` refuses the schedule model.
unfoldable pub scheduler_figure : Limits → ℕ → LoadModel → Outcome Figure
scheduler_figure limits value closed =
    if ltb limits.max_virtual_users value then refuse over_users else accept virtual_users
scheduler_figure limits value opened =
    if ltb (limits.max_virtual_users * 60) value
    then refuse over_rate
    else accept arrival_rate_per_min
scheduler_figure limits value schedule = refuse no_figure

unfoldable pub fleet_figure : Limits → ℕ → ℕ → Option (LoadModel × ℕ) → Outcome Figure
fleet_figure limits value workers none = refuse no_figure
fleet_figure limits value workers (some (closed, engine)) =
    if ltb (workers * density limits engine) value then refuse over_fleet else accept virtual_users
fleet_figure limits value workers (some (opened, engine)) = accept arrival_rate_per_min
fleet_figure limits value workers (some (schedule, engine)) = refuse no_figure

abbrev pub model_of : Option Scheduler → Outcome LoadModel
model_of none = refuse still_starting
model_of (some scheduler) = accept scheduler.model

unfoldable pub figure : Limits → ℕ → Controlled → Option Scheduler → Outcome Figure
unfolding scheduler_figure fleet_model fleet_figure
figure limits value c scheduler =
    if c.in_process
    then and_then (model_of scheduler) (scheduler_figure limits value)
    else and_then (fleet_model c.session.leases)
        (fleet_figure limits value (length c.session.leases))

abbrev pub loaded : ℕ → ℕ → Controlled → Option Scheduler → Figure → Controlled
loaded now value c scheduler kind =
    with_run c (record (c.session.run) { load_override = some value })
      (if c.in_process then called (apply_load now value) scheduler c.entry else c.entry)
      (now, load_entry kind value)

-- `set_load`: a negative value is `none`.
unfoldable pub set_load : Limits → ℕ → Option ℕ → Controlled → Outcome (Controlled × Figure)
unfolding require_running figure
set_load limits now none c = and_then (require_running c) (λ scheduler. refuse negative_load)
set_load limits now (some value) c = and_then (require_running c) (λ scheduler.
    and_then (figure limits value c scheduler)
      (λ kind. accept (loaded now value c scheduler kind, kind)))
