-- ===== src/Guard.antt =====
-- worker/regulator_agent/targetguard.py: the guards that watch the target and stop the run. Readings
-- are numbers of one unit. `_value`, a search over the Splunk client, is a parameter: each poll is
-- given what it came to. The texts of reasons and of the stop's message are left out, their kinds kept.
pub mod Breaches
pub mod Account
pub mod Skipped
pub mod Status
pub mod Tests
use Prim.Native.Nat.{max}
use regulator.Prelude.{
  ℕ, suc, ◌+◌, ◌-◌, Bool, true, false, ◌&&◌, ◌||◌, not, Option, none, some, List, [], ◌∷◌, ◌++◌,
  ltb, if◌then◌else◌,
}

-- BREACH_SAMPLES
abbrev pub breach_samples : ℕ
breach_samples = 2

-- What `_value` came to: an exception, no row, or a number.
pub data Sample : Type 0 where
  raised : ℕ → Sample
  no_rows : Sample
  value : ℕ → Sample

pub data Reason : Type 0 where
  no_client no_events : Reason
  poll_error : ℕ → Reason

pub record GuardState : Type 0 where
  pub limit : ℕ
  pub live : Bool
  pub readings : ℕ
  pub latest : Option ℕ
  pub peak : Option ℕ
  pub breaches : ℕ
  pub unavailable_reason : Option Reason

unfoldable pub fresh : ℕ → GuardState
fresh limit = record {
  limit = limit;
  live = false;
  readings = 0;
  latest = none;
  peak = none;
  breaches = 0;
  unavailable_reason = none;
}

pub raised_to : ℕ → Option ℕ → ℕ
raised_to reading none = reading
raised_to reading (some peak) = max peak reading

-- `_record`
pub record_reading : ℕ → GuardState → GuardState
unfolding raised_to
record_reading reading state = record state {
  live = true;
  unavailable_reason = none;
  readings = suc state.readings;
  latest = some reading;
  peak = some (raised_to reading state.peak);
}

pub first_reason : Option Reason → Reason → Option Reason
first_reason none reason = some reason
first_reason (some earlier) reason = some earlier

-- `_mark_unavailable`
pub mark_unavailable : Reason → GuardState → GuardState
unfolding first_reason
mark_unavailable reason state =
    if state.live
    then state
    else record state { unavailable_reason = first_reason state.unavailable_reason reason }

-- `_breach`; true when it requests the stop.
pub breach : GuardState → GuardState × Bool
breach state =
    let counted : GuardState = record state { breaches = suc state.breaches } in
    (counted, not (ltb (suc state.breaches) breach_samples))

-- What both polls do with a reading.
pub judge : ℕ → GuardState → GuardState × Bool
unfolding record_reading breach
judge reading state =
    let recorded = record_reading reading state in
    if ltb state.limit reading then breach recorded else (record recorded { breaches = 0 }, false)

-- `_poll_cpu`
pub poll_cpu : Sample → GuardState → GuardState × Bool
unfolding mark_unavailable judge
poll_cpu (raised error) state = (mark_unavailable (poll_error error) state, false)
poll_cpu no_rows state = (mark_unavailable no_events state, false)
poll_cpu (value cpu) state = judge cpu state

-- A total of skipped searches, given the baseline.
pub count_skipped : Bool → ℕ → Option ℕ → GuardState → Option ℕ × (GuardState × Bool)
unfolding record_reading judge
count_skipped first total none state = (some total, (record_reading 0 state, false))
count_skipped true total (some baseline) state = (some total, (record_reading 0 state, false))
count_skipped false total (some baseline) state = (some baseline, judge (total - baseline) state)

-- `_poll_skipped`: the baseline, the state, and whether the stop is requested.
pub poll_skipped : Bool → Sample → Option ℕ → GuardState → Option ℕ × (GuardState × Bool)
unfolding mark_unavailable count_skipped
poll_skipped first (raised error) baseline state =
    (baseline, (mark_unavailable (poll_error error) state, false))
poll_skipped first no_rows baseline state = count_skipped first 0 baseline state
poll_skipped first (value total) baseline state = count_skipped first total baseline state

pub record TargetGuard : Type 0 where
  pub has_client : Bool
  pub cpu : Option GuardState
  pub skipped : Option GuardState
  pub baseline_skipped : Option ℕ
  pub polling : Bool
  pub stopped : Bool

abbrev pub guard_for : Option ℕ → Option GuardState
guard_for none = none
guard_for (some limit) = some (fresh limit)

-- `__post_init__`, for the ceilings that the scenario names.
pub new_guard : Bool → Option ℕ → Option ℕ → TargetGuard
new_guard has_client sut_cpu_pct skipped_searches_delta = record {
  has_client = has_client;
  cpu = guard_for sut_cpu_pct;
  skipped = guard_for skipped_searches_delta;
  baseline_skipped = none;
  polling = false;
  stopped = false;
}

abbrev pub cpu_part : Sample → Option GuardState → Option GuardState × Bool
cpu_part sample none = (none, false)
cpu_part sample (some state) = let polled = poll_cpu sample state in (some polled.0, polled.1)

abbrev pub skipped_part :
    Bool → Sample → Option ℕ → Option GuardState → Option ℕ × (Option GuardState × Bool)
skipped_part first sample baseline none = (baseline, (none, false))
skipped_part first sample baseline (some state) =
    let polled = poll_skipped first sample baseline state in
    (polled.0, (some polled.1.0, polled.1.1))

-- `_poll_once`, and whether it requests the stop.
pub poll_once : Bool → Sample → Sample → TargetGuard → TargetGuard × Bool
poll_once first cpu_sample skipped_sample guard =
    let cpu' = cpu_part cpu_sample guard.cpu in
    let skipped' = skipped_part first skipped_sample guard.baseline_skipped guard.skipped in
    (
      record guard { cpu = cpu'.0; skipped = skipped'.1.0; baseline_skipped = skipped'.0 },
      cpu'.1 || skipped'.1.1,
    )

abbrev pub without_client : Option GuardState → Option GuardState
without_client none = none
without_client (some state) = some (record state { unavailable_reason = some no_client })

abbrev pub is_wanted : TargetGuard → Bool
is_wanted guard = elim guard.cpu [
  | some _ ↦ true
  | none ↦ elim guard.skipped [ some _ ↦ true | none ↦ false ]
]

-- `start`: one inline poll, then the loop.
pub start : Sample → Sample → TargetGuard → TargetGuard × Bool
unfolding poll_once
start cpu_sample skipped_sample guard =
    if not (is_wanted guard) || guard.polling
    then (guard, false)
    else if not guard.has_client
    then (
      record guard { cpu = without_client guard.cpu; skipped = without_client guard.skipped },
      false,
    )
    else let polled = poll_once true cpu_sample skipped_sample guard in
      (record (polled.0) { polling = true }, polled.1)

-- One round of `_loop`, which runs until the guard is stopped.
pub round : Sample → Sample → TargetGuard → TargetGuard × Bool
unfolding poll_once
round cpu_sample skipped_sample guard =
    if guard.stopped || not guard.polling
    then (guard, false)
    else poll_once false cpu_sample skipped_sample guard

-- `stop`
pub stop : TargetGuard → TargetGuard
stop guard = record guard { stopped = true; polling = false }

pub data Name : Type 0 where
  skipped_searches_delta sut_cpu_pct : Name

abbrev pub if_dead : Name → Option GuardState → List Name
if_dead name none = []
if_dead name (some state) = if state.live then [] else name ∷ []

-- `unevaluated` of `status`, in the order of the names.
pub unevaluated : TargetGuard → List Name
unevaluated guard = if_dead skipped_searches_delta guard.skipped ++ if_dead sut_cpu_pct guard.cpu

abbrev pub reason_of : Option GuardState → Option Reason
reason_of none = none
reason_of (some state) = state.unavailable_reason

abbrev pub reason_for : TargetGuard → Name → Option Reason
reason_for guard skipped_searches_delta = reason_of guard.skipped
reason_for guard sut_cpu_pct = reason_of guard.cpu

pub notes_for : TargetGuard → List Name → List (Name × Option Reason)
notes_for guard [] = []
notes_for guard (n ∷ ns) = (n, reason_for guard n) ∷ notes_for guard ns

-- `guard_notes` of `status`.
pub guard_notes : TargetGuard → List (Name × Option Reason)
unfolding unevaluated notes_for
guard_notes guard = notes_for guard (unevaluated guard)
