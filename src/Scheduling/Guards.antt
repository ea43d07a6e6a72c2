-- ===== src/Scheduling/Guards.antt =====
-- The guards of a run, `_check_guards` and `_note_auth`, the stop that they ask for and the outcome
-- that `_summarise` gives. Ceilings are whole microseconds, the error rate's in hundredths of a percent.
use regulator.Prelude.{
  ℕ, suc, ◌-◌, ◌*◌, Bool, true, false, ◌&&◌, not, Option, none, some, ltb, leb, if◌then◌else◌,
}
use regulator.Results.{ErrorClass, auth}
use regulator.Results.Run.{RunStats}
use regulator.Histogram.Reading.{percentile_us}
use regulator.Fleet.Summaries.Reports.{Outcome, completed, stopped, aborted, failed}

abbrev pub min_samples_for_guard : ℕ
min_samples_for_guard = 20

abbrev pub auth_refused_abort : ℕ
auth_refused_abort = 60_000

abbrev pub auth_refused_abort_count : ℕ
auth_refused_abort_count = 10

pub record AbortIf : Type 0 where
  pub error_rate : Option ℕ
  pub p95 : Option ℕ
  pub generator_drift : Option ℕ

-- Why a run is to stop; a reason that is given may have the word "exceeded".
pub data Reason : Type 0 where
  loop_lag error_rate_exceeded latency_exceeded auth_exceeded : Reason
  given : Bool → Reason

pub data Invalid : Type 0 where
  starved shed_arrivals skipped_arrivals : Invalid

-- What a scheduler keeps of the stop, the guards and the refusals.
pub record Course : Type 0 where
  pub stopping : Bool
  pub abort_reason : Option Reason
  pub invalid_reason : Option Invalid
  pub is_fatal : Bool
  pub refused_since : Option ℕ
  pub refused_count : ℕ

unfoldable pub new_course : Course
new_course = record {
  stopping = false;
  abort_reason = none;
  invalid_reason = none;
  is_fatal = false;
  refused_since = none;
  refused_count = 0;
}

unfoldable pub or_else : {A : Type 0} → Option A → A → A
or_else none b = b
or_else (some a) b = a

-- `request_stop`: the first reason is kept.
unfoldable pub ask_stop : Reason → Course → Course
unfolding or_else
ask_stop reason c =
    if c.stopping
    then c
    else record c { abort_reason = some (or_else c.abort_reason reason); stopping = true }

unfoldable pub is_above : ℕ → Option ℕ → Bool
is_above value none = false
is_above value (some ceiling) = ltb ceiling value

unfoldable pub is_rate_above : RunStats → Option ℕ → Bool
is_rate_above stats none = false
is_rate_above stats (some ceiling) = ltb (ceiling * stats.executions) (10_000 * stats.errors)

-- A percentile is in half microseconds.
unfoldable pub is_p95_above : RunStats → Option ℕ → Bool
unfolding percentile_us
is_p95_above stats none = false
is_p95_above stats (some ceiling) = ltb (2 * ceiling) (percentile_us 95 stats.overall_latency)

-- `_check_guards`
unfoldable pub check_guards : AbortIf → RunStats → Course → Course
unfolding ask_stop is_above is_rate_above is_p95_above
check_guards guards stats c =
    if is_above stats.max_loop_lag guards.generator_drift
    then ask_stop loop_lag (record c { invalid_reason = some starved })
    else if ltb stats.executions min_samples_for_guard
    then c
    else if is_rate_above stats guards.error_rate
    then ask_stop error_rate_exceeded c
    else if is_p95_above stats guards.p95
    then ask_stop latency_exceeded c
    else c

unfoldable pub is_auth : Option ErrorClass → Bool
is_auth (some auth) = true
is_auth _ = false

-- The refusal at `now` is one more of a streak that began at `since`.
unfoldable pub count_refusal : ℕ → ℕ → Course → Course
unfolding ask_stop
count_refusal now since c =
    let counted = record c { refused_since = some since; refused_count = suc c.refused_count } in
    if leb auth_refused_abort (now - since) && leb auth_refused_abort_count (suc c.refused_count)
    then ask_stop auth_exceeded counted
    else counted

-- `_note_auth`, of a record that is ok or has an error's class.
unfoldable pub note_auth : ℕ → Bool → Option ErrorClass → Course → Course
unfolding count_refusal is_auth or_else
note_auth now ok error_class c =
    if ok
    then record c { refused_since = none; refused_count = 0 }
    else if is_auth error_class
    then count_refusal now (or_else c.refused_since now) c
    else c

unfoldable pub when_none : Bool → Invalid → Option Invalid → Option Invalid
when_none b reason (some r) = some r
when_none b reason none = if b then some reason else none

-- The reason why a run is invalid: arrivals that were shed come before those that were skipped.
unfoldable pub final_reason : ℕ → ℕ → Course → Option Invalid
unfolding when_none
final_reason shed skipped c =
    when_none (ltb 0 skipped) skipped_arrivals
      (when_none (ltb 0 shed) shed_arrivals c.invalid_reason)

unfoldable pub has_exceeded : Reason → Bool
has_exceeded loop_lag = false
has_exceeded error_rate_exceeded = true
has_exceeded latency_exceeded = true
has_exceeded auth_exceeded = true
has_exceeded (given exceeded) = exceeded

unfoldable pub outcome_from : Bool → Option Invalid → Option Reason → Outcome
unfolding has_exceeded
outcome_from true invalid reason = failed
outcome_from false (some r) reason = aborted
outcome_from false none (some r) = if has_exceeded r then aborted else stopped
outcome_from false none none = completed

unfoldable pub is_none_of : {A : Type 0} → Option A → Bool
is_none_of none = true
is_none_of (some a) = false

-- `_summarise`: the outcome, and whether the run is valid.
unfoldable pub summarise : ℕ → ℕ → Course → Outcome × Bool
unfolding final_reason outcome_from is_none_of
summarise shed skipped c =
    let reason = final_reason shed skipped c in
    (outcome_from c.is_fatal reason c.abort_reason, is_none_of reason && not c.is_fatal)
