-- ===== src/Fleet/Summaries/Merge.antt =====
-- `merge_summaries` and `summary_problem`.
use regulator.Prelude.{
  ℕ, ◌+◌, ◌-◌, Bool, true, false, not, ◌&&◌, Option, none, some, List, [], ◌∷◌, ◌++◌, map, ◌==◌,
  if◌then◌else◌, sum, max_of, min_of, length, all, any,
}
use regulator.Histogram.{LatencyHistogram}
use regulator.Histogram.Reading.{or_zero, summary}
use regulator.Histogram.Document.{
  Parsed, parsed, wrong_version, wrong_layout, wrong_value, and_then,
}
use regulator.Results.{is_positive}
use regulator.Results.Interval.{merge_classes, is_nonempty, or_time}
use regulator.Results.Snapshot.{Stats, Histograms}
use regulator.Fleet.Summaries.Steps.{
  StepOut, EpochOut, hist, merged_steps, step_out, each, epoch_hists, sort_epochs, epoch_out,
}
use regulator.Fleet.Plan.{LoadModel}
use regulator.Fleet.Summaries.Reports.{
  Outcome, RunSummary, InvalidReason, MergedStats, WorkerRow, MergedRun, Hists, completed, stopped,
  aborted, failed, reported, Figure, number, not_number, workers_lost, no_report,
}

unfoldable pub total : (Stats → Option ℕ) → List Stats → ℕ
unfolding or_zero
total f stats_list = sum (map (λ st. or_zero (f st)) stats_list)

-- Those times that are given and are not zero.
unfoldable pub given_times : List (Option ℕ) → List ℕ
unfolding is_positive or_zero
given_times [] = []
given_times (t ∷ ts) = if is_positive t then or_zero t ∷ given_times ts else given_times ts

-- The last of the times, or now where none is given.
unfoldable pub latest : List ℕ → ℕ → ℕ
unfolding max_of
latest [] now = now
latest (t ∷ ts) now = max_of (t ∷ ts)

abbrev or_failed : Option Outcome → Outcome
or_failed none = failed
or_failed (some outcome) = outcome

abbrev is_failed : Outcome → Bool
is_failed failed = true
is_failed _ = false

abbrev is_aborted : Outcome → Bool
is_aborted aborted = true
is_aborted _ = false

abbrev is_stopped : Outcome → Bool
is_stopped stopped = true
is_stopped _ = false

unfoldable pub worst : List Outcome → Outcome
worst outcomes =
    if any is_failed outcomes
    then failed
    else if any is_aborted outcomes
    then aborted
    else if any is_stopped outcomes
    then stopped
    else completed

unfoldable pub outcomes_of : List RunSummary → List Outcome
outcomes_of summaries = map (λ s. or_failed s.outcome) summaries

unfoldable pub reported_reasons : List RunSummary → List InvalidReason
reported_reasons [] = []
reported_reasons (s ∷ rest) = elim s.invalid_reason [
  | none ↦ reported_reasons rest
  | some reason ↦ reported reason ∷ reported_reasons rest
]

abbrev when {ℓ} : {A : Type ℓ} → Bool → A → List A
when test a = if test then a ∷ [] else []

unfoldable pub invalid_reasons : List RunSummary → List ℕ → List InvalidReason
unfolding reported_reasons is_nonempty
invalid_reasons summaries lost_slots =
    reported_reasons summaries
    ++ when (is_nonempty lost_slots) (workers_lost lost_slots)
    ++ when (not (is_nonempty summaries)) no_report

-- all(valid) and not lost_slots and bool(summaries)
unfoldable pub is_valid : List RunSummary → List ℕ → Bool
unfolding is_nonempty
is_valid summaries lost_slots =
    all (λ s. s.valid) summaries && not (is_nonempty lost_slots) && is_nonempty summaries

unfoldable pub first_reason : List RunSummary → Option ℕ
first_reason [] = none
first_reason (s ∷ rest) = elim s.abort_reason [
  | none ↦ first_reason rest
  | some reason ↦ some reason
]

-- The `_hist` calls over the run's own histograms. Of the loop lag and the drift the report takes
-- percentiles, which are left out; they have to be readable.
unfoldable pub other_hists : List Histograms → LatencyHistogram → Parsed Hists
unfolding hist summary
other_hists hists latency = and_then (hist (map (λ h. h.failure_latency) hists)) λ failure.
    and_then (hist (map (λ h. h.queued) hists)) λ queued.
      and_then (hist (map (λ h. h.loop_lag) hists)) λ loop_lag.
        and_then (hist (map (λ h. h.drift) hists)) λ drift.
          and_then (hist (map (λ h. h.after_end_run_duration) hists)) λ duration. parsed (record {
            latency = summary latency;
            failure_latency = summary failure;
            queued = summary queued;
            run_duration = summary duration;
          })

unfoldable pub merged_hists : List Histograms → Parsed Hists
unfolding hist other_hists
merged_hists hists = and_then (hist (map (λ h. h.latency) hists)) (other_hists hists)

-- total("job_executions") or the sum of the queueing parts'
unfoldable pub total_jobs : List Stats → ℕ
unfolding total
total_jobs stats_list =
    let jobs = total (λ st. st.job_executions) stats_list in
    if jobs == 0 then total (λ st. st.queueing_jobs) stats_list else jobs

unfoldable pub stats_of : List RunSummary → List Stats
stats_of summaries = map (λ s. s.stats) summaries

unfoldable pub merged_stats :
    List RunSummary → ℕ → Hists → List EpochOut → List StepOut → MergedStats
unfolding total total_jobs merge_classes max_of stats_of or_zero
merged_stats summaries duration h epochs steps =
    let stats_list = stats_of summaries in
    let executions = total (λ st. st.executions) stats_list in
    let errors = total (λ st. st.errors) stats_list in
    record {
      elapsed = duration;
      executions = executions;
      successes = executions - errors;
      iterations_completed = total (λ st. st.iterations_completed) stats_list;
      errors = errors;
      errors_by_class = merge_classes [] (map (λ st. st.errors_by_class) stats_list);
      epochs = epochs;
      partial = total (λ st. st.partial) stats_list;
      abandoned = total (λ st. st.abandoned) stats_list;
      finished_after_end = total (λ st. st.finished_after_end) stats_list;
      still_running = total (λ st. st.still_running) stats_list;
      run_duration = h.run_duration;
      peak_in_flight = total (λ st. st.peak_in_flight) stats_list;
      latency = h.latency;
      failure_latency = h.failure_latency;
      searches_queued = total (λ st. st.searches_queued) stats_list;
      job_executions = total_jobs stats_list;
      queued_ms = h.queued;
      max_loop_lag = max_of (map (λ st. or_zero st.max_loop_lag) stats_list);
      max_schedule_debt = max_of (map (λ st. or_zero st.max_schedule_debt) stats_list);
      steps = steps;
      arrivals_missed = total (λ st. st.arrivals_missed) stats_list;
      arrivals_shed = total (λ st. st.arrivals_shed) stats_list;
      arrivals_skipped = total (λ st. st.arrivals_skipped) stats_list;
      workers = length summaries;
    }

abbrev first_of : List RunSummary → Option RunSummary
first_of [] = none
first_of (s ∷ rest) = some s

abbrev pub model_of : List RunSummary → Option LoadModel
model_of [] = none
model_of (s ∷ rest) = s.configured_load.model

abbrev pub is_number : Option Figure → Bool
is_number (some not_number) = false
is_number _ = true

-- int(p.get(...) or 0), of what is a number
abbrev pub figure_value : Option Figure → ℕ
figure_value (some (number n)) = n
figure_value _ = 0

-- Whether the figure that a run of this model sums can be converted.
unfoldable pub has_figure : Option LoadModel → RunSummary → Bool
has_figure (some LoadModel.closed) s = is_number s.configured_load.virtual_users
has_figure (some LoadModel.opened) s = is_number s.configured_load.arrival_rate
has_figure _ s = true

-- Whether no conversion of the call fails.
unfoldable pub are_typed : List RunSummary → Bool
unfolding has_figure
are_typed summaries = all (λ s. s.well_typed && has_figure (model_of summaries) s) summaries

-- The configured load of the whole fleet: the users of a closed run and the rate of an open one.
unfoldable pub configured_users : List RunSummary → Option Figure
configured_users summaries = elim (model_of summaries) [
  | some LoadModel.closed ↦
      some (number (sum (map (λ s. figure_value s.configured_load.virtual_users) summaries)))
  | _ ↦ elim summaries [ [] ↦ none | s ∷ rest ↦ s.configured_load.virtual_users ]
]

unfoldable pub configured_rate : List RunSummary → Option Figure
configured_rate summaries = elim (model_of summaries) [
  | some LoadModel.opened ↦
      some (number (sum (map (λ s. figure_value s.configured_load.arrival_rate) summaries)))
  | _ ↦ elim summaries [ [] ↦ none | s ∷ rest ↦ s.configured_load.arrival_rate ]
]

unfoldable pub worker_rows : List RunSummary → List ℕ → List WorkerRow
unfolding or_zero
worker_rows summaries lost_slots =
    map
      (λ s. record {
        outcome = s.outcome;
        valid = s.valid;
        executions = or_zero s.stats.executions;
        errors = or_zero s.stats.errors;
      })
      summaries
    ++ map (λ slot. record { outcome = none; valid = false; executions = 0; errors = 0 }) lost_slots

unfoldable pub started_of : ℕ → List RunSummary → ℕ
unfolding given_times or_time min_of
started_of now summaries = or_time (min_of (given_times (map (λ s. s.started_at) summaries))) now

unfoldable pub ended_of : ℕ → List RunSummary → ℕ
unfolding given_times latest
ended_of now summaries = latest (given_times (map (λ s. s.ended_at) summaries)) now

unfoldable pub merged_run : ℕ → List RunSummary → List ℕ → MergedStats → MergedRun
unfolding worst outcomes_of is_valid invalid_reasons first_reason configured_users configured_rate
    worker_rows started_of ended_of is_nonempty or_zero
merged_run now summaries lost_slots stats = record {
  outcome = worst (outcomes_of summaries);
  valid = is_valid summaries lost_slots;
  reasons = invalid_reasons summaries lost_slots;
  started_at = started_of now summaries;
  ended_at = ended_of now summaries;
  self_instrumented = any (λ s. s.self_instrumented) summaries;
  co_corrected = is_nonempty summaries && all (λ s. s.co_corrected) summaries;
  peak_virtual_users = sum (map (λ s. or_zero s.peak_virtual_users) summaries);
  stats = stats;
  abort_reason = first_reason summaries;
  first = first_of summaries;
  configured_workers = length summaries + length lost_slots;
  virtual_users = configured_users summaries;
  arrival_rate = configured_rate summaries;
  workers = worker_rows summaries lost_slots;
}

-- The parts of `merge_summaries` after the run's histograms: the epochs, the steps, and the report. Where
-- more than one conversion fails, which of them ends the call is left open.
module _ (now : ℕ) (summaries : List RunSummary) (lost_slots : List ℕ) where
  unfoldable pub with_steps : Hists → List EpochOut → List StepOut → Parsed MergedRun
  unfolding merged_run merged_stats started_of ended_of are_typed
  with_steps h epochs steps =
      if are_typed summaries
      then parsed (
          merged_run now summaries lost_slots (
            merged_stats summaries (ended_of now summaries - started_of now summaries) h epochs
              steps))
      else wrong_value

  unfoldable pub with_epochs : Hists → List EpochOut → Parsed MergedRun
  unfolding with_steps each step_out merged_steps stats_of
  with_epochs h epochs =
      and_then (each step_out (merged_steps (stats_of summaries) [])) (with_steps h epochs)

  unfoldable pub with_hists : Hists → Parsed MergedRun
  unfolding with_epochs each epoch_out sort_epochs epoch_hists stats_of
  with_hists h =
      and_then
        (each (epoch_out (stats_of summaries)) (sort_epochs (epoch_hists (stats_of summaries) [])))
        (with_epochs h)

  -- A histogram that cannot be read ends the call.
  unfoldable pub merge_summaries : Parsed MergedRun
  unfolding with_hists stats_of merged_hists
  merge_summaries =
      and_then (merged_hists (map (λ st. st.histograms) (stats_of summaries))) with_hists

-- `summary_problem`, less its text: whether a report cannot be merged.
unfoldable pub is_problem : ℕ → RunSummary → Bool
unfolding merge_summaries
is_problem now s = elim (merge_summaries now (s ∷ []) []) [
  | parsed merged ↦ false
  | wrong_version ↦ true
  | wrong_layout ↦ true
  | wrong_value ↦ true
]
