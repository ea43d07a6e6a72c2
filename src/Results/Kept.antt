-- ===== src/Results/Kept.antt =====
-- The operations of `RunStats` that leave the totals alone.
use mathlib.Core.Path.{subst}
use regulator.Prelude.{◌≤◌, ◌≡◌, none, List, [], sum}
use regulator.Histogram.Record.{IsSketch}
use regulator.Results.{StepRecord}
use regulator.Results.Interval.{new_interval}
use regulator.Results.Run.{RunStats}
use regulator.Results.Counting.{
  count, class_total, is_done, is_failure, is_partial, is_unfinished, is_success, pick, latency_of,
  service_time_of,
}
use regulator.Results.Steps.{AreStepsOf, executions_of, errors_of, unfinished_of}
use regulator.Results.Totals.{is_done_job, is_queued, queued_of, is_late, late_by_of, IsRunOf}

-- The figures that stand for the records: what the other operations leave alone.
abbrev pub totals_of : RunStats → RunStats
totals_of s = record s {
  started_at = 0;
  paused = 0;
  paused_since = none;
  max_drift = 0;
  max_loop_lag = 0;
  loop_lag = s.overall_latency;
  in_flight = 0;
  peak_in_flight = 0;
  iterations_completed = 0;
  finished_after_end = 0;
  still_running_at_end = 0;
  after_end_run_duration = s.overall_latency;
  frozen_at = none;
  interval = new_interval 0;
  epoch = 0;
  epoch_started_at = none;
  cold_window = none;
  epoch_latency = [];
  epoch_executions = [];
}

pub IsRunOf-kept :
    (xs : List StepRecord) (s s' : RunStats)
    → totals_of s ≡ totals_of s'
    → s'.in_flight ≤ s'.peak_in_flight
    → IsRunOf xs s
    → IsRunOf xs s'
IsRunOf-kept xs s s' e peak t = record {
  executions = subst (λ k. k.executions ≡ count is_done xs) e t.executions;
  errors = subst (λ k. k.errors ≡ count is_failure xs) e t.errors;
  classes = subst (λ k. class_total k.errors_by_class ≡ count is_failure xs) e t.classes;
  partials = subst (λ k. k.partial ≡ count is_partial xs) e t.partials;
  abandoned = subst (λ k. k.abandoned ≡ count is_unfinished xs) e t.abandoned;
  jobs = subst (λ k. k.job_executions ≡ count is_done_job xs) e t.jobs;
  queued = subst (λ k. k.queued_executions ≡ count is_queued xs) e t.queued;
  times = subst (λ k. IsSketch (pick is_success latency_of xs) k.overall_latency) e t.times;
  failure_times =
      subst (λ k. IsSketch (pick is_failure service_time_of xs) k.failure_latency) e
        t.failure_times;
  queued_times = subst (λ k. IsSketch (pick is_queued queued_of xs) k.queued) e t.queued_times;
  drift_times = subst (λ k. IsSketch (pick is_late late_by_of xs) k.drift) e t.drift_times;
  steps = subst (λ k. AreStepsOf xs k.steps) e t.steps;
  step_executions = subst (λ k. sum (executions_of k.steps) ≡ k.executions) e t.step_executions;
  step_errors = subst (λ k. sum (errors_of k.steps) ≡ k.errors) e t.step_errors;
  step_unfinished = subst (λ k. sum (unfinished_of k.steps) ≡ k.abandoned) e t.step_unfinished;
  peak = peak;
}
