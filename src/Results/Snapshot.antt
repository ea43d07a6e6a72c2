-- ===== src/Results/Snapshot.antt =====
-- What a worker ships of its aggregate: `RunStats.snapshot` with its histograms, and `StepStats.summary`.
-- A key that another build may leave out is an option. Rates, means and percentiles, which no reader
-- merges, are left out.
use regulator.Prelude.{ℕ, Option, none, some, List, [], ◌∷◌, map, ◌==◌, if◌then◌else◌}
use regulator.Histogram.Document.{Document, to_dict}
use regulator.Results.{ByClass, StepStats, StepHistograms, step_histograms, successes}
use regulator.Results.Run.{RunStats, elapsed}

-- `StepStats.summary`
pub record StepDocument : Type 0 where
  pub step_id : ℕ
  pub step_class : Option ℕ
  pub executions : Option ℕ
  pub successes : Option ℕ
  pub partial : Option ℕ
  pub unfinished : Option ℕ
  pub errors : Option ℕ
  pub errors_by_class : ByClass
  pub scan_count_total : Option ℕ
  pub result_count_total : Option ℕ

-- `RunStats.histograms`
pub record Histograms : Type 0 where
  pub latency : Option Document
  pub failure_latency : Option Document
  pub queued : Option Document
  pub loop_lag : Option Document
  pub drift : Option Document
  pub after_end_run_duration : Option Document
  pub steps : List (ℕ × StepHistograms)
  pub epochs : List (ℕ × Document)

-- `RunStats.snapshot(include_histograms=True)`
pub record Stats : Type 0 where
  pub elapsed : Option ℕ
  pub executions : Option ℕ
  pub iterations_completed : Option ℕ
  pub errors : Option ℕ
  pub errors_by_class : ByClass
  pub partial : Option ℕ
  pub abandoned : Option ℕ
  pub finished_after_end : Option ℕ
  pub still_running : Option ℕ
  pub in_flight : Option ℕ
  pub peak_in_flight : Option ℕ
  pub searches_queued : Option ℕ
  pub queueing_jobs : Option ℕ
  pub job_executions : Option ℕ
  pub max_loop_lag : Option ℕ
  pub max_schedule_debt : Option ℕ
  pub steps : List StepDocument
  pub epochs : List (ℕ × Option ℕ)
  pub arrivals_missed : Option ℕ
  pub arrivals_shed : Option ℕ
  pub arrivals_skipped : Option ℕ
  pub histograms : Histograms

unfoldable pub step_summary : StepStats → StepDocument
unfolding successes
step_summary s = record {
  step_id = s.step_id;
  step_class = some s.step_class;
  executions = some s.executions;
  successes = some (successes s);
  partial = some s.partial;
  unfinished = some s.unfinished;
  errors = some s.errors;
  errors_by_class = s.errors_by_class;
  scan_count_total = some s.scan_count_total;
  result_count_total = some s.result_count_total;
}

unfoldable pub histograms : RunStats → Histograms
unfolding to_dict step_histograms
histograms s = record {
  latency = some (to_dict s.overall_latency);
  failure_latency = some (to_dict s.failure_latency);
  queued = some (to_dict s.queued);
  loop_lag = some (to_dict s.loop_lag);
  drift = some (to_dict s.drift);
  after_end_run_duration = some (to_dict s.after_end_run_duration);
  steps = map (λ (id, stats). (id, step_histograms stats)) s.steps;
  epochs = map (λ (epoch, h). (epoch, to_dict h)) s.epoch_latency;
}

-- self.epoch_executions.get(epoch, 0)
unfoldable pub executions_at : ℕ → List (ℕ × ℕ) → ℕ
executions_at epoch [] = 0
executions_at epoch ((other, n) ∷ rest) = if other == epoch then n else executions_at epoch rest

unfoldable pub snapshot : ℕ → RunStats → Stats
unfolding step_summary histograms elapsed executions_at
snapshot now s = record {
  elapsed = some (elapsed now s);
  executions = some s.executions;
  iterations_completed = some s.iterations_completed;
  errors = some s.errors;
  errors_by_class = s.errors_by_class;
  partial = some s.partial;
  abandoned = some s.abandoned;
  finished_after_end = some s.finished_after_end;
  still_running = some s.still_running_at_end;
  in_flight = some s.in_flight;
  peak_in_flight = some s.peak_in_flight;
  searches_queued = some s.queued_executions;
  queueing_jobs = some s.job_executions;
  job_executions = none;
  max_loop_lag = some s.max_loop_lag;
  max_schedule_debt = some s.max_drift;
  steps = map (λ (id, stats). step_summary stats) s.steps;
  epochs =
      map (λ (epoch, h). (epoch, some (executions_at epoch s.epoch_executions))) s.epoch_latency;
  arrivals_missed = none;
  arrivals_shed = none;
  arrivals_skipped = none;
  histograms = histograms s;
}
