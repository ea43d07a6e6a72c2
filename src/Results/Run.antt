-- ===== src/Results/Run.antt =====
-- `RunStats`: the live aggregate over a whole run. The time of the clock is an argument.
use Prim.Native.Nat.{max}
use regulator.Prelude.{
  ℕ, suc, ◌+◌, ◌-◌, Bool, not, Option, none, some, List, [], ◌∷◌, ◌==◌, ltb, leb, if◌then◌else◌,
}
use regulator.Histogram.{LatencyHistogram, empty, record_us}
use regulator.Histogram.Reading.{or_zero}
use regulator.Results.{
  StepRecord, StepStats, Phase, cold, warm, ByClass, is_cancelled, or_client, count_class, suc_if,
  record_if, is_positive, is_job, new_stats, add,
}
use regulator.Results.Interval.{
  IntervalStats, new_interval, add_to_interval, IntervalDocument, document,
}

pub record RunStats : Type 0 where
  pub started_at : ℕ
  pub paused : ℕ
  pub paused_since : Option ℕ
  pub steps : List (ℕ × StepStats)
  pub executions : ℕ
  pub errors : ℕ
  pub errors_by_class : ByClass
  pub overall_latency : LatencyHistogram
  pub failure_latency : LatencyHistogram
  pub max_drift : ℕ
  pub drift : LatencyHistogram
  pub max_loop_lag : ℕ
  pub loop_lag : LatencyHistogram
  pub in_flight : ℕ
  pub peak_in_flight : ℕ
  pub iterations_completed : ℕ
  pub queued_executions : ℕ
  pub queued : LatencyHistogram
  pub job_executions : ℕ
  pub partial : ℕ
  pub abandoned : ℕ
  pub finished_after_end : ℕ
  pub still_running_at_end : ℕ
  pub after_end_run_duration : LatencyHistogram
  pub frozen_at : Option ℕ
  pub interval : IntervalStats
  pub epoch : ℕ
  pub epoch_started_at : Option ℕ
  pub cold_window : Option ℕ
  pub epoch_latency : List (ℕ × LatencyHistogram)
  pub epoch_executions : List (ℕ × ℕ)

unfoldable pub new_run : ℕ → RunStats
new_run now = record {
  started_at = now;
  paused = 0;
  paused_since = none;
  steps = [];
  executions = 0;
  errors = 0;
  errors_by_class = [];
  overall_latency = empty;
  failure_latency = empty;
  max_drift = 0;
  drift = empty;
  max_loop_lag = 0;
  loop_lag = empty;
  in_flight = 0;
  peak_in_flight = 0;
  iterations_completed = 0;
  queued_executions = 0;
  queued = empty;
  job_executions = 0;
  partial = 0;
  abandoned = 0;
  finished_after_end = 0;
  still_running_at_end = 0;
  after_end_run_duration = empty;
  frozen_at = none;
  interval = new_interval now;
  epoch = 0;
  epoch_started_at = none;
  cold_window = none;
  epoch_latency = [];
  epoch_executions = [];
}

-- `set_epoch`
unfoldable pub set_epoch : ℕ → ℕ → RunStats → RunStats
set_epoch epoch started_at s =
    if leb epoch s.epoch then s else record s { epoch = epoch; epoch_started_at = some started_at }

-- `take_interval`: the document, and the run with a fresh interval.
unfoldable pub take_interval : ℕ → RunStats → IntervalDocument × RunStats
unfolding document new_interval
take_interval now s =
    (document now s.in_flight s.epoch s.interval, record s { interval = new_interval now })

-- self.steps.get(record.step_id), a new entry where there is none, and `stats.add`
unfoldable pub add_to_step : StepRecord → Option Phase → List (ℕ × StepStats) → List (ℕ × StepStats)
unfolding add new_stats
add_to_step r phase [] = (r.step_id, add r phase (new_stats r.step_id r.step_class)) ∷ []
add_to_step r phase ((id, stats) ∷ rest) =
    if id == r.step_id
    then (id, add r phase stats) ∷ rest
    else (id, stats) ∷ add_to_step r phase rest

-- record.started_at or time.time()
abbrev started_or : ℕ → ℕ → ℕ
started_or started now = if started == 0 then now else started

-- `record.since_evict_s`; none before the first eviction.
unfoldable pub since_evict : ℕ → Option ℕ → ℕ → ℕ → Option ℕ
since_evict epoch none started now = none
since_evict epoch (some evicted) started now =
    if ltb 0 epoch then some (started_or started now - evicted) else none

-- What `record` writes on the record that it is given.
unfoldable pub stamp : ℕ → RunStats → StepRecord → StepRecord
unfolding since_evict
stamp now s r = record r {
  cache_epoch = s.epoch;
  since_evict = since_evict s.epoch s.epoch_started_at r.started_at now;
}

unfoldable pub phase_of : Option ℕ → Option ℕ → Option Phase
unfolding is_positive or_zero
phase_of window none = none
phase_of window (some since) =
    if is_positive window then some (if leb since (or_zero window) then cold else warm) else none

-- epoch_latency.setdefault(epoch, LatencyHistogram()).record_ms(latency)
unfoldable pub record_epoch : ℕ → ℕ → List (ℕ × LatencyHistogram) → List (ℕ × LatencyHistogram)
record_epoch epoch latency [] = (epoch, record_us latency 1 empty) ∷ []
record_epoch epoch latency ((other, h) ∷ rest) =
    if other == epoch
    then (other, record_us latency 1 h) ∷ rest
    else (other, h) ∷ record_epoch epoch latency rest

unfoldable pub count_epoch : ℕ → List (ℕ × ℕ) → List (ℕ × ℕ)
count_epoch epoch [] = (epoch, 1) ∷ []
count_epoch epoch ((other, n) ∷ rest) =
    if other == epoch then (other, suc n) ∷ rest else (other, n) ∷ count_epoch epoch rest

-- The part of `record` that an eviction has to come before.
abbrev in_epoch {ℓ} : {A : Type ℓ} → Option ℕ → Bool → A → A → A
in_epoch none test x y = y
in_epoch (some since) test x y = if test then x else y

abbrev epoch_part : StepRecord → RunStats → RunStats
epoch_part r s = record s {
  epoch_latency =
      in_epoch r.since_evict r.ok (record_epoch s.epoch r.latency s.epoch_latency) s.epoch_latency;
  epoch_executions =
      in_epoch r.since_evict (not (is_cancelled r.error_class))
        (count_epoch s.epoch s.epoch_executions) s.epoch_executions;
}

-- The rest of `record`, past its step and the interval.
unfoldable pub count_run : StepRecord → RunStats → RunStats
unfolding is_cancelled or_client is_positive is_job or_zero
count_run r s =
    if is_cancelled r.error_class then record s { abandoned = suc s.abandoned } else record s {
      executions = suc s.executions;
      partial = suc_if r.partial s.partial;
      job_executions = suc_if (is_job r) s.job_executions;
      overall_latency = record_if r.ok r.latency s.overall_latency;
      failure_latency = record_if (not r.ok) r.service_time s.failure_latency;
      drift = record_if (not (r.late_by == 0)) r.late_by s.drift;
      max_drift = max s.max_drift r.late_by;
      queued_executions = suc_if (is_positive r.queued) s.queued_executions;
      queued = record_if (is_positive r.queued) (or_zero r.queued) s.queued;
      errors = suc_if (not r.ok) s.errors;
      errors_by_class =
          if r.ok
          then s.errors_by_class
          else count_class (or_client r.error_class) 1 s.errors_by_class;
    }

-- `RunStats.record`
unfoldable pub record_step : ℕ → StepRecord → RunStats → RunStats
unfolding stamp phase_of add_to_step record_epoch count_epoch count_run is_cancelled
record_step now r s =
    let stamped = stamp now s r in
    let phase = phase_of s.cold_window stamped.since_evict in
    let in_step : RunStats = record (epoch_part stamped s) {
      steps = add_to_step stamped phase s.steps;
    } in
    count_run stamped (record in_step { interval = add_to_interval stamped s.interval })

-- `record_loop_lag`
unfoldable pub record_loop_lag : ℕ → RunStats → RunStats
record_loop_lag lag s = if lag == 0 then s else record s {
  loop_lag = record_us lag 1 s.loop_lag;
  interval = record s.interval { loop_lag = record_us lag 1 s.interval.loop_lag };
  max_loop_lag = max s.max_loop_lag lag;
}

abbrev record_duration : Option ℕ → LatencyHistogram → LatencyHistogram
record_duration none h = h
record_duration (some duration) h = record_us duration 1 h

-- `record_after_end`
unfoldable pub record_after_end : Option ℕ → Bool → RunStats → RunStats
record_after_end duration finished s =
    if finished
    then record s {
      finished_after_end = suc s.finished_after_end;
      after_end_run_duration = record_duration duration s.after_end_run_duration;
    }
    else record s { still_running_at_end = suc s.still_running_at_end }

unfoldable pub or_now : Option ℕ → ℕ → ℕ
or_now none now = now
or_now (some time) now = time

-- `freeze`
unfoldable pub freeze : ℕ → RunStats → RunStats
unfolding or_now
freeze now s = record s { frozen_at = some (or_now s.frozen_at now) }

-- `enter` and `leave`
unfoldable pub enter : RunStats → RunStats
enter s = record s {
  in_flight = suc s.in_flight;
  peak_in_flight = max s.peak_in_flight (suc s.in_flight);
}

unfoldable pub leave : RunStats → RunStats
leave s = record s { in_flight = s.in_flight - 1 }

unfoldable pub paused_now : Option ℕ → ℕ → ℕ
paused_now none now = 0
paused_now (some since) now = now - since

-- `elapsed_s`
unfoldable pub elapsed : ℕ → RunStats → ℕ
unfolding or_now paused_now
elapsed now s =
    let now = or_now s.frozen_at now in
    now - s.started_at - (s.paused + paused_now s.paused_since now)
