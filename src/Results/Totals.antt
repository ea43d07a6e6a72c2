-- ===== src/Results/Totals.antt =====
-- A run's aggregate and its interval: the records that they stand for, through every operation.
use mathlib.Core.Path.{subst}
use regulator.Prelude.{
  ℕ, ◌≤◌, ◌≡◌, refl, arith, Bool, not, ◌==◌, ◌&&◌, Option, List, [], ◌∷◌, ◌++◌, ap, sym, ◌∙◌, sum,
}
use regulator.Histogram.Record.{IsSketch, IsSketch-empty}
use regulator.Histogram.Reading.{or_zero}
use regulator.Results.{StepRecord, StepStats, Phase, add, record_if, is_positive, is_job, or_client}
use regulator.Results.Run.{RunStats, new_run, stamp, phase_of, add_to_step, count_run, record_step}
use regulator.Results.Counting.{
  count, pick, count-snoc, IsSketch-snoc, is_done, is_success, is_failure, is_unfinished,
  is_partial, latency_of, service_time_of, class_total, class_total-count_class,
}
use regulator.Results.Steps.{
  AreStepsOf, AreStepsOf-nil, AreStepsOf-add_to_step, executions_of, errors_of, unfinished_of,
  sum-executions_of, sum-errors_of, sum-unfinished_of,
}

-- Searches that could be queued, and those that were.
abbrev pub is_done_job : StepRecord → Bool
is_done_job r = is_done r && is_job r

abbrev pub is_queued : StepRecord → Bool
is_queued r = is_done r && is_positive r.queued

abbrev pub queued_of : StepRecord → ℕ
queued_of r = or_zero r.queued

-- Those that started late.
abbrev pub is_late : StepRecord → Bool
is_late r = is_done r && not (r.late_by == 0)

abbrev pub late_by_of : StepRecord → ℕ
late_by_of r = r.late_by

-- `s` is the aggregate of the records `xs`.
pub record IsRunOf (xs : List StepRecord) (s : RunStats) : Type 0 where
  pub executions : s.executions ≡ count is_done xs
  pub errors : s.errors ≡ count is_failure xs
  pub classes : class_total s.errors_by_class ≡ count is_failure xs
  pub partials : s.partial ≡ count is_partial xs
  pub abandoned : s.abandoned ≡ count is_unfinished xs
  pub jobs : s.job_executions ≡ count is_done_job xs
  pub queued : s.queued_executions ≡ count is_queued xs
  pub times : IsSketch (pick is_success latency_of xs) s.overall_latency
  pub failure_times : IsSketch (pick is_failure service_time_of xs) s.failure_latency
  pub queued_times : IsSketch (pick is_queued queued_of xs) s.queued
  pub drift_times : IsSketch (pick is_late late_by_of xs) s.drift
  pub steps : AreStepsOf xs s.steps
  pub step_executions : sum (executions_of s.steps) ≡ s.executions
  pub step_errors : sum (errors_of s.steps) ≡ s.errors
  pub step_unfinished : sum (unfinished_of s.steps) ≡ s.abandoned
  pub peak : s.in_flight ≤ s.peak_in_flight

pub IsRunOf-new_run : (now : ℕ) → IsRunOf [] (new_run now)
unfolding new_run
IsRunOf-new_run now = record {
  executions = refl;
  errors = refl;
  classes = refl;
  partials = refl;
  abandoned = refl;
  jobs = refl;
  queued = refl;
  times = IsSketch-empty;
  failure_times = IsSketch-empty;
  queued_times = IsSketch-empty;
  drift_times = IsSketch-empty;
  steps = AreStepsOf-nil;
  step_executions = refl;
  step_errors = refl;
  step_unfinished = refl;
  peak = omega arith;
}

-- What the stamp writes is read by no aggregate.
add_to_step-stamp :
    (now : ℕ) (s : RunStats) (r : StepRecord) (phase : Option Phase) (steps : List (ℕ × StepStats))
    → add_to_step (stamp now s r) phase steps ≡ add_to_step r phase steps
unfolding add_to_step stamp add
add_to_step-stamp now s r phase [] = refl
add_to_step-stamp now s r phase ((id, stats) ∷ rest) = rw (add_to_step-stamp now s r phase rest)

module _ (now : ℕ) (r : StepRecord) (s : RunStats) where
  record_step-steps :
      (phase : Option Phase) × ((record_step now r s).steps ≡ add_to_step r phase s.steps)
  unfolding record_step count_run
  record_step-steps =
      let phase = phase_of s.cold_window (stamp now s r).since_evict in
      (phase, ground (arith, add_to_step-stamp now s r phase s.steps))

  record_step-times :
      (record_step now r s).overall_latency ≡ record_if (is_success r) r.latency s.overall_latency
  unfolding record_step count_run stamp
  record_step-times = ground arith

  record_step-failure_times :
      (record_step now r s).failure_latency
      ≡ record_if (is_failure r) r.service_time s.failure_latency
  unfolding record_step count_run stamp
  record_step-failure_times = ground arith

  record_step-queued_times :
      (record_step now r s).queued ≡ record_if (is_queued r) (or_zero r.queued) s.queued
  unfolding record_step count_run stamp
  record_step-queued_times = ground arith

  record_step-drift : (record_step now r s).drift ≡ record_if (is_late r) r.late_by s.drift
  unfolding record_step count_run stamp
  record_step-drift = ground arith

pub IsRunOf-record_step :
    (now : ℕ) (r : StepRecord) (xs : List StepRecord) (s : RunStats)
    → IsRunOf xs s
    → IsRunOf (xs ++ r ∷ []) (record_step now r s)
unfolding record_step count_run stamp
IsRunOf-record_step now r xs s t =
    let (phase, e) = record_step-steps now r s in
    record {
      executions = ground (arith, count-snoc is_done xs r, t.executions);
      errors = ground (arith, count-snoc is_failure xs r, t.errors);
      classes = ground (
        arith,
        count-snoc is_failure xs r,
        t.classes,
        class_total-count_class (or_client r.error_class) 1 s.errors_by_class,
      );
      partials = ground (arith, count-snoc is_partial xs r, t.partials);
      abandoned = ground (arith, count-snoc is_unfinished xs r, t.abandoned);
      jobs = ground (arith, count-snoc is_done_job xs r, t.jobs);
      queued = ground (arith, count-snoc is_queued xs r, t.queued);
      times =
          IsSketch-snoc is_success latency_of xs r s.overall_latency _ t.times
            (record_step-times now r s);
      failure_times =
          IsSketch-snoc is_failure service_time_of xs r s.failure_latency _ t.failure_times
            (record_step-failure_times now r s);
      queued_times =
          IsSketch-snoc is_queued queued_of xs r s.queued _ t.queued_times
            (record_step-queued_times now r s);
      drift_times =
          IsSketch-snoc is_late late_by_of xs r s.drift _ t.drift_times (record_step-drift now r s);
      steps =
          subst (AreStepsOf (xs ++ r ∷ [])) (sym e)
            (AreStepsOf-add_to_step r phase xs s.steps t.steps);
      step_executions =
          ap (λ steps. sum (executions_of steps)) e
          ∙ sum-executions_of r phase s.steps
          ∙ ground (arith, t.step_executions);
      step_errors =
          ap (λ steps. sum (errors_of steps)) e
          ∙ sum-errors_of r phase s.steps
          ∙ ground (arith, t.step_errors);
      step_unfinished =
          ap (λ steps. sum (unfinished_of steps)) e
          ∙ sum-unfinished_of r phase s.steps
          ∙ ground (arith, t.step_unfinished);
      peak = ground (arith, t.peak);
    }
