-- ===== src/Compare/Tests.antt =====
-- Comparisons of small runs, and the theorems at them.
use regulator.Prelude.{ℕ, ◌≡◌, refl, true, false, none, some, [], ◌∷◌, length}
use regulator.Compare.{
  p95, Latency, Step, Summary, step_of, latency_metric, run_metric, metric_value,
}
use regulator.Compare.Gate.{
  Gate, le, percent, plus, baseline_and, matched, no_unit, fail, good, parse_threshold, parse_gate,
  evaluate, plain,
}
use regulator.Compare.Steps.{step_deltas, too_few_samples, workload_warnings}
use regulator.Compare.Runs.{Comparison, compare_runs, parse_all, headline}
use regulator.Compare.Verdict.{IsVerdict, compare_runs-IsVerdict}
use regulator.Compare.Pass.{IsPass, evaluate-IsPass}

abbrev latency : ℕ → Latency
latency n = record {
  p50_ms = some 5;
  p90_ms = some n;
  p95_ms = some n;
  p99_ms = some n;
  mean_ms = none;
  max_ms = some n;
}

abbrev step : ℕ → Step
step n = record {
  step_id = 1;
  step_class = 0;
  latency = latency n;
  error_rate_pct = some 0;
  executions = some 30;
  errors = some 1;
  successes = none;
  scan_count_total = some 600;
  dispatch_p95_ms = some 2;
  ttfr_p95_ms = none;
}

abbrev run : ℕ → Summary
run n = record {
  stats = record {
    steps = step n ∷ [];
    latency = latency n;
    throughput_per_s = some 3;
    error_rate_pct = some 0;
    executions = some 30;
    searches_queued = some 0;
    queued_pct = some 0;
    max_drift_ms = some 4;
  };
  valid = some true;
  outcome = some 1;
  scenario = some 1;
  scenario_digest = some 7;
  effective_seed = none;
  scenario_seed = some 3;
  load_model = some 1;
  configured_load = none;
  peak_virtual_users = some 8;
  co_corrected = some 0;
  cache_provenance = none;
  target_url = some 2;
}

-- p95 <= baseline + 15%
abbrev gate : Gate
gate = record (plain p95 le none) { relative_pct = some (plus 15) }

program : Unit {0}
unfolding latency_metric run_metric metric_value parse_threshold parse_gate evaluate step_deltas
    too_few_samples compare_runs workload_warnings parse_all step_of
program = tt

parsed :
    parse_gate (matched p95 none (some (le, baseline_and (plus 15) (some percent)))) ≡ good gate
unfolding program
parsed = refl

no_unit_given :
    parse_gate (matched p95 none (some (le, baseline_and (plus 200) none))) ≡ fail no_unit
unfolding program
no_unit_given = refl

found : (n : ℕ) → metric_value (run n) p95 none ≡ some n
unfolding program
found n = refl

-- 114 is within 15 per cent of 100, 116 is not.
within : (evaluate gate (run 114) (some (run 100))).passed ≡ true
unfolding program
within = refl

beyond : (evaluate gate (run 116) (some (run 100))).passed ≡ false
unfolding program
beyond = refl

abbrev one_gate : Comparison
one_gate = record {
  ok = true;
  blocked = none;
  warnings = [];
  gates = evaluate gate (run 110) (some (run 100)) ∷ [];
  steps = step_deltas (run 110) (run 100);
  summary = some (headline (run 110), some (headline (run 100)));
}

compared :
    compare_runs
      (run 110)
      (some (run 100))
      (matched p95 none (some (le, baseline_and (plus 15) (some percent))) ∷ [])
      false
    ≡ good one_gate
unfolding program
compared = refl

compare_runs-IsVerdict_example :
    IsVerdict one_gate × (one_gate.blocked ≡ none → length one_gate.gates ≡ 1)
compare_runs-IsVerdict_example =
    compare_runs-IsVerdict (run 110) (some (run 100))
      (matched p95 none (some (le, baseline_and (plus 15) (some percent))) ∷ []) false compared

evaluate-IsPass_example :
    IsPass gate (run 114) (some (run 100)) (evaluate gate (run 114) (some (run 100)))
evaluate-IsPass_example = evaluate-IsPass gate (run 114) (some (run 100)) within
