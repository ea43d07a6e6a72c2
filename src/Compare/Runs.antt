-- ===== src/Compare/Runs.antt =====
-- `compare_runs`.
use regulator.Prelude.{
  ℕ, Bool, true, false, not, ◌&&◌, Option, none, some, List, [], ◌∷◌, ◌++◌, all, if◌then◌else◌,
}
use regulator.Compare.{Summary, or_valid}
use regulator.Compare.Gate.{Expression, Gate, GateResult, Result, fail, good, parse_gate, evaluate}
use regulator.Compare.Steps.{
  StepDelta, Warning, few_samples, step_deltas, workload_warnings, too_few_samples,
}

pub record Headline : Type 0 where
  pub scenario : Option ℕ
  pub outcome : Option ℕ
  pub valid : Option Bool
  pub executions : Option ℕ
  pub p95_ms : Option ℕ
  pub throughput_per_s : Option ℕ
  pub error_rate_pct : Option ℕ
  pub queued : Option ℕ
  pub cache_provenance : Option ℕ
  pub co_corrected : Option ℕ
  pub peak_virtual_users : Option ℕ

unfoldable pub headline : Summary → Headline
headline s = record {
  scenario = s.scenario;
  outcome = s.outcome;
  valid = s.valid;
  executions = s.stats.executions;
  p95_ms = s.stats.latency.p95_ms;
  throughput_per_s = s.stats.throughput_per_s;
  error_rate_pct = s.stats.error_rate_pct;
  queued = s.stats.searches_queued;
  cache_provenance = s.cache_provenance;
  co_corrected = s.co_corrected;
  peak_virtual_users = s.peak_virtual_users;
}

pub data Blocked : Type 0 where
  invalid_candidate invalid_baseline : Blocked

-- The summary is the candidate's headline and the baseline's, `none` where the comparison is blocked.
pub record Comparison : Type 0 where
  pub ok : Bool
  pub blocked : Option Blocked
  pub warnings : List Warning
  pub gates : List GateResult
  pub steps : List StepDelta
  pub summary : Option (Headline × Option Headline)

-- The first gate that cannot be parsed ends the parsing.
unfoldable pub and_gates : Result Gate → Result (List Gate) → Result (List Gate)
and_gates (fail why) rest = fail why
and_gates (good gate) (fail why) = fail why
and_gates (good gate) (good gates) = good (gate ∷ gates)

unfoldable pub parse_all : List Expression → Result (List Gate)
unfolding and_gates
parse_all [] = good []
parse_all (e ∷ rest) = and_gates (parse_gate e) (parse_all rest)

unfoldable pub evaluate_all : List Gate → Summary → Option Summary → List GateResult
evaluate_all [] candidate baseline = []
evaluate_all (g ∷ gs) candidate baseline =
    evaluate g candidate baseline ∷ evaluate_all gs candidate baseline

unfoldable pub few_steps : List StepDelta → List ℕ
few_steps [] = []
few_steps (d ∷ ds) = let rest = few_steps ds in if too_few_samples d then d.step_id ∷ rest else rest

abbrev pub few_warning : List ℕ → List Warning
few_warning [] = []
few_warning (id ∷ ids) = few_samples (id ∷ ids) ∷ []

abbrev pub steps_against : Summary → Option Summary → List StepDelta
steps_against candidate none = []
steps_against candidate (some baseline) = step_deltas candidate baseline

abbrev pub warnings_against : Summary → Option Summary → List Warning
warnings_against candidate none = []
warnings_against candidate (some baseline) = workload_warnings candidate baseline

abbrev pub invalid : Option Summary → Bool
invalid none = false
invalid (some s) = not (or_valid s.valid true)

abbrev pub headline_of : Option Summary → Option Headline
headline_of none = none
headline_of (some s) = some (headline s)

abbrev pub blocked_by : Blocked → Comparison
blocked_by why = record {
  ok = false;
  blocked = some why;
  warnings = [];
  gates = [];
  steps = [];
  summary = none;
}

unfoldable pub judge : Summary → Option Summary → List Gate → Comparison
unfolding evaluate_all few_steps headline
judge candidate baseline parsed =
    let steps : List StepDelta = steps_against candidate baseline in
    let results : List GateResult = evaluate_all parsed candidate baseline in
    record {
      ok = all (λ g. g.passed) results;
      blocked = none;
      warnings = warnings_against candidate baseline ++ few_warning (few_steps steps);
      gates = results;
      steps = steps;
      summary = some (headline candidate, headline_of baseline);
    }

unfoldable pub compare_parsed : Summary → Option Summary → Bool → List Gate → Comparison
unfolding judge
compare_parsed candidate baseline allow_invalid parsed =
    if invalid (some candidate) && not allow_invalid
    then blocked_by invalid_candidate
    else if invalid baseline && not allow_invalid
    then blocked_by invalid_baseline
    else judge candidate baseline parsed

abbrev pub then_compare : (List Gate → Comparison) → Result (List Gate) → Result Comparison
then_compare f (fail why) = fail why
then_compare f (good parsed) = good (f parsed)

unfoldable pub compare_runs : Summary → Option Summary → List Expression → Bool → Result Comparison
unfolding parse_all compare_parsed
compare_runs candidate baseline gates allow_invalid =
    then_compare (compare_parsed candidate baseline allow_invalid) (parse_all gates)
