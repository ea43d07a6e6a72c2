-- ===== src/Compare/Steps.antt =====
-- `_step_deltas` and `_workload_warnings`: what differs between two runs.
use Prim.Native.Nat.{min}
use regulator.Prelude.{
  ℕ, ◌-◌, ◌*◌, Bool, true, false, not, ◌&&◌, ◌||◌, Option, none, some, List, [], ◌∷◌, ◌++◌, ltb,
  leb, ◌==◌, if◌then◌else◌,
}
use regulator.Compare.{Step, Summary, step_of}
use regulator.Compare.Gate.{Signed, plus, minus}

-- MIN_SAMPLES
abbrev pub min_samples : ℕ
min_samples = 20

-- The change in milliseconds; in per cent it is 100 times that over `over`.
pub record Change : Type 0 where
  pub delta_ms : Signed
  pub over : ℕ

pub record StepDelta : Type 0 where
  pub step_id : ℕ
  pub step_class : ℕ
  pub baseline_p95_ms : Option ℕ
  pub candidate_p95_ms : Option ℕ
  pub change : Option Change
  pub baseline_executions : ℕ
  pub candidate_executions : ℕ
  pub baseline_scan_count : Option ℕ
  pub candidate_scan_count : Option ℕ
  pub baseline_successes : ℕ
  pub candidate_successes : ℕ

abbrev pub or_0 : Option ℕ → ℕ
or_0 none = 0
or_0 (some n) = n

unfoldable pub less : ℕ → ℕ → Signed
less a b = if leb b a then plus (a - b) else minus (b - a)

unfoldable pub change_of : Option ℕ → Option ℕ → Option Change
unfolding less
change_of none baseline = none
change_of (some candidate) none = none
change_of (some candidate) (some baseline) =
    if baseline == 0
    then none
    else some (record { delta_ms = less candidate baseline; over = baseline })

-- A count of errors is at most the executions, so the subtraction is whole.
abbrev pub successes_of : Step → ℕ
successes_of s = elim s.successes [ some n ↦ n | none ↦ or_0 s.executions - or_0 s.errors ]

abbrev pub p95_of : Option Step → Option ℕ
p95_of none = none
p95_of (some s) = s.latency.p95_ms

abbrev pub executions_of : Option Step → ℕ
executions_of none = 0
executions_of (some s) = or_0 s.executions

abbrev pub scan_of : Option Step → Option ℕ
scan_of none = none
scan_of (some s) = s.scan_count_total

abbrev pub successes_or_0 : Option Step → ℕ
successes_or_0 none = 0
successes_or_0 (some s) = successes_of s

unfoldable pub step_delta : Step → Option Step → StepDelta
unfolding change_of
step_delta step base = record {
  step_id = step.step_id;
  step_class = step.step_class;
  baseline_p95_ms = p95_of base;
  candidate_p95_ms = step.latency.p95_ms;
  change = change_of step.latency.p95_ms (p95_of base);
  baseline_executions = executions_of base;
  candidate_executions = or_0 step.executions;
  baseline_scan_count = scan_of base;
  candidate_scan_count = step.scan_count_total;
  baseline_successes = successes_or_0 base;
  candidate_successes = successes_of step;
}

unfoldable pub deltas_from : List Step → List Step → List StepDelta
unfolding step_delta
deltas_from base_steps [] = []
deltas_from base_steps (step ∷ rest) =
    step_delta step (step_of step.step_id base_steps) ∷ deltas_from base_steps rest

unfoldable pub step_deltas : Summary → Summary → List StepDelta
unfolding deltas_from
step_deltas candidate baseline = deltas_from baseline.stats.steps candidate.stats.steps

-- A quotient, where there is one: `baseline_scan_per_search` and `candidate_scan_per_search`.
unfoldable pub per_search : Option ℕ → ℕ → Option (ℕ × ℕ)
per_search none successes = none
per_search (some scanned) successes =
    if (scanned == 0) || (successes == 0) then none else some (scanned, successes)

-- More by a tenth.
unfoldable pub exceeds : Option (ℕ × ℕ) → Option (ℕ × ℕ) → Bool
exceeds (some (cand, cand_over)) (some (base, base_over)) =
    ltb (base * 11 * cand_over) (cand * 10 * base_over)
exceeds (some cand) none = false
exceeds none base = false

unfoldable pub scanned_more : StepDelta → Bool
unfolding per_search exceeds
scanned_more d =
    exceeds (per_search d.candidate_scan_count d.candidate_successes)
      (per_search d.baseline_scan_count d.baseline_successes)

unfoldable pub too_few_samples : StepDelta → Bool
too_few_samples d = ltb (min d.baseline_successes d.candidate_successes) min_samples

pub data Warning : Type 0 where
  scenarios digests seeds load_models configured_loads concurrency corrections cache_provenances
        targets :
      Warning
  few_samples : List ℕ → Warning

unfoldable pub equal : Option ℕ → Option ℕ → Bool
equal none none = true
equal none (some b) = false
equal (some a) none = false
equal (some a) (some b) = a == b

-- Both are there, and differ.
unfoldable pub both_differ : Option ℕ → Option ℕ → Bool
both_differ (some a) (some b) = not (a == b)
both_differ (some a) none = false
both_differ none b = false

abbrev pub both_there : Option ℕ → Option ℕ → Bool
both_there (some a) (some b) = true
both_there (some a) none = false
both_there none b = false

abbrev pub seed_of : Summary → Option ℕ
seed_of s = elim s.effective_seed [ some seed ↦ some seed | none ↦ s.scenario_seed ]

unfoldable pub warn : Bool → Warning → List Warning
warn b w = if b then w ∷ [] else []

unfoldable pub workload_warnings : Summary → Summary → List Warning
unfolding equal both_differ warn
workload_warnings c b =
    warn (not (equal c.scenario b.scenario)) scenarios
    ++ warn (both_differ c.scenario_digest b.scenario_digest) digests
    ++ warn (not (equal (seed_of c) (seed_of b))) seeds
    ++ warn (not (equal c.load_model b.load_model)) load_models
    ++ warn (both_differ c.configured_load b.configured_load) configured_loads
    ++ warn
        (not (both_there c.configured_load b.configured_load)
          && not (equal c.peak_virtual_users b.peak_virtual_users))
        concurrency
    ++ warn (not (equal c.co_corrected b.co_corrected)) corrections
    ++ warn (both_differ c.cache_provenance b.cache_provenance) cache_provenances
    ++ warn (not (equal c.target_url b.target_url)) targets
