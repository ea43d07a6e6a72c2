-- ===== src/Compare.antt =====
-- worker/regulator_agent/compare.py: two run summaries, and the verdict of the gates. Numbers are
-- whole numbers of the metric's unit and percentages whole, texts that are only compared are numbers,
-- and a missing key is `none`. What the regular expressions find in a gate is a parameter: their
-- groups. Report texts are left out, their kinds kept.
pub mod Gate
pub mod Steps
pub mod Runs
pub mod Verdict
pub mod Pass
pub mod Self
pub mod Tests
use regulator.Prelude.{ℕ, Bool, true, false, Option, none, some, List, [], ◌∷◌, ◌==◌, if◌then◌else◌}

pub data Metric : Type 0 where
  p50 p90 p95 p99 mean max throughput error_rate executions queued queued_pct drift valid
        dispatch_p95 ttfr_p95 :
      Metric
  other_metric : ℕ → Metric

pub record Latency : Type 0 where
  pub p50_ms : Option ℕ
  pub p90_ms : Option ℕ
  pub p95_ms : Option ℕ
  pub p99_ms : Option ℕ
  pub mean_ms : Option ℕ
  pub max_ms : Option ℕ

pub record Step : Type 0 where
  pub step_id : ℕ
  pub step_class : ℕ
  pub latency : Latency
  pub error_rate_pct : Option ℕ
  pub executions : Option ℕ
  pub errors : Option ℕ
  pub successes : Option ℕ
  pub scan_count_total : Option ℕ
  pub dispatch_p95_ms : Option ℕ
  pub ttfr_p95_ms : Option ℕ

pub record Stats : Type 0 where
  pub steps : List Step
  pub latency : Latency
  pub throughput_per_s : Option ℕ
  pub error_rate_pct : Option ℕ
  pub executions : Option ℕ
  pub searches_queued : Option ℕ
  pub queued_pct : Option ℕ
  pub max_drift_ms : Option ℕ

pub record Summary : Type 0 where
  pub stats : Stats
  pub valid : Option Bool
  pub outcome : Option ℕ
  pub scenario : Option ℕ
  pub scenario_digest : Option ℕ
  pub effective_seed : Option ℕ
  pub scenario_seed : Option ℕ
  pub load_model : Option ℕ
  pub configured_load : Option ℕ
  pub peak_virtual_users : Option ℕ
  pub co_corrected : Option ℕ
  pub cache_provenance : Option ℕ
  pub target_url : Option ℕ

-- summary.get("valid", default)
abbrev pub or_valid : Option Bool → Bool → Bool
or_valid none missing = missing
or_valid (some given) missing = given

-- `_RUN_METRICS`: `none` where the metric is not a latency.
pub latency_metric : Metric → Latency → Option (Option ℕ)
latency_metric p50 l = some l.p50_ms
latency_metric p90 l = some l.p90_ms
latency_metric p95 l = some l.p95_ms
latency_metric p99 l = some l.p99_ms
latency_metric mean l = some l.mean_ms
latency_metric max l = some l.max_ms
latency_metric _ l = none

-- The dictionary of the steps: of equal ids the last one counts.
pub step_of : ℕ → List Step → Option Step
step_of id [] = none
step_of id (s ∷ rest) = elim (step_of id rest) [
  | some later ↦ some later
  | none ↦ if s.step_id == id then some s else none
]

pub other_step_metric : Metric → Step → Option ℕ
other_step_metric error_rate s = s.error_rate_pct
other_step_metric executions s = s.executions
other_step_metric dispatch_p95 s = s.dispatch_p95_ms
other_step_metric ttfr_p95 s = s.ttfr_p95_ms
other_step_metric _ s = none

pub step_metric : Metric → Step → Option ℕ
unfolding latency_metric other_step_metric
step_metric metric s = elim (latency_metric metric s.latency) [
  | some found ↦ found
  | none ↦ other_step_metric metric s
]

pub other_run_metric : Metric → Summary → Option ℕ
other_run_metric throughput s = s.stats.throughput_per_s
other_run_metric error_rate s = s.stats.error_rate_pct
other_run_metric executions s = s.stats.executions
other_run_metric queued s = s.stats.searches_queued
other_run_metric queued_pct s = s.stats.queued_pct
other_run_metric drift s = s.stats.max_drift_ms
other_run_metric valid s = if or_valid s.valid false then some 1 else some 0
other_run_metric _ s = none

pub run_metric : Metric → Summary → Option ℕ
unfolding latency_metric other_run_metric
run_metric metric s = elim (latency_metric metric s.stats.latency) [
  | some found ↦ found
  | none ↦ other_run_metric metric s
]

pub metric_value : Summary → Metric → Option ℕ → Option ℕ
unfolding step_of step_metric run_metric
metric_value summary metric none = run_metric metric summary
metric_value summary metric (some step) = elim (step_of step summary.stats.steps) [
  | none ↦ none
  | some entry ↦ step_metric metric entry
]
