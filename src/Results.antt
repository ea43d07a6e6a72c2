-- ===== src/Results.antt =====
-- worker/regulator_agent/results.py: what a step execution produces, and the aggregates that it goes
-- to. Latencies are whole microseconds, the times of the clock whole milliseconds; a step is known by
-- its number. Fields of a record that no aggregate reads are left out.
mod Tests
pub mod Interval
pub mod Run
pub mod Counting
pub mod Classes
pub mod Steps
pub mod Totals
pub mod Taken
pub mod Merging
pub mod Kept
pub mod Actions
pub mod Live
pub mod Snapshot
use regulator.Prelude.{
  ℕ, suc, ◌+◌, ◌-◌, Bool, true, false, ◌&&◌, not, Option, none, some, List, [], ◌∷◌, ◌==◌,
  if◌then◌else◌,
}
use regulator.Histogram.{LatencyHistogram, empty, record_us}
use regulator.Histogram.Reading.{or_zero, Summary, summary}
use regulator.Histogram.Document.{Document, to_dict}

-- The error taxonomy.
pub data ErrorClass : Type 0 where
  auth timeout quota parse server client cancelled search_failed : ErrorClass

pub data StepType : Type 0 where
  search dashboard : StepType

pub record StepRecord : Type 0 where
  pub step_id : ℕ
  pub step_class : ℕ
  pub step_type : StepType
  pub started_at : ℕ
  pub latency : ℕ
  pub service_time : ℕ
  pub late_by : ℕ
  pub dispatch : Option ℕ
  pub ttfr : Option ℕ
  pub queued : Option ℕ
  pub has_sid : Bool
  pub run_duration : Option ℕ
  pub cache_epoch : ℕ
  pub since_evict : Option ℕ
  pub scan_count : Option ℕ
  pub result_count : Option ℕ
  pub ok : Bool
  pub error_class : Option ErrorClass
  pub partial : Bool

unfoldable pub code : ErrorClass → ℕ
code auth = 0
code timeout = 1
code quota = 2
code parse = 3
code server = 4
code client = 5
code cancelled = 6
code search_failed = 7

-- record.error_class == ERROR_CANCELLED
unfoldable pub is_cancelled : Option ErrorClass → Bool
is_cancelled none = false
is_cancelled (some cancelled) = true
is_cancelled (some _) = false

-- record.error_class or ERROR_CLIENT
unfoldable pub or_client : Option ErrorClass → ErrorClass
or_client none = client
or_client (some error) = error

abbrev pub ByClass : Type 0
ByClass = List (ErrorClass × ℕ)

-- errors_by_class[cls] = errors_by_class.get(cls, 0) + n
unfoldable pub count_class : ErrorClass → ℕ → ByClass → ByClass
unfolding code
count_class error n [] = (error, n) ∷ []
count_class error n ((other, m) ∷ rest) =
    if code other == code error
    then (other, m + n) ∷ rest
    else (other, m) ∷ count_class error n rest

abbrev pub suc_if : Bool → ℕ → ℕ
suc_if test n = if test then suc n else n

abbrev pub record_if : Bool → ℕ → LatencyHistogram → LatencyHistogram
record_if test value h = if test then record_us value 1 h else h

abbrev pub record_some : Option ℕ → LatencyHistogram → LatencyHistogram
record_some none h = h
record_some (some value) h = record_us value 1 h

-- A text or a number that is there and is not zero.
unfoldable pub is_positive : Option ℕ → Bool
is_positive none = false
is_positive (some n) = not (n == 0)

unfoldable pub is_search : StepType → Bool
is_search search = true
is_search dashboard = false

-- A search that was dispatched as a job, and could have been queued.
unfoldable pub is_job : StepRecord → Bool
unfolding is_search
is_job r = r.ok && r.has_sid && is_search r.step_type

-- The two parts of a run that cycles its cache.
pub data Phase : Type 0 where
  cold warm : Phase

unfoldable pub is_cold : Option Phase → Bool
is_cold (some cold) = true
is_cold (some warm) = false
is_cold none = false

unfoldable pub is_warm : Option Phase → Bool
is_warm (some warm) = true
is_warm (some cold) = false
is_warm none = false

pub record StepStats : Type 0 where
  pub step_id : ℕ
  pub step_class : ℕ
  pub executions : ℕ
  pub errors : ℕ
  pub latency : LatencyHistogram
  pub service_time : LatencyHistogram
  pub dispatch : LatencyHistogram
  pub ttfr : LatencyHistogram
  pub failure_latency : LatencyHistogram
  pub scan_count_total : ℕ
  pub result_count_total : ℕ
  pub run_duration_total : ℕ
  pub errors_by_class : ByClass
  pub partial : ℕ
  pub unfinished : ℕ
  pub latency_cold : LatencyHistogram
  pub latency_warm : LatencyHistogram

unfoldable pub new_stats : ℕ → ℕ → StepStats
new_stats step_id step_class = record {
  step_id = step_id;
  step_class = step_class;
  executions = 0;
  errors = 0;
  latency = empty;
  service_time = empty;
  dispatch = empty;
  ttfr = empty;
  failure_latency = empty;
  scan_count_total = 0;
  result_count_total = 0;
  run_duration_total = 0;
  errors_by_class = [];
  partial = 0;
  unfinished = 0;
  latency_cold = empty;
  latency_warm = empty;
}

-- `StepStats.add`
unfoldable pub add : StepRecord → Option Phase → StepStats → StepStats
unfolding is_cancelled or_client is_cold is_warm or_zero
add r phase s =
    if is_cancelled r.error_class then record s { unfinished = suc s.unfinished } else record s {
      executions = suc s.executions;
      partial = suc_if r.partial s.partial;
      latency_cold = record_if (r.ok && is_cold phase) r.latency s.latency_cold;
      latency_warm = record_if (r.ok && is_warm phase) r.latency s.latency_warm;
      latency = record_if r.ok r.latency s.latency;
      service_time = record_if r.ok r.service_time s.service_time;
      dispatch = if r.ok then record_some r.dispatch s.dispatch else s.dispatch;
      ttfr = if r.ok then record_some r.ttfr s.ttfr else s.ttfr;
      failure_latency = record_if (not r.ok) r.service_time s.failure_latency;
      scan_count_total =
          if r.ok then s.scan_count_total + or_zero r.scan_count else s.scan_count_total;
      result_count_total =
          if r.ok then s.result_count_total + or_zero r.result_count else s.result_count_total;
      run_duration_total =
          if r.ok then s.run_duration_total + or_zero r.run_duration else s.run_duration_total;
      errors = suc_if (not r.ok) s.errors;
      errors_by_class =
          if r.ok
          then s.errors_by_class
          else count_class (or_client r.error_class) 1 s.errors_by_class;
    }

-- `StepStats.histograms`
pub record StepHistograms : Type 0 where
  pub latency : Option Document
  pub service_time : Option Document
  pub dispatch : Option Document
  pub ttfr : Option Document
  pub failure_latency : Option Document
  pub latency_cold : Option Document
  pub latency_warm : Option Document

unfoldable pub step_histograms : StepStats → StepHistograms
unfolding to_dict
step_histograms s = record {
  latency = some (to_dict s.latency);
  service_time = some (to_dict s.service_time);
  dispatch = some (to_dict s.dispatch);
  ttfr = some (to_dict s.ttfr);
  failure_latency = some (to_dict s.failure_latency);
  latency_cold = some (to_dict s.latency_cold);
  latency_warm = some (to_dict s.latency_warm);
}

-- `StepStats.successes`, an int in Python: see `errors-le-executions` for why it never falls below 0.
unfoldable pub successes : StepStats → ℕ
successes s = s.executions - s.errors
