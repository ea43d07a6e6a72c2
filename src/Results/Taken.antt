-- ===== src/Results/Taken.antt =====
-- The intervals that a run is sampled in, and their merge.
use mathlib.Core.Path.{subst}
use regulator.Prelude.{ℕ, ◌≡◌, refl, arith, some, List, [], ◌∷◌, ◌++◌, sym, sum}
use regulator.Histogram.{LatencyHistogram, record_us}
use regulator.Histogram.Record.{IsSketch, IsSketch-empty, IsSketch-record_us}
use regulator.Histogram.Reading.{or_zero}
use regulator.Histogram.Document.{to_dict}
use regulator.Results.{StepRecord, record_if}
use regulator.Results.Interval.{
  IntervalStats, IntervalDocument, new_interval, add_to_interval, document,
}
use regulator.Results.Counting.{
  count, pick, count-snoc, sum-pick-snoc, IsSketch-snoc, is_done, is_success, is_failure,
  latency_of,
}
use regulator.Results.Totals.{is_done_job, is_queued, queued_of}

abbrev pub scan_of : StepRecord → ℕ
scan_of r = or_zero r.scan_count

-- `i` is the interval of the records `xs`.
pub record IsIntervalOf (xs : List StepRecord) (i : IntervalStats) : Type 0 where
  pub executions : i.executions ≡ count is_done xs
  pub errors : i.errors ≡ count is_failure xs
  pub jobs : i.job_executions ≡ count is_done_job xs
  pub queued : i.queued ≡ count is_queued xs
  pub scanned : i.scan_count ≡ sum (pick is_done scan_of xs)
  pub times : IsSketch (pick is_success latency_of xs) i.latency
  pub queued_times : IsSketch (pick is_queued queued_of xs) i.queued_ms
  pub lags : List ℕ
  pub lag_times : IsSketch lags i.loop_lag

pub IsIntervalOf-new_interval : (now : ℕ) → IsIntervalOf [] (new_interval now)
unfolding new_interval
IsIntervalOf-new_interval now = record {
  executions = refl;
  errors = refl;
  jobs = refl;
  queued = refl;
  scanned = refl;
  times = IsSketch-empty;
  queued_times = IsSketch-empty;
  lags = [];
  lag_times = IsSketch-empty;
}

module _ (r : StepRecord) (i : IntervalStats) where
  add_to_interval-times :
      (add_to_interval r i).latency ≡ record_if (is_success r) r.latency i.latency
  unfolding add_to_interval
  add_to_interval-times = ground arith

  add_to_interval-queued_times :
      (add_to_interval r i).queued_ms ≡ record_if (is_queued r) (or_zero r.queued) i.queued_ms
  unfolding add_to_interval
  add_to_interval-queued_times = ground arith

  add_to_interval-loop_lag : (add_to_interval r i).loop_lag ≡ i.loop_lag
  unfolding add_to_interval
  add_to_interval-loop_lag = ground arith

pub IsIntervalOf-add_to_interval :
    (r : StepRecord) (xs : List StepRecord) (i : IntervalStats)
    → IsIntervalOf xs i
    → IsIntervalOf (xs ++ r ∷ []) (add_to_interval r i)
unfolding add_to_interval
IsIntervalOf-add_to_interval r xs i t = record {
  executions = ground (arith, count-snoc is_done xs r, t.executions);
  errors = ground (arith, count-snoc is_failure xs r, t.errors);
  jobs = ground (arith, count-snoc is_done_job xs r, t.jobs);
  queued = ground (arith, count-snoc is_queued xs r, t.queued);
  scanned = ground (arith, sum-pick-snoc is_done scan_of xs r, t.scanned);
  times = IsSketch-snoc is_success latency_of xs r i.latency _ t.times (add_to_interval-times r i);
  queued_times =
      IsSketch-snoc is_queued queued_of xs r i.queued_ms _ t.queued_times
        (add_to_interval-queued_times r i);
  lags = t.lags;
  lag_times = subst (IsSketch t.lags) (sym (add_to_interval-loop_lag r i)) t.lag_times;
}

-- The lag of the loop, which `record_loop_lag` adds to the interval.
pub IsIntervalOf-lag :
    (lag : ℕ) (xs : List StepRecord) (i : IntervalStats)
    → IsIntervalOf xs i
    → IsIntervalOf xs (record i { loop_lag = record_us lag 1 i.loop_lag })
IsIntervalOf-lag lag xs i t = record {
  executions = t.executions;
  errors = t.errors;
  jobs = t.jobs;
  queued = t.queued;
  scanned = t.scanned;
  times = t.times;
  queued_times = t.queued_times;
  lags = lag ∷ t.lags;
  lag_times = IsSketch-record_us lag 1 t.lags i.loop_lag t.lag_times;
}

-- `d` is the document of an interval of the records `xs`.
pub record IsDocumentOf (xs : List StepRecord) (d : IntervalDocument) : Type 0 where
  pub executions : d.executions ≡ count is_done xs
  pub errors : d.errors ≡ count is_failure xs
  pub jobs : d.job_executions ≡ count is_done_job xs
  pub queued : d.queued ≡ count is_queued xs
  pub scanned : d.scan_count ≡ sum (pick is_done scan_of xs)
  pub latency : LatencyHistogram
  pub queued_ms : LatencyHistogram
  pub loop_lag : LatencyHistogram
  pub lags : List ℕ
  pub times : IsSketch (pick is_success latency_of xs) latency
  pub queued_times : IsSketch (pick is_queued queued_of xs) queued_ms
  pub lag_times : IsSketch lags loop_lag
  pub shipped :
      d.buckets
      ≡ some (record {
        latency = some (to_dict latency);
        queued = some (to_dict queued_ms);
        loop_lag = some (to_dict loop_lag);
      })

pub document-IsDocumentOf :
    (now in_flight epoch : ℕ) (xs : List StepRecord) (i : IntervalStats)
    → IsIntervalOf xs i
    → IsDocumentOf xs (document now in_flight epoch i)
unfolding document
document-IsDocumentOf now in_flight epoch xs i t = record {
  executions = t.executions;
  errors = t.errors;
  jobs = t.jobs;
  queued = t.queued;
  scanned = t.scanned;
  latency = i.latency;
  queued_ms = i.queued_ms;
  loop_lag = i.loop_lag;
  lags = t.lags;
  times = t.times;
  queued_times = t.queued_times;
  lag_times = t.lag_times;
  shipped = refl;
}

-- Each document is that of its batch of records.
abbrev pub AreDocumentsOf : List (List StepRecord) → List IntervalDocument → Type 0
AreDocumentsOf [] [] = Unit
AreDocumentsOf (xs ∷ xss) (d ∷ ds) = IsDocumentOf xs d × AreDocumentsOf xss ds
AreDocumentsOf _ _ = ⊥
