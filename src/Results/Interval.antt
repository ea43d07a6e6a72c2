-- ===== src/Results/Interval.antt =====
-- `IntervalStats`: what happened since the last sample, its document, and `merge_intervals`.
use regulator.Prelude.{
  ℕ, present, max_of, min_of, suc, ◌+◌, ◌-◌, Bool, true, false, not, Option, none, some, List, [],
  ◌∷◌, map, ◌==◌, ltb, if◌then◌else◌, sum,
}
use regulator.Histogram.{LatencyHistogram, empty}
use regulator.Histogram.Reading.{or_zero, percentile_us}
use regulator.Histogram.Document.{Document, Parsed, parsed, and_then, to_dict, merge_dicts}
use regulator.Results.{
  StepRecord, ByClass, is_cancelled, or_client, count_class, suc_if, record_if, is_positive, is_job,
}

pub record IntervalStats : Type 0 where
  pub started_at : ℕ
  pub executions : ℕ
  pub errors : ℕ
  pub queued : ℕ
  pub job_executions : ℕ
  pub scan_count : ℕ
  pub errors_by_class : ByClass
  pub latency : LatencyHistogram
  pub failure_latency : LatencyHistogram
  pub queued_ms : LatencyHistogram
  pub loop_lag : LatencyHistogram

-- `reset`
unfoldable pub new_interval : ℕ → IntervalStats
new_interval now = record {
  started_at = now;
  executions = 0;
  errors = 0;
  queued = 0;
  job_executions = 0;
  scan_count = 0;
  errors_by_class = [];
  latency = empty;
  failure_latency = empty;
  queued_ms = empty;
  loop_lag = empty;
}

-- `IntervalStats.add`
unfoldable pub add_to_interval : StepRecord → IntervalStats → IntervalStats
unfolding is_cancelled or_client is_positive is_job or_zero
add_to_interval r i = if is_cancelled r.error_class then i else record i {
  executions = suc i.executions;
  latency = record_if r.ok r.latency i.latency;
  errors = suc_if (not r.ok) i.errors;
  failure_latency = record_if (not r.ok) r.service_time i.failure_latency;
  errors_by_class =
      if r.ok then i.errors_by_class else count_class (or_client r.error_class) 1 i.errors_by_class;
  job_executions = suc_if (is_job r) i.job_executions;
  queued = suc_if (is_positive r.queued) i.queued;
  queued_ms = record_if (is_positive r.queued) (or_zero r.queued) i.queued_ms;
  scan_count = i.scan_count + or_zero r.scan_count;
}

pub record IntervalBuckets : Type 0 where
  pub latency : Option Document
  pub queued : Option Document
  pub loop_lag : Option Document

-- The percentiles, in half microseconds; none where nothing was counted.
pub record Percentiles : Type 0 where
  pub p50 : Option ℕ
  pub p95 : Option ℕ
  pub p99 : Option ℕ
  pub queued_p95 : Option ℕ
  pub loop_lag_p95 : Option ℕ

-- The document of `IntervalStats.summary`, and of `take_interval` around it. The rates, which the
-- counts and the seconds determine, are left out, and so is the maximum.
pub record IntervalDocument : Type 0 where
  pub since : Option ℕ
  pub duration : ℕ
  pub executions : ℕ
  pub errors : ℕ
  pub errors_by_class : ByClass
  pub queued : ℕ
  pub job_executions : ℕ
  pub scan_count : ℕ
  pub in_flight : ℕ
  pub cache_epoch : ℕ
  pub percentiles : Percentiles
  pub buckets : Option IntervalBuckets

-- h.percentile_ms(p) if len(h) else None
unfoldable pub percentile_or_none : ℕ → LatencyHistogram → Option ℕ
unfolding percentile_us
percentile_or_none p h = if h.count == 0 then none else some (percentile_us p h)

unfoldable pub percentiles_of : LatencyHistogram → LatencyHistogram → LatencyHistogram → Percentiles
unfolding percentile_or_none
percentiles_of latency queued loop_lag = record {
  p50 = percentile_or_none 50 latency;
  p95 = percentile_or_none 95 latency;
  p99 = percentile_or_none 99 latency;
  queued_p95 = percentile_or_none 95 queued;
  loop_lag_p95 = percentile_or_none 95 loop_lag;
}

-- `take_interval`'s document, with its buckets.
unfoldable pub document : ℕ → ℕ → ℕ → IntervalStats → IntervalDocument
unfolding percentiles_of to_dict
document now in_flight epoch i = record {
  since = some i.started_at;
  duration = now - i.started_at;
  executions = i.executions;
  errors = i.errors;
  errors_by_class = i.errors_by_class;
  queued = i.queued;
  job_executions = i.job_executions;
  scan_count = i.scan_count;
  in_flight = in_flight;
  cache_epoch = epoch;
  percentiles = percentiles_of i.latency i.queued_ms i.loop_lag;
  buckets = some (record {
    latency = some (to_dict i.latency);
    queued = some (to_dict i.queued_ms);
    loop_lag = some (to_dict i.loop_lag);
  });
}

unfoldable pub add_classes : ByClass → ByClass → ByClass
unfolding count_class
add_classes into [] = into
add_classes into ((error, n) ∷ rest) = add_classes (count_class error n into) rest

unfoldable pub merge_classes : ByClass → List ByClass → ByClass
unfolding add_classes
merge_classes into [] = into
merge_classes into (by_class ∷ rest) = merge_classes (add_classes into by_class) rest

abbrev pub bucket {ℓ} : {A : Type ℓ} → (IntervalBuckets → Option A) → IntervalDocument → Option A
bucket f d = elim d.buckets [ none ↦ none | some b ↦ f b ]

abbrev pub documents : (IntervalBuckets → Option Document) → List IntervalDocument → List Document
documents f ds = present (map (bucket f) ds)

unfoldable pub times : List IntervalDocument → List ℕ
unfolding is_positive or_zero
times [] = []
times (d ∷ ds) = if is_positive d.since then or_zero d.since ∷ times ds else times ds

-- max(documents, key=executions): the first of those with the most.
unfoldable pub busiest : IntervalDocument → List IntervalDocument → IntervalDocument
busiest best [] = best
busiest best (d ∷ ds) = busiest (if ltb best.executions d.executions then d else best) ds

unfoldable pub no_percentiles : Percentiles
no_percentiles = record {
  p50 = none;
  p95 = none;
  p99 = none;
  queued_p95 = none;
  loop_lag_p95 = none;
}

unfoldable pub busiest_percentiles : List IntervalDocument → Percentiles
unfolding busiest no_percentiles
busiest_percentiles [] = no_percentiles
busiest_percentiles (d ∷ ds) = (busiest d ds).percentiles

unfoldable pub is_nonempty {ℓ} : {A : Type ℓ} → List A → Bool
is_nonempty [] = false
is_nonempty (x ∷ xs) = true

pub record Merged : Type 0 where
  pub since : ℕ
  pub duration : ℕ
  pub executions : ℕ
  pub errors : ℕ
  pub queued : ℕ
  pub job_executions : ℕ
  pub scan_count : ℕ
  pub in_flight : ℕ
  pub errors_by_class : ByClass
  pub percentiles : Percentiles

unfoldable pub or_time : Option ℕ → ℕ → ℕ
or_time none now = now
or_time (some time) now = time

-- The merged interval, past the reading of the histograms.
unfoldable pub merged_of :
    ℕ → List IntervalDocument → LatencyHistogram → LatencyHistogram → LatencyHistogram → Merged
unfolding merge_classes max_of min_of times busiest_percentiles is_nonempty or_time percentiles_of
merged_of now ds latency queued loop_lag = record {
  since = or_time (min_of (times ds)) now;
  duration = max_of (map (λ d. d.duration) ds);
  executions = sum (map (λ d. d.executions) ds);
  errors = sum (map (λ d. d.errors) ds);
  queued = sum (map (λ d. d.queued) ds);
  job_executions = sum (map (λ d. d.job_executions) ds);
  scan_count = sum (map (λ d. d.scan_count) ds);
  in_flight = sum (map (λ d. d.in_flight) ds);
  errors_by_class = merge_classes [] (map (λ d. d.errors_by_class) ds);
  percentiles =
      if is_nonempty (documents (λ b. b.latency) ds)
      then percentiles_of latency queued loop_lag
      else busiest_percentiles ds;
}

-- `merge_intervals`; a document that a histogram cannot be read from ends the call.
unfoldable pub merge_intervals : ℕ → List IntervalDocument → Parsed Merged
unfolding merge_dicts merged_of
merge_intervals now ds = and_then (merge_dicts (documents (λ b. b.latency) ds)) λ latency.
    and_then (merge_dicts (documents (λ b. b.queued) ds)) λ queued.
      and_then (merge_dicts (documents (λ b. b.loop_lag) ds))
        λ loop_lag. parsed (merged_of now ds latency queued loop_lag)
