-- ===== src/Results/Merging.antt =====
-- `merge_intervals`: one interval from many workers' intervals.
use mathlib.Core.Path.{subst}
use regulator.Prelude.{
  ℕ, ◌≡◌, refl, arith, Bool, true, Option, some, List, [], ◌∷◌, ap, sym, ◌∙◌, sum, map, concat,
}
use regulator.Histogram.{LatencyHistogram}
use regulator.Histogram.Record.{IsSketch}
use regulator.Histogram.Document.{parsed, to_dict, merge_dicts, Document}
use regulator.Histogram.Percentile.{percentile_us-agree}
use regulator.Histogram.Wire.{AreSketches, merge_dicts-concat}
use regulator.Results.{StepRecord}
use regulator.Results.Interval.{
  IntervalDocument, IntervalBuckets, Merged, merge_intervals, percentile_or_none, percentiles_of,
  is_nonempty, bucket, documents, merged_of,
}
use regulator.Results.Counting.{
  count, pick, count_concat, pick-concat, is_done, is_success, is_failure, latency_of,
}
use regulator.Results.Totals.{is_done_job, is_queued, queued_of}
use regulator.Results.Taken.{IsDocumentOf, AreDocumentsOf}

-- The documents of one histogram, and the samples of each.
record AreShipped (f : IntervalBuckets → Option Document) (zss : List (List ℕ))
    (ds : List IntervalDocument) : Type 0 where
  hs : List LatencyHistogram
  shipped : documents f ds ≡ map to_dict hs
  sketches : AreSketches zss hs

AreShipped-cons :
    (f : IntervalBuckets → Option Document) (zs : List ℕ) (zss : List (List ℕ))
    (d : IntervalDocument) (ds : List IntervalDocument) (h : LatencyHistogram)
    → bucket f d ≡ some (to_dict h)
    → IsSketch zs h
    → AreShipped f zss ds
    → AreShipped f (zs ∷ zss) (d ∷ ds)
AreShipped-cons f zs zss d ds h e s rest = record {
  hs = h ∷ rest.hs;
  shipped = rw e (ap (λ (xs : List Document). to_dict h ∷ xs) rest.shipped);
  sketches = (s, rest.sketches);
}

AreShipped-nil : (f : IntervalBuckets → Option Document) → AreShipped f [] []
AreShipped-nil f = record { hs = []; shipped = refl; sketches = tt }

-- What a list of documents ships, one histogram after the other.
record AreAllShipped (xss : List (List StepRecord)) (ds : List IntervalDocument) : Type 0 where
  lags : List (List ℕ)
  times : AreShipped (λ b. b.latency) (map (pick is_success latency_of) xss) ds
  queued_times : AreShipped (λ b. b.queued) (map (pick is_queued queued_of) xss) ds
  lag_times : AreShipped (λ b. b.loop_lag) lags ds

module _ (xs : List StepRecord) (d : IntervalDocument) (t : IsDocumentOf xs d) where
  bucket-latency : bucket (λ b. b.latency) d ≡ some (to_dict t.latency)
  bucket-latency = rw t.shipped refl

  bucket-queued : bucket (λ b. b.queued) d ≡ some (to_dict t.queued_ms)
  bucket-queued = rw t.shipped refl

  bucket-loop_lag : bucket (λ b. b.loop_lag) d ≡ some (to_dict t.loop_lag)
  bucket-loop_lag = rw t.shipped refl

AreDocumentsOf-AreAllShipped :
    (xss : List (List StepRecord)) (ds : List IntervalDocument)
    → AreDocumentsOf xss ds
    → AreAllShipped xss ds
AreDocumentsOf-AreAllShipped [] [] a = record {
  lags = [];
  times = AreShipped-nil _;
  queued_times = AreShipped-nil _;
  lag_times = AreShipped-nil _;
}
AreDocumentsOf-AreAllShipped [] (d ∷ ds) a = elim a [ ]
AreDocumentsOf-AreAllShipped (xs ∷ xss) [] a = elim a [ ]
AreDocumentsOf-AreAllShipped (xs ∷ xss) (d ∷ ds) (t, a) =
    let rest = AreDocumentsOf-AreAllShipped xss ds a in
    record {
      lags = t.lags ∷ rest.lags;
      times = AreShipped-cons _ _ _ d ds t.latency (bucket-latency xs d t) t.times rest.times;
      queued_times =
          AreShipped-cons _ _ _ d ds t.queued_ms (bucket-queued xs d t) t.queued_times
            rest.queued_times;
      lag_times =
          AreShipped-cons _ _ _ d ds t.loop_lag (bucket-loop_lag xs d t) t.lag_times rest.lag_times;
    }

-- The merge of what was shipped is a sketch of all the samples.
AreShipped-merged :
    (f : IntervalBuckets → Option Document) (zss : List (List ℕ)) (ds : List IntervalDocument)
    → AreShipped f zss ds
    → (g : LatencyHistogram) × (merge_dicts (documents f ds) ≡ parsed g) × IsSketch (concat zss) g
AreShipped-merged f zss ds a =
    let (g, e, s) = merge_dicts-concat zss a.hs a.sketches in (g, ap merge_dicts a.shipped ∙ e, s)

sum_documents :
    (f : IntervalDocument → ℕ) (g : List StepRecord → ℕ)
    → ((xs : List StepRecord) (d : IntervalDocument) → IsDocumentOf xs d → f d ≡ g xs)
    → (xss : List (List StepRecord)) (ds : List IntervalDocument) → AreDocumentsOf xss ds
    → sum (map f ds) ≡ sum (map g xss)
sum_documents f g same [] [] a = refl
sum_documents f g same [] (d ∷ ds) a = elim a [ ]
sum_documents f g same (xs ∷ xss) [] a = elim a [ ]
sum_documents f g same (xs ∷ xss) (d ∷ ds) (t, a) =
    omega (arith, same xs d t, sum_documents f g same xss ds a)

percentile_or_none-agree :
    (p : ℕ) (xs : List ℕ) (h g : LatencyHistogram)
    → IsSketch xs h
    → IsSketch xs g
    → percentile_or_none p h ≡ percentile_or_none p g
unfolding percentile_or_none
percentile_or_none-agree p xs h g s t =
    ground (arith, percentile_us-agree p xs h g s t, s.counted, t.counted)

-- `m` is the interval of all the records `xs`: its counts are theirs, and its latency percentiles are
-- those of any sketch of their latencies.
pub record IsMergeOf (xs : List StepRecord) (m : Merged) : Type 0 where
  pub executions : m.executions ≡ count is_done xs
  pub errors : m.errors ≡ count is_failure xs
  pub jobs : m.job_executions ≡ count is_done_job xs
  pub queued : m.queued ≡ count is_queued xs
  pub p50 :
      (h : LatencyHistogram)
      → IsSketch (pick is_success latency_of xs) h
      → m.percentiles.p50 ≡ percentile_or_none 50 h
  pub p95 :
      (h : LatencyHistogram)
      → IsSketch (pick is_success latency_of xs) h
      → m.percentiles.p95 ≡ percentile_or_none 95 h
  pub p99 :
      (h : LatencyHistogram)
      → IsSketch (pick is_success latency_of xs) h
      → m.percentiles.p99 ≡ percentile_or_none 99 h
  pub queued_p95 :
      (h : LatencyHistogram)
      → IsSketch (pick is_queued queued_of xs) h
      → m.percentiles.queued_p95 ≡ percentile_or_none 95 h

nonempty_documents :
    (xs : List StepRecord) (xss : List (List StepRecord)) (d : IntervalDocument)
    (ds : List IntervalDocument)
    → IsDocumentOf xs d
    → is_nonempty (documents (λ b. b.latency) (d ∷ ds)) ≡ true
unfolding is_nonempty
nonempty_documents xs xss d ds t = rw (bucket-latency xs d t) refl

module _ (xss : List (List StepRecord)) (ds : List IntervalDocument)
    (a : AreDocumentsOf xss ds) where
  sum_counts :
      (f : IntervalDocument → ℕ) (p : StepRecord → Bool)
      → ((xs : List StepRecord) (d : IntervalDocument) → IsDocumentOf xs d → f d ≡ count p xs)
      → sum (map f ds) ≡ count p (concat xss)
  sum_counts f p same = sum_documents f (count p) same xss ds a ∙ sym (count_concat p xss)

  -- With a sketch of all the latencies and one of all the queueing times at hand.
  merged_of-IsMergeOf :
      (now : ℕ) (latency queued loop_lag : LatencyHistogram)
      → is_nonempty (documents (λ b. b.latency) ds) ≡ true
      → IsSketch (concat (map (pick is_success latency_of) xss)) latency
      → IsSketch (concat (map (pick is_queued queued_of) xss)) queued
      → IsMergeOf (concat xss) (merged_of now ds latency queued loop_lag)
  unfolding merged_of percentiles_of
  merged_of-IsMergeOf now latency queued loop_lag n s q =
      let s' = subst (λ zs. IsSketch zs latency) (sym (pick-concat is_success latency_of xss)) s in
      let q' = subst (λ zs. IsSketch zs queued) (sym (pick-concat is_queued queued_of xss)) q in
      record {
        executions = sum_counts (λ d. d.executions) is_done (λ xs d t. t.executions);
        errors = sum_counts (λ d. d.errors) is_failure (λ xs d t. t.errors);
        jobs = sum_counts (λ d. d.job_executions) is_done_job (λ xs d t. t.jobs);
        queued = sum_counts (λ d. d.queued) is_queued (λ xs d t. t.queued);
        p50 = λ h g. rw n (percentile_or_none-agree 50 _ latency h s' g);
        p95 = λ h g. rw n (percentile_or_none-agree 95 _ latency h s' g);
        p99 = λ h g. rw n (percentile_or_none-agree 99 _ latency h s' g);
        queued_p95 = λ h g. rw n (percentile_or_none-agree 95 _ queued h q' g);
      }

-- For one interval or more, from one worker or from many, that are the documents of their batches of
-- records, the merge succeeds: the counts are those of all the records together, and the latency and
-- queueing percentiles are those of one histogram that had recorded them all.
pub merge_intervals-IsMergeOf :
    (now : ℕ) (xs : List StepRecord) (xss : List (List StepRecord)) (d : IntervalDocument)
    (ds : List IntervalDocument)
    → IsDocumentOf xs d
    → AreDocumentsOf xss ds
    → (m : Merged) × (merge_intervals now (d ∷ ds) ≡ parsed m) × IsMergeOf (concat (xs ∷ xss)) m
unfolding merge_intervals
merge_intervals-IsMergeOf now xs xss d ds t a =
    let all = AreDocumentsOf-AreAllShipped (xs ∷ xss) (d ∷ ds) (t, a) in
    let (latency, e, s) = AreShipped-merged _ _ _ all.times in
    let (queued, e', s') = AreShipped-merged _ _ _ all.queued_times in
    let (loop_lag, e'', s'') = AreShipped-merged _ _ _ all.lag_times in
    (
      merged_of now (d ∷ ds) latency queued loop_lag,
      rw (e, e', e'') refl,
      merged_of-IsMergeOf (xs ∷ xss) (d ∷ ds) (t, a) now latency queued loop_lag
          (nonempty_documents xs xss d ds t) s s',
    )
