-- ===== src/Fleet/Summaries/Whole.antt =====
-- The merge of the final reports of workers that recorded their runs by `RunStats`.
use mathlib.Core.Path.{subst}
use regulator.Prelude.{
  ℕ, ◌+◌, ◌≡◌, refl, arith, Bool, true, false, some, List, [], ◌∷◌, map, ap, ◌∙◌, sym, sum, concat,
  present,
}
use regulator.Histogram.{LatencyHistogram}
use regulator.Histogram.Record.{IsSketch}
use regulator.Histogram.Reading.{or_zero, summary}
use regulator.Histogram.Document.{
  Parsed, parsed, wrong_version, wrong_layout, wrong_value, to_dict, merge_dicts, and_then,
}
use regulator.Histogram.Percentile.{summary-agree}
use regulator.Histogram.Wire.{AreSketches, merge_dicts-concat}
use regulator.Results.{StepRecord, StepStats}
use regulator.Results.Run.{RunStats}
use regulator.Results.Snapshot.{Stats, StepDocument, Histograms, snapshot, histograms, step_summary}
use regulator.Results.Counting.{
  count, pick, count-append, pick-concat, is_done, is_success, is_failure, is_unfinished,
  is_partial, latency_of, class_total,
}
use regulator.Results.Classes.{class_total-merge_classes}
use regulator.Results.Totals.{IsRunOf, is_queued, is_done_job}
use regulator.Results.Steps.{executions_of}
use regulator.Fleet.Summaries.Steps.{hist}
use regulator.Fleet.Summaries.Reports.{RunSummary, MergedRun, Hists}
use regulator.Fleet.Summaries.Merge.{
  model_of, merge_summaries, stats_of, merged_hists, other_hists, merged_run, merged_stats, total,
  total_jobs,
}
use regulator.Fleet.Summaries.Readable.{is_parsed}
use regulator.Fleet.Summaries.Success.{is_parsed-merge}
use regulator.Fleet.Summaries.Counts.{
  Holds, and_then-Holds, merge_summaries-IsMerged, merge_summaries-steps, entry_executions,
  executions_in_report,
}
use regulator.Fleet.Summaries.Shipped.{IsReportOf, AreReportsOf, reports-fit}

-- The overall latencies of the workers.
record AreLatencies (xss : List (List StepRecord)) (ss : List RunSummary) : Type 0 where
  hs : List LatencyHistogram
  shipped :
      present (map (λ h. h.latency) (map (λ st. st.histograms) (stats_of ss))) ≡ map to_dict hs
  sketches : AreSketches (map (pick is_success latency_of) xss) hs

IsReportOf-latency :
    (xs : List StepRecord) (s : RunSummary) (t : IsReportOf xs s)
    → s.stats.histograms.latency ≡ some (to_dict t.run.overall_latency)
unfolding snapshot histograms
IsReportOf-latency xs s t = ap (λ (st : Stats). st.histograms.latency) t.shipped

AreReportsOf-AreLatencies :
    (xss : List (List StepRecord)) (ss : List RunSummary)
    → AreReportsOf xss ss
    → AreLatencies xss ss
unfolding stats_of
AreReportsOf-AreLatencies [] [] a = record { hs = []; shipped = refl; sketches = tt }
AreReportsOf-AreLatencies [] (s ∷ ss) a = elim a [ ]
AreReportsOf-AreLatencies (xs ∷ xss) [] a = elim a [ ]
AreReportsOf-AreLatencies (xs ∷ xss) (s ∷ ss) (t, a) =
    let rest = AreReportsOf-AreLatencies xss ss a in
    record {
      hs = t.run.overall_latency ∷ rest.hs;
      shipped = rw (IsReportOf-latency xs s t, rest.shipped) refl;
      sketches = (t.recorded.times, rest.sketches);
    }

other_hists-Holds :
    (hists : List Histograms) (g : LatencyHistogram)
    → Holds (λ h. h.latency ≡ summary g) (other_hists hists g)
unfolding other_hists
other_hists-Holds hists g = and_then-Holds _ (hist (map (λ h. h.failure_latency) hists)) _ λ a.
    and_then-Holds _ (hist (map (λ h. h.queued) hists)) _ λ b.
      and_then-Holds _ (hist (map (λ h. h.loop_lag) hists)) _ λ c.
        and_then-Holds _ (hist (map (λ h. h.drift) hists)) _ λ d.
          and_then-Holds (λ h. h.latency ≡ summary g)
            (hist (map (λ h. h.after_end_run_duration) hists)) _ λ e. refl

merged_hists-latency :
    (hists : List Histograms) (g : LatencyHistogram) (m : Hists)
    → hist (map (λ h. h.latency) hists) ≡ parsed g
    → merged_hists hists ≡ parsed m
    → m.latency ≡ summary g
unfolding merged_hists
merged_hists-latency hists g m e h =
    subst (Holds (λ m. m.latency ≡ summary g))
      (sym (ap (λ (p : Parsed LatencyHistogram). and_then p (other_hists hists)) e) ∙ h)
      (other_hists-Holds hists g)

sum_reports :
    (f : Stats → ℕ) (p : StepRecord → Bool)
    → ((now : ℕ) (xs : List StepRecord) (run : RunStats)
        → IsRunOf xs run
        → f (snapshot now run) ≡ count p xs)
    → (xss : List (List StepRecord)) (ss : List RunSummary) → AreReportsOf xss ss
    → sum (map f (stats_of ss)) ≡ count p (concat xss)
unfolding stats_of
sum_reports f p same [] [] a = refl
sum_reports f p same [] (s ∷ ss) a = elim a [ ]
sum_reports f p same (xs ∷ xss) [] a = elim a [ ]
sum_reports f p same (xs ∷ xss) (s ∷ ss) (t, a) = omega (
  arith,
  ap f t.shipped,
  same t.ended xs t.run t.recorded,
  sum_reports f p same xss ss a,
  count-append p xs (concat xss),
)

is_parsed-some : {A : Type 0} (p : Parsed A) → is_parsed p ≡ true → (a : A) × (p ≡ parsed a)
is_parsed-some (parsed a) h = (a, refl)
is_parsed-some wrong_version h = cc
is_parsed-some wrong_layout h = cc
is_parsed-some wrong_value h = cc

-- `m` is the report of all the records `xs`.
pub record IsWholeOf (xs : List StepRecord) (m : MergedRun) : Type 0 where
  pub executions : m.stats.executions ≡ count is_done xs
  pub errors : m.stats.errors ≡ count is_failure xs
  pub partials : m.stats.partial ≡ count is_partial xs
  pub abandoned : m.stats.abandoned ≡ count is_unfinished xs
  pub queued : m.stats.searches_queued ≡ count is_queued xs
  pub jobs : m.stats.job_executions ≡ count is_done_job xs
  pub classes : class_total m.stats.errors_by_class ≡ count is_failure xs
  pub steps : entry_executions (map (λ o. o.entry) m.stats.steps) ≡ count is_done xs
  pub latency :
      (h : LatencyHistogram)
      → IsSketch (pick is_success latency_of xs) h
      → m.stats.latency ≡ summary h

count_none : (xs : List StepRecord) → count (λ r. false) xs ≡ 0
count_none [] = refl
count_none (x ∷ xs) = omega (arith, count_none xs)

sum-map :
    {A B : Type 0} (f : B → ℕ) (g : A → B) (xs : List A)
    → sum (map f (map g xs)) ≡ sum (map (λ x. f (g x)) xs)
sum-map f g [] = refl
sum-map f g (x ∷ xs) = ap (λ n. f (g x) + n) (sum-map f g xs)

executions_in_snapshot :
    (steps : List (ℕ × StepStats))
    → sum (
        map
          (λ (step : StepDocument). or_zero step.executions)
          (map (λ (id, stats). step_summary stats) steps))
      ≡ sum (executions_of steps)
unfolding step_summary or_zero
executions_in_snapshot [] = refl
executions_in_snapshot ((id, s) ∷ rest) = omega (arith, executions_in_snapshot rest)

merged_latency :
    (ss : List RunSummary) (hs : List LatencyHistogram) (g : LatencyHistogram)
    → present (map (λ h. h.latency) (map (λ st. st.histograms) (stats_of ss))) ≡ map to_dict hs
    → merge_dicts (map to_dict hs) ≡ parsed g
    → hist (map (λ h. h.latency) (map (λ st. st.histograms) (stats_of ss))) ≡ parsed g
unfolding hist
merged_latency ss hs g p e = ap merge_dicts p ∙ e

-- A worker ships its count of searches with the queueing figures, and no other.
jobs_of_reports :
    (xss : List (List StepRecord)) (ss : List RunSummary)
    → AreReportsOf xss ss
    → total_jobs (stats_of ss) ≡ count is_done_job (concat xss)
unfolding total_jobs total snapshot or_zero
jobs_of_reports xss ss a =
    let other : sum (map (λ st. or_zero st.job_executions) (stats_of ss))
        ≡ count (λ r. false) (concat xss) =
      sum_reports (λ st. or_zero st.job_executions) (λ r. false) (λ n xs r i. sym (count_none xs))
        xss ss a in
    let jobs : sum (map (λ st. or_zero st.queueing_jobs) (stats_of ss))
        ≡ count is_done_job (concat xss) =
      sum_reports (λ st. or_zero st.queueing_jobs) is_done_job (λ n xs r i. i.jobs) xss ss a in
    rw (other, count_none (concat xss)) jobs

classes_of_reports :
    (xss : List (List StepRecord)) (ss : List RunSummary)
    → AreReportsOf xss ss
    → sum (map class_total (map (λ st. st.errors_by_class) (stats_of ss)))
      ≡ count is_failure (concat xss)
unfolding snapshot
classes_of_reports xss ss a =
    sum-map class_total (λ st. st.errors_by_class) (stats_of ss)
    ∙ sum_reports (λ st. class_total st.errors_by_class) is_failure (λ n xs r i. i.classes) xss ss a

merged-IsWholeOf :
    (now : ℕ) (xss : List (List StepRecord)) (ss : List RunSummary) (lost : List ℕ) (m : MergedRun)
    → AreReportsOf xss ss
    → merge_summaries now ss lost ≡ parsed m
    → IsWholeOf (concat xss) m
unfolding merged_run merged_stats total snapshot or_zero
merged-IsWholeOf now xss ss lost m a h =
    let t = merge_summaries-IsMerged now ss lost m h in
    let shipped = AreReportsOf-AreLatencies xss ss a in
    let (g, e, s) = merge_dicts-concat _ shipped.hs shipped.sketches in
    let latency =
      merged_hists-latency _ g t.hists (merged_latency ss shipped.hs g shipped.shipped e)
        t.hists_parsed in
    record {
      executions =
          ap (λ r. r.stats.executions) t.whole
          ∙ sum_reports (λ st. or_zero st.executions) is_done (λ n xs r i. i.executions) xss ss a;
      errors =
          ap (λ r. r.stats.errors) t.whole
          ∙ sum_reports (λ st. or_zero st.errors) is_failure (λ n xs r i. i.errors) xss ss a;
      partials =
          ap (λ r. r.stats.partial) t.whole
          ∙ sum_reports (λ st. or_zero st.partial) is_partial (λ n xs r i. i.partials) xss ss a;
      abandoned =
          ap (λ r. r.stats.abandoned) t.whole
          ∙ sum_reports (λ st. or_zero st.abandoned) is_unfinished (λ n xs r i. i.abandoned) xss ss
              a;
      queued =
          ap (λ r. r.stats.searches_queued) t.whole
          ∙ sum_reports (λ st. or_zero st.searches_queued) is_queued (λ n xs r i. i.queued) xss ss
              a;
      jobs = ap (λ r. r.stats.job_executions) t.whole ∙ jobs_of_reports xss ss a;
      classes =
          ap (λ r. class_total r.stats.errors_by_class) t.whole
          ∙ class_total-merge_classes (map (λ st. st.errors_by_class) (stats_of ss))
          ∙ classes_of_reports xss ss a;
      steps =
          merge_summaries-steps now ss lost m h
          ∙ sum_reports executions_in_report is_done
              (λ n xs r i. executions_in_snapshot r.steps ∙ i.step_executions ∙ i.executions) xss ss
              a;
      latency = λ k sk.
          ap (λ r. r.stats.latency) t.whole
          ∙ latency
          ∙ summary-agree _ g k
              (subst (λ zs. IsSketch zs g) (sym (pick-concat is_success latency_of xss)) s) sk;
    }

-- The final reports of any number of workers, each of a run recorded by `RunStats`, are merged without
-- an error, whichever other slots are lost; the merged counts of executions, errors, their classes in
-- all, partial, abandoned and queued searches and jobs are those of all the workers' records together,
-- its steps add up to its executions, and its latency figures are those of one histogram that
-- had recorded every successful execution of the fleet.
pub merge_summaries-IsWholeOf :
    (now : ℕ) (xss : List (List StepRecord)) (ss : List RunSummary) (lost : List ℕ)
    → AreReportsOf xss ss
    → (m : MergedRun) × (merge_summaries now ss lost ≡ parsed m) × IsWholeOf (concat xss) m
merge_summaries-IsWholeOf now xss ss lost a =
    let (m, h) =
      is_parsed-some (merge_summaries now ss lost)
        (is_parsed-merge now ss lost ∙ reports-fit (model_of ss) xss ss a) in
    (m, h, merged-IsWholeOf now xss ss lost m a h)
