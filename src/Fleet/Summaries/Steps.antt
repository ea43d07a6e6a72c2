-- ===== src/Fleet/Summaries/Steps.antt =====
-- Steps and cache epochs, grouped by their keys over all the workers' reports.
use regulator.Prelude.{
  ℕ, ◌+◌, Option, none, some, List, [], ◌∷◌, ◌++◌, map, ◌==◌, leb, if◌then◌else◌, present,
}
use regulator.Histogram.{LatencyHistogram}
use regulator.Histogram.Reading.{or_zero, Summary, summary}
use regulator.Histogram.Document.{Document, Parsed, parsed, and_then, merge_dicts}
use regulator.Results.{ByClass, StepHistograms}
use regulator.Results.Interval.{add_classes}
use regulator.Results.Snapshot.{Stats, StepDocument}

-- `_hist`
unfoldable pub hist : List (Option Document) → Parsed LatencyHistogram
unfolding merge_dicts
hist documents = merge_dicts (present documents)

-- One entry of `merged_steps`, with the step's histograms of `step_hists`. The mean of events per
-- second, which is worked out in floating point, is left out.
pub record Entry : Type 0 where
  pub step_id : ℕ
  pub step_class : Option ℕ
  pub executions : ℕ
  pub successes : ℕ
  pub partial : ℕ
  pub unfinished : ℕ
  pub errors : ℕ
  pub errors_by_class : ByClass
  pub scan_count_total : ℕ
  pub result_count_total : ℕ
  pub parts : List StepHistograms

unfoldable pub new_entry : ℕ → Option ℕ → Entry
new_entry step_id step_class = record {
  step_id = step_id;
  step_class = step_class;
  executions = 0;
  successes = 0;
  partial = 0;
  unfinished = 0;
  errors = 0;
  errors_by_class = [];
  scan_count_total = 0;
  result_count_total = 0;
  parts = [];
}

unfoldable pub add_counts : StepDocument → StepHistograms → Entry → Entry
unfolding or_zero add_classes
add_counts step part e = record e {
  executions = e.executions + or_zero step.executions;
  successes = e.successes + or_zero step.successes;
  partial = e.partial + or_zero step.partial;
  unfinished = e.unfinished + or_zero step.unfinished;
  errors = e.errors + or_zero step.errors;
  errors_by_class = add_classes e.errors_by_class step.errors_by_class;
  scan_count_total = e.scan_count_total + or_zero step.scan_count_total;
  result_count_total = e.result_count_total + or_zero step.result_count_total;
  parts = e.parts ++ part ∷ [];
}

-- merged_steps.setdefault(sid, …) and what is added to it.
unfoldable pub add_entry : StepDocument → StepHistograms → List Entry → List Entry
unfolding add_counts new_entry
add_entry step part [] = add_counts step part (new_entry step.step_id step.step_class) ∷ []
add_entry step part (e ∷ rest) =
    if e.step_id == step.step_id
    then add_counts step part e ∷ rest
    else e ∷ add_entry step part rest

unfoldable pub no_parts : StepHistograms
no_parts = record {
  latency = none;
  service_time = none;
  dispatch = none;
  ttfr = none;
  failure_latency = none;
  latency_cold = none;
  latency_warm = none;
}

-- (h.get("steps") or {}).get(sid) or {}
unfoldable pub parts_of : ℕ → List (ℕ × StepHistograms) → StepHistograms
unfolding no_parts
parts_of id [] = no_parts
parts_of id ((other, part) ∷ rest) = if other == id then part else parts_of id rest

unfoldable pub add_steps : List (ℕ × StepHistograms) → List StepDocument → List Entry → List Entry
unfolding add_entry parts_of
add_steps shipped [] entries = entries
add_steps shipped (step ∷ rest) entries =
    add_steps shipped rest (add_entry step (parts_of step.step_id shipped) entries)

-- The loop over the reports.
unfoldable pub merged_steps : List Stats → List Entry → List Entry
unfolding add_steps
merged_steps [] entries = entries
merged_steps (st ∷ rest) entries =
    merged_steps rest (add_steps st.histograms.steps st.steps entries)

-- A step of the merged report.
pub record StepOut : Type 0 where
  pub entry : Entry
  pub latency : Summary
  pub cold : Option Summary
  pub warm : Option Summary
  pub failure_latency : Summary
  pub service_time : Summary
  pub dispatch : Summary
  pub ttfr : Summary

-- h.summary() if len(h) else None
unfoldable pub summary_or_none : LatencyHistogram → Option Summary
unfolding summary
summary_or_none h = if h.count == 0 then none else some (summary h)

unfoldable pub step_out : Entry → Parsed StepOut
unfolding hist summary summary_or_none
step_out e = and_then (hist (map (λ p. p.latency) e.parts)) λ latency.
    and_then (hist (map (λ p. p.latency_cold) e.parts)) λ cold.
      and_then (hist (map (λ p. p.latency_warm) e.parts)) λ warm.
        and_then (hist (map (λ p. p.failure_latency) e.parts)) λ failure.
          and_then (hist (map (λ p. p.service_time) e.parts)) λ service.
            and_then (hist (map (λ p. p.dispatch) e.parts)) λ dispatch.
              and_then (hist (map (λ p. p.ttfr) e.parts)) λ ttfr. parsed (record {
                entry = e;
                latency = summary latency;
                cold = summary_or_none cold;
                warm = summary_or_none warm;
                failure_latency = summary failure;
                service_time = summary service;
                dispatch = summary dispatch;
                ttfr = summary ttfr;
              })

-- A list comprehension whose body may raise.
unfoldable pub each : {A B : Type 0} → (A → Parsed B) → List A → Parsed (List B)
each f [] = parsed []
each f (x ∷ xs) = and_then (f x) λ y. and_then (each f xs) λ ys. parsed (y ∷ ys)

abbrev pub Epochs : Type 0
Epochs = List (ℕ × List Document)

-- epoch_hists.setdefault(key, []).append(doc)
unfoldable pub add_epoch : ℕ → Document → Epochs → Epochs
add_epoch epoch d [] = (epoch, d ∷ []) ∷ []
add_epoch epoch d ((other, ds) ∷ rest) =
    if other == epoch then (other, ds ++ d ∷ []) ∷ rest else (other, ds) ∷ add_epoch epoch d rest

unfoldable pub add_epochs : List (ℕ × Document) → Epochs → Epochs
unfolding add_epoch
add_epochs [] groups = groups
add_epochs ((epoch, d) ∷ rest) groups = add_epochs rest (add_epoch epoch d groups)

unfoldable pub epoch_hists : List Stats → Epochs → Epochs
unfolding add_epochs
epoch_hists [] groups = groups
epoch_hists (st ∷ rest) groups = epoch_hists rest (add_epochs st.histograms.epochs groups)

-- epoch_execs.get(key, 0), over all the reports
unfoldable pub executions_in : ℕ → List (ℕ × Option ℕ) → ℕ
unfolding or_zero
executions_in epoch [] = 0
executions_in epoch ((other, n) ∷ rest) =
    (if other == epoch then or_zero n else 0) + executions_in epoch rest

unfoldable pub epoch_execs : ℕ → List Stats → ℕ
unfolding executions_in
epoch_execs epoch [] = 0
epoch_execs epoch (st ∷ rest) = executions_in epoch st.epochs + epoch_execs epoch rest

-- sorted(epoch_hists.items(), key=…)
unfoldable pub insert_epoch : ℕ → List Document → Epochs → Epochs
insert_epoch epoch ds [] = (epoch, ds) ∷ []
insert_epoch epoch ds ((other, es) ∷ rest) =
    if leb epoch other
    then (epoch, ds) ∷ (other, es) ∷ rest
    else (other, es) ∷ insert_epoch epoch ds rest

unfoldable pub sort_epochs : Epochs → Epochs
unfolding insert_epoch
sort_epochs [] = []
sort_epochs ((epoch, ds) ∷ rest) = insert_epoch epoch ds (sort_epochs rest)

pub record EpochOut : Type 0 where
  pub epoch : ℕ
  pub executions : ℕ
  pub latency : Summary

unfoldable pub epoch_out : List Stats → ℕ × List Document → Parsed EpochOut
unfolding merge_dicts epoch_execs summary
epoch_out stats_list (epoch, ds) = and_then (merge_dicts ds) λ h.
    parsed
      (record { epoch = epoch; executions = epoch_execs epoch stats_list; latency = summary h })
