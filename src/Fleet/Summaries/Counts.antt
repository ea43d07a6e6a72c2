-- ===== src/Fleet/Summaries/Counts.antt =====
-- The merge taken apart, and the counts of its steps.
use mathlib.Core.Path.{subst}
use regulator.Prelude.{
  ℕ, Bool, true, false, if◌then◌else◌, ◌+◌, ◌-◌, ◌≡◌, refl, arith, List, [], ◌∷◌, map, ap, ◌∙◌, sym,
  sum,
}
use regulator.Histogram.Reading.{or_zero}
use regulator.Histogram.Document.{
  Parsed, parsed, wrong_version, wrong_layout, wrong_value, and_then,
}
use regulator.Results.{StepHistograms}
use regulator.Results.Snapshot.{Stats, StepDocument}
use regulator.Fleet.Summaries.Steps.{
  Entry, StepOut, EpochOut, add_counts, new_entry, add_entry, parts_of, add_steps, merged_steps,
  step_out, each, epoch_out, epoch_hists, sort_epochs, hist,
}
use regulator.Fleet.Summaries.Reports.{RunSummary, MergedRun, Hists}
use regulator.Fleet.Summaries.Merge.{
  merge_summaries, merged_run, merged_stats, stats_of, merged_hists, with_steps, with_epochs,
  are_typed, with_hists, started_of, ended_of,
}

pub and_then-parsed :
    {A B : Type 0} (p : Parsed A) (f : A → Parsed B) (b : B)
    → and_then p f ≡ parsed b
    → (a : A) × (p ≡ parsed a) × (f a ≡ parsed b)
and_then-parsed (parsed a) f b h = (a, refl, h)
and_then-parsed wrong_version f b h = cc
and_then-parsed wrong_layout f b h = cc
and_then-parsed wrong_value f b h = cc

pub parsed-eq : {A : Type 0} {a b : A} → parsed a ≡ parsed b → a ≡ b
parsed-eq h = cc

pub parsed-if :
    {A : Type 0} {a b : A} (test : Bool)
    → (if test then parsed a else wrong_value) ≡ parsed b
    → a ≡ b
parsed-if true h = parsed-eq h
parsed-if false h = cc

-- A merge that succeeds, taken apart.
pub record IsMerged (now : ℕ) (summaries : List RunSummary) (lost : List ℕ) (m : MergedRun)
    : Type 0 where
  pub hists : Hists
  pub epochs : List EpochOut
  pub steps : List StepOut
  pub duration : ℕ
  pub hists_parsed : merged_hists (map (λ st. st.histograms) (stats_of summaries)) ≡ parsed hists
  pub steps_parsed : each step_out (merged_steps (stats_of summaries) []) ≡ parsed steps
  pub whole : m ≡ merged_run now summaries lost (merged_stats summaries duration hists epochs steps)

pub merge_summaries-IsMerged :
    (now : ℕ) (summaries : List RunSummary) (lost : List ℕ) (m : MergedRun)
    → merge_summaries now summaries lost ≡ parsed m
    → IsMerged now summaries lost m
unfolding merge_summaries with_hists with_epochs with_steps
merge_summaries-IsMerged now summaries lost m h =
    let hists_list = map (λ st. st.histograms) (stats_of summaries) in
    let epoch_list = sort_epochs (epoch_hists (stats_of summaries) []) in
    let (hists, e, h') =
      and_then-parsed (merged_hists hists_list) (with_hists now summaries lost) m h in
    let (epochs, e', h'') =
      and_then-parsed (each (epoch_out (stats_of summaries)) epoch_list)
        (with_epochs now summaries lost hists) m h' in
    let (steps, e'', whole) =
      and_then-parsed (each step_out (merged_steps (stats_of summaries) []))
        (with_steps now summaries lost hists epochs) m h'' in
    record {
      hists = hists;
      epochs = epochs;
      steps = steps;
      duration = ended_of now summaries - started_of now summaries;
      hists_parsed = e;
      steps_parsed = e'';
      whole = sym (parsed-if (are_typed summaries) whole);
    }

-- The steps of one report, and of a list of reports.
abbrev pub executions_in_report : Stats → ℕ
executions_in_report st = sum (map (λ step. or_zero step.executions) st.steps)

abbrev errors_in_report : Stats → ℕ
errors_in_report st = sum (map (λ step. or_zero step.errors) st.steps)

abbrev pub entry_executions : List Entry → ℕ
entry_executions es = sum (map (λ e. e.executions) es)

sum-add_entry :
    (step : StepDocument) (part : StepHistograms) (entries : List Entry)
    → entry_executions (add_entry step part entries)
      ≡ entry_executions entries + or_zero step.executions
unfolding add_entry add_counts new_entry
sum-add_entry step part [] = omega arith
sum-add_entry step part (e ∷ rest) = ground (arith, sum-add_entry step part rest)

sum-add_steps :
    (shipped : List (ℕ × StepHistograms)) (steps : List StepDocument) (entries : List Entry)
    → entry_executions (add_steps shipped steps entries)
      ≡ entry_executions entries + sum (map (λ step. or_zero step.executions) steps)
unfolding add_steps
sum-add_steps shipped [] entries = omega arith
sum-add_steps shipped (step ∷ rest) entries =
    let part = parts_of step.step_id shipped in
    omega (
      arith,
      sum-add_entry step part entries,
      sum-add_steps shipped rest (add_entry step part entries),
    )

sum-merged_steps :
    (stats_list : List Stats) (entries : List Entry)
    → entry_executions (merged_steps stats_list entries)
      ≡ entry_executions entries + sum (map executions_in_report stats_list)
unfolding merged_steps
sum-merged_steps [] entries = omega arith
sum-merged_steps (st ∷ rest) entries = omega (
  arith,
  sum-add_steps st.histograms.steps st.steps entries,
  sum-merged_steps rest (add_steps st.histograms.steps st.steps entries),
)

-- The result, if there is one, has the property.
abbrev pub Holds : {A : Type 0} → (A → Type 0) → Parsed A → Type 0
Holds P (parsed a) = P a
Holds P wrong_version = Unit
Holds P wrong_layout = Unit
Holds P wrong_value = Unit

pub and_then-Holds :
    {A B : Type 0} (P : B → Type 0) (p : Parsed A) (f : A → Parsed B)
    → ((a : A) → Holds P (f a))
    → Holds P (and_then p f)
and_then-Holds P (parsed a) f h = h a
and_then-Holds P wrong_version f h = tt
and_then-Holds P wrong_layout f h = tt
and_then-Holds P wrong_value f h = tt

step_out-Holds : (e : Entry) → Holds (λ o. o.entry ≡ e) (step_out e)
unfolding step_out
step_out-Holds e = and_then-Holds _ (hist (map (λ p. p.latency) e.parts)) _ λ a.
    and_then-Holds _ (hist (map (λ p. p.latency_cold) e.parts)) _ λ b.
      and_then-Holds _ (hist (map (λ p. p.latency_warm) e.parts)) _ λ c.
        and_then-Holds _ (hist (map (λ p. p.failure_latency) e.parts)) _ λ d.
          and_then-Holds _ (hist (map (λ p. p.service_time) e.parts)) _ λ f.
            and_then-Holds _ (hist (map (λ p. p.dispatch) e.parts)) _
              λ g. and_then-Holds (λ o. o.entry ≡ e) (hist (map (λ p. p.ttfr) e.parts)) _ λ h. refl

step_out-entry : (e : Entry) (o : StepOut) → step_out e ≡ parsed o → o.entry ≡ e
step_out-entry e o h = subst (Holds (λ r. r.entry ≡ e)) h (step_out-Holds e)

-- The steps that the report carries are the merged entries, one by one.
each-step_out :
    (entries : List Entry) (steps : List StepOut)
    → each step_out entries ≡ parsed steps
    → map (λ (o : StepOut). o.entry) steps ≡ entries
unfolding each
each-step_out [] steps h = ap (map (λ (o : StepOut). o.entry)) (sym (parsed-eq h))
each-step_out (e ∷ rest) steps h =
    let (o, p, h') =
      and_then-parsed (step_out e) (λ y. and_then (each step_out rest) λ ys. parsed (y ∷ ys)) steps
        h in
    let (os, q, h'') = and_then-parsed (each step_out rest) (λ ys. parsed (o ∷ ys)) steps h' in
    ap (map (λ (o : StepOut). o.entry)) (sym (parsed-eq h''))
    ∙ rw (step_out-entry e o p, each-step_out rest os q) refl

-- The executions of the merged steps add up to those of all the steps of all the reports.
pub merge_summaries-steps :
    (now : ℕ) (summaries : List RunSummary) (lost : List ℕ) (m : MergedRun)
    → merge_summaries now summaries lost ≡ parsed m
    → entry_executions (map (λ (o : StepOut). o.entry) m.stats.steps)
      ≡ sum (map executions_in_report (stats_of summaries))
unfolding merged_run merged_stats
merge_summaries-steps now summaries lost m h =
    let t = merge_summaries-IsMerged now summaries lost m h in
    ap (λ (r : MergedRun). entry_executions (map (λ (o : StepOut). o.entry) r.stats.steps)) t.whole
    ∙ ap entry_executions
        (each-step_out (merged_steps (stats_of summaries) []) t.steps t.steps_parsed)
    ∙ (let e = sum-merged_steps (stats_of summaries) [] in omega (arith, e))
