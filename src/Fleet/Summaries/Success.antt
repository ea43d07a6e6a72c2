-- ===== src/Fleet/Summaries/Success.antt =====
-- When `merge_summaries` succeeds.
use regulator.Prelude.{
  ℕ, ◌≡◌, refl, arith, Bool, true, false, not, ◌&&◌, Option, none, some, List, [], ◌∷◌, map, all,
  ap, ◌∙◌, Bool-cases, inl, inr, if◌then◌else◌,
}
use regulator.Histogram.Document.{Parsed, parsed, wrong_version, wrong_layout, wrong_value}
use regulator.Fleet.Plan.{LoadModel}
use regulator.Results.Snapshot.{Stats}
use regulator.Fleet.Summaries.Steps.{
  merged_steps, step_out, each, epoch_hists, sort_epochs, epoch_out,
}
use regulator.Fleet.Summaries.Reports.{RunSummary, MergedRun}
use regulator.Fleet.Summaries.Merge.{
  has_figure, are_typed, model_of, merge_summaries, is_problem, stats_of, merged_hists, with_hists,
  with_epochs, with_steps,
}
use regulator.Fleet.Summaries.Readable.{
  is_parsed, is_parsed-and_then, is_parsed-each, is_readable_hists, is_parsed-merged_hists,
  is_readable_entry, is_parsed-step_out, all-map,
}
use regulator.Fleet.Summaries.Grouped.{
  are_readable_steps, all-merged_steps, is_readable_epoch, is_parsed-epoch_out, are_readable_epochs,
  all-sorted_epochs,
}
use regulator.Fleet.Leases.{WorkerLease, is_done, is_lost}
use regulator.Fleet.Summaries.Finish.{
  collect, collect_one, Collected, finish, take_report, keep_lease, keep_lost, keep_report,
}

-- Everything in a worker's report that the merge reads.
unfoldable pub is_readable_stats : Stats → Bool
is_readable_stats st =
    is_readable_hists st.histograms && are_readable_epochs st && are_readable_steps st

all_same :
    {A : Type 0} (p q : A → Bool) → ((x : A) → p x ≡ q x) → (xs : List A) → all p xs ≡ all q xs
all_same p q h [] = refl
all_same p q h (x ∷ xs) = rw (h x, all_same p q h xs) refl

all_three :
    {A : Type 0} (p q r : A → Bool) (xs : List A)
    → all (λ x. p x && q x && r x) xs ≡ (all p xs && all q xs && all r xs)
all_three p q r [] = refl
all_three p q r (x ∷ xs) = ground (arith, all_three p q r xs)

-- A report that a merge takes whose first report has this model.
abbrev pub is_fit : Option LoadModel → RunSummary → Bool
is_fit model s = is_readable_stats s.stats && (s.well_typed && has_figure model s)

is_parsed-if :
    {A : Type 0} (test : Bool) (a : A) → is_parsed (if test then parsed a else wrong_value) ≡ test
is_parsed-if true a = refl
is_parsed-if false a = refl

all_fit :
    (model : Option LoadModel) (summaries : List RunSummary)
    → (all is_readable_stats (stats_of summaries)
        && all (λ s. s.well_typed && has_figure model s) summaries)
      ≡ all (is_fit model) summaries
unfolding stats_of
all_fit model [] = refl
all_fit model (s ∷ rest) = ground (arith, all_fit model rest)

is_parsed-typed :
    (now : ℕ) (summaries : List RunSummary) (lost : List ℕ)
    → is_parsed (merge_summaries now summaries lost)
      ≡ (all is_readable_stats (stats_of summaries) && are_typed summaries)
unfolding merge_summaries with_hists with_epochs with_steps is_readable_stats
is_parsed-typed now summaries lost =
    let stats_list = stats_of summaries in
    let hists =
      is_parsed-merged_hists (map (λ st. st.histograms) stats_list)
      ∙ all-map is_readable_hists (λ st. st.histograms) stats_list in
    let epochs =
      is_parsed-each (epoch_out stats_list) (sort_epochs (epoch_hists stats_list []))
      ∙ all_same _ is_readable_epoch (is_parsed-epoch_out stats_list)
          (sort_epochs (epoch_hists stats_list []))
      ∙ all-sorted_epochs stats_list in
    let steps =
      is_parsed-each step_out (merged_steps stats_list [])
      ∙ all_same _ is_readable_entry is_parsed-step_out (merged_steps stats_list [])
      ∙ all-merged_steps stats_list [] in
    let e_list = sort_epochs (epoch_hists stats_list []) in
    let s_list = merged_steps stats_list [] in
    is_parsed-and_then (merged_hists (map (λ st. st.histograms) stats_list)) _
      (is_parsed (each (epoch_out stats_list) e_list)
        && (is_parsed (each step_out s_list) && are_typed summaries))
      (λ h.
        is_parsed-and_then (each (epoch_out stats_list) e_list) _
          (is_parsed (each step_out s_list) && are_typed summaries)
          (λ e.
            is_parsed-and_then (each step_out s_list) _ (are_typed summaries)
              (λ s. is_parsed-if (are_typed summaries) _)))
    ∙ rw (hists, epochs, steps)
        (ground (
          arith,
          all_three (λ (st : Stats). is_readable_hists st.histograms) are_readable_epochs
              are_readable_steps stats_list,
        ))

pub is_parsed-merge :
    (now : ℕ) (summaries : List RunSummary) (lost : List ℕ)
    → is_parsed (merge_summaries now summaries lost) ≡ all (is_fit (model_of summaries)) summaries
unfolding are_typed
is_parsed-merge now summaries lost =
    is_parsed-typed now summaries lost ∙ all_fit (model_of summaries) summaries

is_problem-is_fit :
    (now : ℕ) (s : RunSummary) → is_problem now s ≡ not (is_fit s.configured_load.model s)
unfolding is_problem
is_problem-is_fit now s =
    let e = is_parsed-merge now (s ∷ []) [] in
    not_parsed (merge_summaries now (s ∷ []) []) ∙ ap not (e ∙ ground arith)
  where
    not_parsed :
        (p : Parsed MergedRun)
        → elim p [
          | parsed merged ↦ false
          | wrong_version ↦ true
          | wrong_layout ↦ true
          | wrong_value ↦ true
        ]
          ≡ not (is_parsed p)
    not_parsed (parsed merged) = refl
    not_parsed wrong_version = refl
    not_parsed wrong_layout = refl
    not_parsed wrong_value = refl

-- Reports that all configure a run of this model.
abbrev pub HaveModel : Option LoadModel → List RunSummary → Type 0
HaveModel model [] = Unit
HaveModel model (s ∷ rest) = (s.configured_load.model ≡ model) × HaveModel model rest

fit_unproblematic :
    (now : ℕ) (model : Option LoadModel) (summaries : List RunSummary)
    → HaveModel model summaries
    → all (is_fit model) summaries ≡ all (λ s. not (is_problem now s)) summaries
fit_unproblematic now model [] h = refl
fit_unproblematic now model (s ∷ rest) (same, h) =
    let fit : not (is_problem now s) ≡ is_fit model s =
      ap not (is_problem-is_fit now s)
      ∙ twice (is_fit s.configured_load.model s)
      ∙ ap (λ m. is_fit m s) same in
    rw (fit, fit_unproblematic now model rest h) refl
  where
    twice : (b : Bool) → not (not b) ≡ b
    twice true = refl
    twice false = refl

-- A merge of reports that all configure a run of the same model succeeds exactly when none of them alone
-- is a problem, whichever slots are lost: a report that this build cannot read is caught by
-- `summary_problem`, and those that it lets through never make such a merge fail.
pub is_parsed-merge_summaries :
    (now : ℕ) (summaries : List RunSummary) (lost : List ℕ)
    → HaveModel (model_of summaries) summaries
    → is_parsed (merge_summaries now summaries lost) ≡ all (λ s. not (is_problem now s)) summaries
is_parsed-merge_summaries now summaries lost h =
    is_parsed-merge now summaries lost ∙ fit_unproblematic now (model_of summaries) summaries h

-- Of reports that are no problem alone, only the figure that the first one's model sums can fail.
fit-has_figure :
    (now : ℕ) (model : Option LoadModel) (summaries : List RunSummary)
    → all (λ s. not (is_problem now s)) summaries ≡ true
    → all (is_fit model) summaries ≡ all (has_figure model) summaries
fit-has_figure now model [] h = refl
fit-has_figure now model (s ∷ rest) h =
    ground (arith, h, is_problem-is_fit now s, fit-has_figure now model rest)

take_report-unproblematic :
    (now : ℕ) (lease : WorkerLease) (s : RunSummary) (problem : Bool) (rest : Collected)
    → is_problem now s ≡ problem
    → all (λ s. not (is_problem now s)) rest.summaries ≡ true
    → all (λ s. not (is_problem now s)) (take_report lease s problem rest).summaries ≡ true
unfolding take_report keep_lost keep_report keep_lease
take_report-unproblematic now lease s true rest e h = h
take_report-unproblematic now lease s false rest e h = rw (e, h) refl

collect_one-unproblematic :
    (now : ℕ) (stored : ℕ → RunSummary) (lease : WorkerLease) (report : Option ℕ) (rest : Collected)
    → all (λ s. not (is_problem now s)) rest.summaries ≡ true
    → all (λ s. not (is_problem now s)) (collect_one now stored lease report rest).summaries ≡ true
unfolding collect_one keep_lease keep_lost
collect_one-unproblematic now stored lease none rest h = elim (Bool-cases (is_lost lease.state)) [
  | inl e ↦ rw e h
  | inr e ↦ rw e h
]
collect_one-unproblematic now stored lease (some report) rest h =
    elim (Bool-cases (is_done lease.state)) [
      | inl e ↦ rw e (
          take_report-unproblematic now lease (stored report) (is_problem now (stored report)) rest
            refl h)
      | inr e ↦ rw e elim (Bool-cases (is_lost lease.state)) [ inl e ↦ rw e h | inr e ↦ rw e h ]
    ]

collect-unproblematic :
    (now : ℕ) (stored : ℕ → RunSummary) (leases : List WorkerLease)
    → all (λ s. not (is_problem now s)) (collect now stored leases).summaries ≡ true
unfolding collect
collect-unproblematic now stored [] = refl
collect-unproblematic now stored (lease ∷ rest) =
    collect_one-unproblematic now stored lease lease.summary (collect now stored rest)
      (collect-unproblematic now stored rest)

-- The end of a fleet's run fails exactly when, of the reports that are no problem alone, one has no number
-- for the figure that the first one's model sums: the users of a closed run, the rate of an open one.
pub is_parsed-finish :
    (now : ℕ) (stored : ℕ → RunSummary) (stop_requested : Bool) (leases : List WorkerLease)
    → is_parsed (finish now stored stop_requested leases)
      ≡ all
          (has_figure (model_of (collect now stored leases).summaries))
          (collect now stored leases).summaries
unfolding finish
is_parsed-finish now stored stop_requested leases =
    let c = collect now stored leases in
    is_parsed-and_then (merge_summaries now c.summaries c.lost) _ true (λ m. refl)
    ∙ and_true_right (is_parsed (merge_summaries now c.summaries c.lost))
    ∙ is_parsed-merge now c.summaries c.lost
    ∙ fit-has_figure now (model_of c.summaries) c.summaries
        (collect-unproblematic now stored leases)
  where
    and_true_right : (b : Bool) → (b && true) ≡ b
    and_true_right true = refl
    and_true_right false = refl
