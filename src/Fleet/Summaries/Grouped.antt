-- ===== src/Fleet/Summaries/Grouped.antt =====
-- Grouping keeps what has to be readable: the steps and the epochs of all the reports.
use regulator.Prelude.{
  ℕ, ◌≡◌, refl, arith, Bool, true, ◌&&◌, List, [], ◌∷◌, ◌==◌, all, ap, ◌∙◌, Bool-cases, inl, inr,
}
use regulator.Histogram.Document.{Document, merge_dicts}
use regulator.Results.{StepHistograms}
use regulator.Results.Snapshot.{Stats, StepDocument}
use regulator.Fleet.Summaries.Steps.{
  Entry, Epochs, add_entry, add_counts, new_entry, parts_of, add_steps, merged_steps, add_epoch,
  add_epochs, epoch_hists, insert_epoch, sort_epochs, epoch_out,
}
use regulator.Fleet.Summaries.Readable.{
  is_parsed, is_readable, is_parsed-and_then, is_parsed-merge_dicts, is_readable_part,
  is_readable_entry, all-append,
}

-- Adding a step's histograms to its entry adds them to what has to be readable, and nothing else.
all-add_entry :
    (step : StepDocument) (part : StepHistograms) (entries : List Entry)
    → all is_readable_entry (add_entry step part entries)
      ≡ (all is_readable_entry entries && is_readable_part part)
unfolding add_entry add_counts new_entry
all-add_entry step part [] = ground arith
all-add_entry step part (e ∷ rest) = elim (Bool-cases (e.step_id == step.step_id)) [
  | inl h ↦ rw (h, all-append is_readable_part e.parts (part ∷ [])) (ground arith)
  | inr h ↦ rw (h, all-add_entry step part rest) (ground arith)
]

abbrev pub are_readable_steps : Stats → Bool
are_readable_steps st =
    all (λ step. is_readable_part (parts_of step.step_id st.histograms.steps)) st.steps

all-add_steps :
    (shipped : List (ℕ × StepHistograms)) (steps : List StepDocument) (entries : List Entry)
    → all is_readable_entry (add_steps shipped steps entries) ≡ (
        all is_readable_entry entries
        && all (λ step. is_readable_part (parts_of step.step_id shipped)) steps)
unfolding add_steps
all-add_steps shipped [] entries = ground arith
all-add_steps shipped (step ∷ rest) entries =
    all-add_steps shipped rest (add_entry step (parts_of step.step_id shipped) entries)
    ∙ rw (all-add_entry step (parts_of step.step_id shipped) entries) (ground arith)

pub all-merged_steps :
    (stats_list : List Stats) (entries : List Entry)
    → all is_readable_entry (merged_steps stats_list entries)
      ≡ (all is_readable_entry entries && all are_readable_steps stats_list)
unfolding merged_steps
all-merged_steps [] entries = ground arith
all-merged_steps (st ∷ rest) entries =
    all-merged_steps rest (add_steps st.histograms.steps st.steps entries)
    ∙ rw (all-add_steps st.histograms.steps st.steps entries) (ground arith)

abbrev pub is_readable_epoch : ℕ × List Document → Bool
is_readable_epoch (epoch, ds) = all is_readable ds

abbrev pub are_readable_epochs : Stats → Bool
are_readable_epochs st = all (λ (epoch, d). is_readable d) st.histograms.epochs

pub is_parsed-epoch_out :
    (stats_list : List Stats) (e : ℕ × List Document)
    → is_parsed (epoch_out stats_list e) ≡ is_readable_epoch e
unfolding epoch_out
is_parsed-epoch_out stats_list (epoch, ds) =
    is_parsed-and_then (merge_dicts ds) _ true (λ h. refl)
    ∙ ground (arith, is_parsed-merge_dicts ds)

all-add_epoch :
    (epoch : ℕ) (d : Document) (groups : Epochs)
    → all is_readable_epoch (add_epoch epoch d groups)
      ≡ (all is_readable_epoch groups && is_readable d)
unfolding add_epoch
all-add_epoch epoch d [] = ground arith
all-add_epoch epoch d ((other, ds) ∷ rest) = elim (Bool-cases (other == epoch)) [
  | inl h ↦ rw (h, all-append is_readable ds (d ∷ [])) (ground arith)
  | inr h ↦ rw (h, all-add_epoch epoch d rest) (ground arith)
]

all-add_epochs :
    (shipped : List (ℕ × Document)) (groups : Epochs)
    → all is_readable_epoch (add_epochs shipped groups)
      ≡ (all is_readable_epoch groups && all (λ (epoch, d). is_readable d) shipped)
unfolding add_epochs
all-add_epochs [] groups = ground arith
all-add_epochs ((epoch, d) ∷ rest) groups =
    all-add_epochs rest (add_epoch epoch d groups)
    ∙ rw (all-add_epoch epoch d groups) (ground arith)

all-epoch_hists :
    (stats_list : List Stats) (groups : Epochs)
    → all is_readable_epoch (epoch_hists stats_list groups)
      ≡ (all is_readable_epoch groups && all are_readable_epochs stats_list)
unfolding epoch_hists
all-epoch_hists [] groups = ground arith
all-epoch_hists (st ∷ rest) groups =
    all-epoch_hists rest (add_epochs st.histograms.epochs groups)
    ∙ rw (all-add_epochs st.histograms.epochs groups) (ground arith)

all-insert_epoch :
    (epoch : ℕ) (ds : List Document) (groups : Epochs)
    → all is_readable_epoch (insert_epoch epoch ds groups)
      ≡ (all is_readable ds && all is_readable_epoch groups)
unfolding insert_epoch
all-insert_epoch epoch ds [] = refl
all-insert_epoch epoch ds ((other, es) ∷ rest) = ground (arith, all-insert_epoch epoch ds rest)

all-sort_epochs :
    (groups : Epochs) → all is_readable_epoch (sort_epochs groups) ≡ all is_readable_epoch groups
unfolding sort_epochs
all-sort_epochs [] = refl
all-sort_epochs ((epoch, ds) ∷ rest) =
    all-insert_epoch epoch ds (sort_epochs rest)
    ∙ ap (λ b. all is_readable ds && b) (all-sort_epochs rest)

pub all-sorted_epochs :
    (stats_list : List Stats)
    → all is_readable_epoch (sort_epochs (epoch_hists stats_list []))
      ≡ all are_readable_epochs stats_list
all-sorted_epochs stats_list =
    all-sort_epochs (epoch_hists stats_list []) ∙ all-epoch_hists stats_list []
