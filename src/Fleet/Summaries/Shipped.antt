-- ===== src/Fleet/Summaries/Shipped.antt =====
-- The reports that workers ship of runs recorded by `RunStats`, and that a merge can read them.
use regulator.Prelude.{
  ℕ, ◌≡◌, refl, arith, Bool, true, ◌&&◌, Option, none, some, List, [], ◌∷◌, map, all, ap,
}
use regulator.Histogram.{LatencyHistogram}
use regulator.Histogram.Document.{to_dict, from_dict}
use regulator.Results.{StepRecord, StepStats, step_histograms}
use regulator.Results.Run.{RunStats}
use regulator.Results.Snapshot.{snapshot, histograms, step_summary}
use regulator.Results.Totals.{IsRunOf}
use regulator.Fleet.Summaries.Steps.{parts_of, no_parts}
use regulator.Fleet.Plan.{LoadModel}
use regulator.Fleet.Summaries.Reports.{RunSummary}
use regulator.Fleet.Summaries.Merge.{is_number, has_figure}
use regulator.Fleet.Summaries.Readable.{is_readable_part, is_readable_option, is_readable}
use regulator.Fleet.Summaries.Success.{is_readable_stats, is_fit}

-- A worker's own report has numbers for figures.
abbrev pub is_typed : RunSummary → Bool
is_typed s =
    s.well_typed
    && (is_number s.configured_load.virtual_users && is_number s.configured_load.arrival_rate)

-- `s` is the final report of a worker whose run recorded `xs`.
pub record IsReportOf (xs : List StepRecord) (s : RunSummary) : Type 0 where
  pub ended : ℕ
  pub run : RunStats
  pub recorded : IsRunOf xs run
  pub shipped : s.stats ≡ snapshot ended run
  pub typed : is_typed s ≡ true

abbrev pub AreReportsOf : List (List StepRecord) → List RunSummary → Type 0
AreReportsOf [] [] = Unit
AreReportsOf (xs ∷ xss) (s ∷ ss) = IsReportOf xs s × AreReportsOf xss ss
AreReportsOf _ _ = ⊥

pub to_dict-readable : (h : LatencyHistogram) → is_readable_option (some (to_dict h)) ≡ true
unfolding to_dict from_dict
to_dict-readable h = refl

pub step_histograms-readable : (s : StepStats) → is_readable_part (step_histograms s) ≡ true
unfolding step_histograms to_dict from_dict
step_histograms-readable s = refl

pub parts_of-readable :
    (id : ℕ) (steps : List (ℕ × StepStats))
    → is_readable_part (parts_of id (map (λ (k, s). (k, step_histograms s)) steps)) ≡ true
unfolding parts_of no_parts
parts_of-readable id [] = refl
parts_of-readable id ((k, s) ∷ rest) =
    ground (arith, step_histograms-readable s, parts_of-readable id rest)

pub every_true :
    {A : Type 0} (p : A → Bool) → ((x : A) → p x ≡ true) → (xs : List A) → all p xs ≡ true
every_true p h [] = refl
every_true p h (x ∷ xs) = rw (h x, every_true p h xs) refl

pub epochs-readable :
    (epochs : List (ℕ × LatencyHistogram))
    → all (λ (epoch, d). is_readable d) (map (λ (epoch, h). (epoch, to_dict h)) epochs) ≡ true
unfolding to_dict from_dict
epochs-readable [] = refl
epochs-readable ((epoch, h) ∷ rest) = epochs-readable rest

pub snapshot-readable : (now : ℕ) (run : RunStats) → is_readable_stats (snapshot now run) ≡ true
unfolding is_readable_stats snapshot histograms to_dict from_dict
snapshot-readable now run = rw (epochs-readable run.epoch_latency) (
    every_true _ (λ step. parts_of-readable step.step_id run.steps)
      (map (λ (id, stats). step_summary stats) run.steps))

pub is_typed-has_figure :
    (model : Option LoadModel) (s : RunSummary)
    → is_typed s ≡ true
    → (s.well_typed && has_figure model s) ≡ true
unfolding has_figure
is_typed-has_figure none s h = ground (arith, h)
is_typed-has_figure (some LoadModel.closed) s h = ground (arith, h)
is_typed-has_figure (some LoadModel.opened) s h = ground (arith, h)
is_typed-has_figure (some LoadModel.schedule) s h = ground (arith, h)

pub reports-fit :
    (model : Option LoadModel) (xss : List (List StepRecord)) (ss : List RunSummary)
    → AreReportsOf xss ss
    → all (is_fit model) ss ≡ true
reports-fit model [] [] a = refl
reports-fit model [] (s ∷ ss) a = elim a [ ]
reports-fit model (xs ∷ xss) [] a = elim a [ ]
reports-fit model (xs ∷ xss) (s ∷ ss) (t, a) =
    rw
      (
        ap is_readable_stats t.shipped,
        snapshot-readable t.ended t.run,
        is_typed-has_figure model s t.typed,
        reports-fit model xss ss a,
      )
      refl
