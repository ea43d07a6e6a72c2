-- ===== src/Fleet/Summaries/Verdict.antt =====
-- The verdict and the outcome of the merged report.
use Prim.Native.Nat.{max}
use regulator.Prelude.{
  ℕ, ◌≡◌, ◌≢◌, ◌↔◌, refl, arith, Bool, true, not, List, [], ◌∷◌, map, all, All, ap, ◌∙◌, sym,
  max_of, and_true,
}
use regulator.Histogram.Document.{parsed}
use regulator.Results.Interval.{is_nonempty}
use regulator.Fleet.Summaries.Reports.{RunSummary, MergedRun, Outcome}
use regulator.Fleet.Summaries.Merge.{merge_summaries, worst, is_valid, merged_run, outcomes_of}
use regulator.Fleet.Summaries.Counts.{merge_summaries-IsMerged}

-- How bad an outcome is.
abbrev pub severity : Outcome → ℕ
severity Outcome.completed = 0
severity (Outcome.other text) = 0
severity Outcome.stopped = 1
severity Outcome.aborted = 2
severity Outcome.failed = 3

severity-cases :
    (o : Outcome) (rest : List Outcome)
    → severity (worst (o ∷ rest)) ≡ max (severity o) (severity (worst rest))
unfolding worst
severity-cases Outcome.completed rest = ground arith
severity-cases (Outcome.other text) rest = ground arith
severity-cases Outcome.stopped rest = ground arith
severity-cases Outcome.aborted rest = ground arith
severity-cases Outcome.failed rest = ground arith

severity-worst :
    (outcomes : List Outcome) → severity (worst outcomes) ≡ max_of (map severity outcomes)
unfolding worst max_of
severity-worst [] = refl
severity-worst (o ∷ rest) = severity-cases o rest ∙ ap (max (severity o)) (severity-worst rest)

-- The merged outcome is as bad as the worst of the workers', and no worse.
pub merge_summaries-outcome :
    (now : ℕ) (summaries : List RunSummary) (lost : List ℕ) (m : MergedRun)
    → merge_summaries now summaries lost ≡ parsed m
    → severity m.outcome ≡ max_of (map severity (outcomes_of summaries))
unfolding merged_run
merge_summaries-outcome now summaries lost m h =
    let t = merge_summaries-IsMerged now summaries lost m h in
    ap (λ r. severity r.outcome) t.whole ∙ severity-worst (outcomes_of summaries)

module _ {A : Type 0} (p : A → Bool) where
  all-All : (xs : List A) → all p xs ≡ true → All (λ x. p x ≡ true) xs
  all-All [] h = tt
  all-All (x ∷ xs) h = let (e, r) = and_true (p x) (all p xs) h in (e, all-All xs r)

  All-all : (xs : List A) → All (λ x. p x ≡ true) xs → all p xs ≡ true
  All-all [] h = refl
  All-all (x ∷ xs) (e, r) = rw (e, All-all xs r) refl

is_nonempty-nil : {A : Type 0} (xs : List A) → not (is_nonempty xs) ≡ true → xs ≡ []
unfolding is_nonempty
is_nonempty-nil [] h = refl
is_nonempty-nil (x ∷ xs) h = cc

is_nonempty-ne : {A : Type 0} (xs : List A) → is_nonempty xs ≡ true → xs ≢ []
unfolding is_nonempty
is_nonempty-ne [] h = cc
is_nonempty-ne (x ∷ xs) h = λ e. cc

ne-is_nonempty : {A : Type 0} (xs : List A) → xs ≢ [] → is_nonempty xs ≡ true
unfolding is_nonempty
ne-is_nonempty [] h = absurd (h refl)
ne-is_nonempty (x ∷ xs) h = refl

-- Where each worker whose report was merged ran validly, none was lost, and one reported.
abbrev pub IsSound : List RunSummary → List ℕ → Type 0
IsSound summaries lost = All (λ s. s.valid ≡ true) summaries × (lost ≡ []) × (summaries ≢ [])

is_valid-IsSound :
    (summaries : List RunSummary) (lost : List ℕ)
    → is_valid summaries lost ≡ true
    → IsSound summaries lost
unfolding is_valid
is_valid-IsSound summaries lost h =
    let (h', some_report) = and_true _ (is_nonempty summaries) h in
    let (valid, none_lost) = and_true (all (λ s. s.valid) summaries) _ h' in
    (
      all-All (λ s. s.valid) summaries valid,
      is_nonempty-nil lost none_lost,
      is_nonempty-ne summaries some_report,
    )

IsSound-is_valid :
    (summaries : List RunSummary) (lost : List ℕ)
    → IsSound summaries lost
    → is_valid summaries lost ≡ true
unfolding is_valid is_nonempty
IsSound-is_valid summaries lost (valid, none_lost, some_report) =
    rw (All-all (λ s. s.valid) summaries valid, none_lost, ne-is_nonempty summaries some_report)
      refl

-- A merged run is valid exactly when every merged report is valid, no worker was lost, and at least one
-- reported.
pub merge_summaries-valid_iff :
    (now : ℕ) (summaries : List RunSummary) (lost : List ℕ) (m : MergedRun)
    → merge_summaries now summaries lost ≡ parsed m
    → (m.valid ≡ true) ↔ IsSound summaries lost
unfolding merged_run
merge_summaries-valid_iff now summaries lost m h =
    let t = merge_summaries-IsMerged now summaries lost m h in
    let e = ap (λ (r : MergedRun). r.valid) t.whole in
    (λ v. is_valid-IsSound summaries lost (sym e ∙ v), λ s. e ∙ IsSound-is_valid summaries lost s)
