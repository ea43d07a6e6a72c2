-- ===== src/Results/Counting.antt =====
-- What an aggregate of step records stands for: counts of the records and lists of their values, and
-- the invariant of one step's aggregate.
use mathlib.Core.List.{append-nil}
use regulator.Prelude.{
  ℕ, ◌≤◌, concat, sum, map, sum-append, ◌+◌, ◌≡◌, refl, arith, Bool, true, false, not, ◌&&◌, Option,
  none, some, List, [], ◌∷◌, ◌++◌, if◌then◌else◌, ap, ◌∙◌, Bool-cases, inl, inr,
}
use regulator.Histogram.{LatencyHistogram}
use regulator.Histogram.Reading.{or_zero}
use regulator.Histogram.Record.{IsSketch, IsSketch-empty}
use regulator.Histogram.Order.{IsSketch-record_if}
use regulator.Results.{
  StepRecord, StepStats, Phase, ByClass, ErrorClass, is_cancelled, or_client, count_class,
  new_stats, add, record_if,
}

module _ {A : Type 0} where
  abbrev pub count : (A → Bool) → List A → ℕ
  count p [] = 0
  count p (x ∷ xs) = (if p x then 1 else 0) + count p xs

  -- The values of those that pass the test.
  abbrev pub pick : (A → Bool) → (A → ℕ) → List A → List ℕ
  pick p f [] = []
  pick p f (x ∷ xs) = (if p x then f x ∷ [] else []) ++ pick p f xs

  pub count-append : (p : A → Bool) (xs ys : List A) → count p (xs ++ ys) ≡ count p xs + count p ys
  count-append p [] ys = omega arith
  count-append p (x ∷ xs) ys = omega (arith, count-append p xs ys)

  pub pick-append :
      (p : A → Bool) (f : A → ℕ) (xs ys : List A) → pick p f (xs ++ ys) ≡ pick p f xs ++ pick p f ys
  pick-append p f [] ys = refl
  pick-append p f (x ∷ xs) ys = elim (Bool-cases (p x)) [
    | inl e ↦ rw (e, pick-append p f xs ys)
    | inr e ↦ rw (e, pick-append p f xs ys)
  ]

  pub count_concat :
      (p : A → Bool) (xss : List (List A)) → count p (concat xss) ≡ sum (map (count p) xss)
  count_concat p [] = refl
  count_concat p (xs ∷ xss) = omega (arith, count-append p xs (concat xss), count_concat p xss)

  pub pick-concat :
      (p : A → Bool) (f : A → ℕ) (xss : List (List A))
      → pick p f (concat xss) ≡ concat (map (pick p f) xss)
  pick-concat p f [] = refl
  pick-concat p f (xs ∷ xss) =
      pick-append p f xs (concat xss) ∙ ap (λ ys. pick p f xs ++ ys) (pick-concat p f xss)

  pub count_le_count :
      (p q : A → Bool)
      → ((x : A) → p x ≡ true → q x ≡ true)
      → (xs : List A) → count p xs ≤ count q xs
  count_le_count p q h [] = omega arith
  count_le_count p q h (x ∷ xs) = ground (arith, h x, count_le_count p q h xs)

  pub count-snoc :
      (p : A → Bool) (xs : List A) (x : A)
      → count p (xs ++ x ∷ []) ≡ (if p x then 1 else 0) + count p xs
  count-snoc p xs x = omega (arith, count-append p xs (x ∷ []))

  pub pick-snoc :
      (p : A → Bool) (f : A → ℕ) (xs : List A) (x : A)
      → pick p f (xs ++ x ∷ []) ≡ pick p f xs ++ (if p x then f x ∷ [] else [])
  pick-snoc p f xs x =
      pick-append p f xs (x ∷ []) ∙ ap {B = List ℕ} (λ ys. pick p f xs ++ ys) (append-nil _)

  pub sum-pick-snoc :
      (p : A → Bool) (f : A → ℕ) (xs : List A) (x : A)
      → sum (pick p f (xs ++ x ∷ [])) ≡ sum (pick p f xs) + (if p x then f x else 0)
  sum-pick-snoc p f xs x =
      ap sum (pick-snoc p f xs x)
      ∙ ground (arith, sum-append (pick p f xs) (if p x then f x ∷ [] else []))

  -- One more record, of which a value is recorded or not.
  pub IsSketch-snoc :
      (p : A → Bool) (f : A → ℕ) (xs : List A) (x : A) (h g : LatencyHistogram)
      → IsSketch (pick p f xs) h
      → g ≡ record_if (p x) (f x) h
      → IsSketch (pick p f (xs ++ x ∷ [])) g
  IsSketch-snoc p f xs x h g s e =
      rw (pick-snoc p f xs x, e) (IsSketch-record_if (p x) (f x) (pick p f xs) h s)

-- What a record counts as: cancelled ones are neither executions nor errors.
abbrev pub is_done : StepRecord → Bool
is_done r = not (is_cancelled r.error_class)

abbrev pub is_success : StepRecord → Bool
is_success r = is_done r && r.ok

abbrev pub is_failure : StepRecord → Bool
is_failure r = is_done r && not r.ok

abbrev pub is_unfinished : StepRecord → Bool
is_unfinished r = is_cancelled r.error_class

abbrev pub is_partial : StepRecord → Bool
is_partial r = is_done r && r.partial

abbrev pub latency_of : StepRecord → ℕ
latency_of r = r.latency

abbrev pub service_time_of : StepRecord → ℕ
service_time_of r = r.service_time

-- Successes that have the time.
abbrev pub is_there : Option ℕ → Bool
is_there none = false
is_there (some n) = true

abbrev pub is_dispatched : StepRecord → Bool
is_dispatched r = is_success r && is_there r.dispatch

abbrev pub dispatch_of : StepRecord → ℕ
dispatch_of r = or_zero r.dispatch

abbrev pub is_answered : StepRecord → Bool
is_answered r = is_success r && is_there r.ttfr

abbrev pub ttfr_of : StepRecord → ℕ
ttfr_of r = or_zero r.ttfr

abbrev pub scanned_of : StepRecord → ℕ
scanned_of r = or_zero r.scan_count

abbrev pub duration_of : StepRecord → ℕ
duration_of r = or_zero r.run_duration

abbrev pub results_of : StepRecord → ℕ
results_of r = or_zero r.result_count

-- The errors of all classes.
abbrev pub class_total : ByClass → ℕ
class_total [] = 0
class_total ((error, n) ∷ rest) = n + class_total rest

pub class_total-count_class :
    (error : ErrorClass) (n : ℕ) (by_class : ByClass)
    → class_total (count_class error n by_class) ≡ n + class_total by_class
unfolding count_class
class_total-count_class error n [] = refl
class_total-count_class error n ((other, m) ∷ rest) =
    ground (arith, class_total-count_class error n rest)

-- `s` is the aggregate of the records `xs`, in which no cancelled one counts.
pub record IsStepOf (xs : List StepRecord) (s : StepStats) : Type 0 where
  pub executions : s.executions ≡ count is_done xs
  pub errors : s.errors ≡ count is_failure xs
  pub classes : class_total s.errors_by_class ≡ count is_failure xs
  pub partials : s.partial ≡ count is_partial xs
  pub unfinished : s.unfinished ≡ count is_unfinished xs
  pub times : IsSketch (pick is_success latency_of xs) s.latency
  pub failure_times : IsSketch (pick is_failure service_time_of xs) s.failure_latency
  pub service_times : IsSketch (pick is_success service_time_of xs) s.service_time
  pub dispatch_times : IsSketch (pick is_dispatched dispatch_of xs) s.dispatch
  pub first_results : IsSketch (pick is_answered ttfr_of xs) s.ttfr
  pub scanned : s.scan_count_total ≡ sum (pick is_success scanned_of xs)
  pub durations : s.run_duration_total ≡ sum (pick is_success duration_of xs)
  pub results : s.result_count_total ≡ sum (pick is_success results_of xs)

pub IsStepOf-new_stats : (step_id step_class : ℕ) → IsStepOf [] (new_stats step_id step_class)
unfolding new_stats
IsStepOf-new_stats step_id step_class = record {
  executions = refl;
  errors = refl;
  classes = refl;
  partials = refl;
  unfinished = refl;
  times = IsSketch-empty;
  failure_times = IsSketch-empty;
  service_times = IsSketch-empty;
  dispatch_times = IsSketch-empty;
  first_results = IsSketch-empty;
  scanned = refl;
  durations = refl;
  results = refl;
}

pub IsStepOf-add :
    (r : StepRecord) (phase : Option Phase) (xs : List StepRecord) (s : StepStats)
    → IsStepOf xs s
    → IsStepOf (xs ++ r ∷ []) (add r phase s)
unfolding add or_zero
IsStepOf-add r phase xs s t = record {
  executions = ground (arith, count-snoc is_done xs r, t.executions);
  errors = ground (arith, count-snoc is_failure xs r, t.errors);
  classes = ground (
    arith,
    count-snoc is_failure xs r,
    t.classes,
    class_total-count_class (or_client r.error_class) 1 s.errors_by_class,
  );
  partials = ground (arith, count-snoc is_partial xs r, t.partials);
  unfinished = ground (arith, count-snoc is_unfinished xs r, t.unfinished);
  times = IsSketch-snoc is_success latency_of xs r s.latency _ t.times (ground arith);
  failure_times =
      IsSketch-snoc is_failure service_time_of xs r s.failure_latency _ t.failure_times
        (ground arith);
  service_times =
      IsSketch-snoc is_success service_time_of xs r s.service_time _ t.service_times (ground arith);
  dispatch_times =
      IsSketch-snoc is_dispatched dispatch_of xs r s.dispatch _ t.dispatch_times (ground arith);
  first_results = IsSketch-snoc is_answered ttfr_of xs r s.ttfr _ t.first_results (ground arith);
  scanned = ground (arith, sum-pick-snoc is_success scanned_of xs r, t.scanned);
  durations = ground (arith, sum-pick-snoc is_success duration_of xs r, t.durations);
  results = ground (arith, sum-pick-snoc is_success results_of xs r, t.results);
}
