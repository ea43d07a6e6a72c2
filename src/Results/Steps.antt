-- ===== src/Results/Steps.antt =====
-- The steps of a run: each aggregates its own records, and together they add up to the run's.
use regulator.Prelude.{
  ℕ, ◌+◌, ◌≡◌, arith, Bool, true, false, Option, List, [], ◌∷◌, ◌++◌, if◌then◌else◌, Bool-cases,
  inl, inr, ◌==◌, sum, map,
}
use mathlib.Core.Path.{subst}
use mathlib.Core.List.{append-nil}
use regulator.Results.{StepRecord, StepStats, Phase, new_stats, add}
use regulator.Results.Run.{add_to_step}
use regulator.Results.Counting.{
  is_done, is_failure, is_unfinished, IsStepOf, IsStepOf-add, IsStepOf-new_stats,
}

-- The records of one step.
abbrev pub of_step : ℕ → List StepRecord → List StepRecord
of_step id [] = []
of_step id (r ∷ rs) = (if id == r.step_id then r ∷ [] else []) ++ of_step id rs

-- self.steps.get(id), or a fresh aggregate.
unfoldable pub stats_at : ℕ → List (ℕ × StepStats) → StepStats
stats_at id [] = new_stats id 0
stats_at id ((other, stats) ∷ rest) = if id == other then stats else stats_at id rest

of_step-snoc :
    (id : ℕ) (xs : List StepRecord) (r : StepRecord)
    → of_step id (xs ++ r ∷ []) ≡ of_step id xs ++ (if id == r.step_id then r ∷ [] else [])
of_step-snoc id [] r = append-nil _
of_step-snoc id (x ∷ xs) r = elim (Bool-cases (id == x.step_id)) [
  | inl e ↦ rw (e, of_step-snoc id xs r)
  | inr e ↦ rw (e, of_step-snoc id xs r)
]

IsStepOf-new_class :
    (xs : List StepRecord) (id c d : ℕ)
    → IsStepOf xs (new_stats id c)
    → IsStepOf xs (new_stats id d)
unfolding new_stats
IsStepOf-new_class xs id c d t = record {
  executions = t.executions;
  errors = t.errors;
  classes = t.classes;
  partials = t.partials;
  unfinished = t.unfinished;
  times = t.times;
  failure_times = t.failure_times;
  service_times = t.service_times;
  dispatch_times = t.dispatch_times;
  first_results = t.first_results;
  scanned = t.scanned;
  durations = t.durations;
  results = t.results;
}

-- The step of the record takes it in; any other stays.
stats_at-add_to_step :
    (P : StepStats → StepStats → Type 0) (id : ℕ) (r : StepRecord) (phase : Option Phase)
    (steps : List (ℕ × StepStats))
    → ((s : StepStats) → (id == r.step_id) ≡ true → P s (add r phase s))
    → ((id == r.step_id) ≡ true
        → P (new_stats id 0) (add r phase (new_stats r.step_id r.step_class)))
    → ((s : StepStats) → (id == r.step_id) ≡ false → P s s)
    → P (stats_at id steps) (stats_at id (add_to_step r phase steps))
unfolding stats_at add_to_step
stats_at-add_to_step P id r phase [] hit fresh miss = elim (Bool-cases (id == r.step_id)) [
  | inl e ↦ rw e (fresh e)
  | inr e ↦ rw e (miss _ e)
]
stats_at-add_to_step P id r phase ((other, s) ∷ rest) hit fresh miss =
    let ih = stats_at-add_to_step P id r phase rest hit fresh miss in
    elim (Bool-cases (other == r.step_id)) [
      | inl e ↦ elim (Bool-cases (id == other)) [
        | inl d ↦ rw (e, d) (hit s (ground (arith, e, d)))
        | inr d ↦ rw (e, d) (miss _ (ground (arith, e, d)))
      ]
      | inr e ↦ elim (Bool-cases (id == other)) [
        | inl d ↦ rw (e, d) (miss s (ground (arith, e, d)))
        | inr d ↦ rw (e, d) ih
      ]
    ]

pub AreStepsOf : List StepRecord → List (ℕ × StepStats) → Type 0
AreStepsOf xs steps = (id : ℕ) → IsStepOf (of_step id xs) (stats_at id steps)

pub AreStepsOf-nil : AreStepsOf [] []
unfolding AreStepsOf stats_at
AreStepsOf-nil id = IsStepOf-new_stats id 0

pub AreStepsOf-add_to_step :
    (r : StepRecord) (phase : Option Phase) (xs : List StepRecord) (steps : List (ℕ × StepStats))
    → AreStepsOf xs steps
    → AreStepsOf (xs ++ r ∷ []) (add_to_step r phase steps)
unfolding AreStepsOf
AreStepsOf-add_to_step r phase xs steps t id = rw (of_step-snoc id xs r) (
    stats_at-add_to_step
      (λ before after.
        IsStepOf (of_step id xs) before
        → IsStepOf (of_step id xs ++ (if id == r.step_id then r ∷ [] else [])) after)
      id r phase steps (λ s e h. rw e (IsStepOf-add r phase (of_step id xs) s h))
      (λ e h.
        let same : id ≡ r.step_id = ground (arith, e) in
        rw e (
          IsStepOf-add r phase (of_step id xs) _ (
            IsStepOf-new_class (of_step id xs) r.step_id 0 r.step_class
              (subst (λ n. IsStepOf (of_step id xs) (new_stats n 0)) same h))))
      (λ s e h. rw (e, append-nil (of_step id xs)) h) (t id))

abbrev pub executions_of : List (ℕ × StepStats) → List ℕ
executions_of = map (λ (id, s). s.executions)

abbrev pub errors_of : List (ℕ × StepStats) → List ℕ
errors_of = map (λ (id, s). s.errors)

abbrev pub unfinished_of : List (ℕ × StepStats) → List ℕ
unfinished_of = map (λ (id, s). s.unfinished)

abbrev one_if : Bool → ℕ
one_if test = if test then 1 else 0

pub sum-executions_of :
    (r : StepRecord) (phase : Option Phase) (steps : List (ℕ × StepStats))
    → sum (executions_of (add_to_step r phase steps))
      ≡ one_if (is_done r) + sum (executions_of steps)
unfolding add_to_step add new_stats
sum-executions_of r phase [] = ground arith
sum-executions_of r phase ((id, s) ∷ rest) = ground (arith, sum-executions_of r phase rest)

pub sum-errors_of :
    (r : StepRecord) (phase : Option Phase) (steps : List (ℕ × StepStats))
    → sum (errors_of (add_to_step r phase steps)) ≡ one_if (is_failure r) + sum (errors_of steps)
unfolding add_to_step add new_stats
sum-errors_of r phase [] = ground arith
sum-errors_of r phase ((id, s) ∷ rest) = ground (arith, sum-errors_of r phase rest)

pub sum-unfinished_of :
    (r : StepRecord) (phase : Option Phase) (steps : List (ℕ × StepStats))
    → sum (unfinished_of (add_to_step r phase steps))
      ≡ one_if (is_unfinished r) + sum (unfinished_of steps)
unfolding add_to_step add new_stats
sum-unfinished_of r phase [] = ground arith
sum-unfinished_of r phase ((id, s) ∷ rest) = ground (arith, sum-unfinished_of r phase rest)
