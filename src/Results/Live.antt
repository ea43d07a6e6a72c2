-- ===== src/Results/Live.antt =====
-- A run as the agent drives it: any sequence of the operations of `RunStats`.
use mathlib.Core.Path.{subst}
use mathlib.Core.List.{append-nil, append_assoc}
use regulator.Prelude.{
  ℕ, ◌≤◌, ◌≡◌, refl, arith, Bool, true, false, Option, List, [], ◌∷◌, ◌++◌, sym, Bool-cases,
  and_true, inl, inr, ◌==◌, leb, concat,
}
use regulator.Results.{StepRecord}
use regulator.Results.Interval.{IntervalDocument, add_to_interval}
use regulator.Results.Run.{
  RunStats, new_run, set_epoch, take_interval, record_step, count_run, stamp, record_loop_lag,
  record_after_end, freeze, enter, leave,
}
use regulator.Results.Counting.{count_le_count, is_done, is_failure}
use regulator.Results.Kept.{totals_of, IsRunOf-kept}
use regulator.Results.Actions.{
  Action, recorded, sampled, lagged, entered, left, followed_up, frozen, evicted, act, acts,
  record_of, records_of,
}
use regulator.Results.Totals.{IsRunOf, IsRunOf-new_run, IsRunOf-record_step}
use regulator.Results.Taken.{
  IsIntervalOf, IsIntervalOf-new_interval, IsIntervalOf-lag, IsIntervalOf-add_to_interval,
  IsDocumentOf, document-IsDocumentOf, AreDocumentsOf,
}

-- The state after the records `xs`: the run stands for all of them, and the documents and the
-- current interval share them out.
pub record IsLive (xs : List StepRecord) (s : RunStats) (ds : List IntervalDocument) : Type 0 where
  pub run : IsRunOf xs s
  pub taken : List (List StepRecord)
  pub current : List StepRecord
  pub whole : xs ≡ concat taken ++ current
  pub documents : AreDocumentsOf taken ds
  pub interval : IsIntervalOf current s.interval

-- An operation that leaves the totals and the interval.
IsLive-kept :
    (xs : List StepRecord) (s s' : RunStats) (ds : List IntervalDocument)
    → totals_of s ≡ totals_of s'
    → s'.in_flight ≤ s'.peak_in_flight
    → s.interval ≡ s'.interval
    → IsLive xs s ds
    → IsLive xs s' ds
IsLive-kept xs s s' ds e peak i t = record {
  run = IsRunOf-kept xs s s' e peak t.run;
  taken = t.taken;
  current = t.current;
  whole = t.whole;
  documents = t.documents;
  interval = subst (IsIntervalOf t.current) i t.interval;
}

record_step-interval :
    (now : ℕ) (r : StepRecord) (s : RunStats)
    → (record_step now r s).interval ≡ add_to_interval r s.interval
unfolding record_step count_run stamp add_to_interval
record_step-interval now r s = ground arith

IsLive-record_step :
    (now : ℕ) (r : StepRecord) (xs : List StepRecord) (s : RunStats) (ds : List IntervalDocument)
    → IsLive xs s ds
    → IsLive (xs ++ r ∷ []) (record_step now r s) ds
IsLive-record_step now r xs s ds t = record {
  run = IsRunOf-record_step now r xs s t.run;
  taken = t.taken;
  current = t.current ++ r ∷ [];
  whole = rw t.whole (append_assoc (concat t.taken) t.current (r ∷ []));
  documents = t.documents;
  interval =
      subst (IsIntervalOf (t.current ++ r ∷ [])) (sym (record_step-interval now r s))
        (IsIntervalOf-add_to_interval r t.current s.interval t.interval);
}

AreDocumentsOf-snoc :
    (xss : List (List StepRecord)) (ds : List IntervalDocument) (xs : List StepRecord)
    (d : IntervalDocument)
    → AreDocumentsOf xss ds
    → IsDocumentOf xs d
    → AreDocumentsOf (xss ++ xs ∷ []) (ds ++ d ∷ [])
AreDocumentsOf-snoc [] [] xs d a t = (t, tt)
AreDocumentsOf-snoc [] (e ∷ ds) xs d a t = elim a [ ]
AreDocumentsOf-snoc (ys ∷ xss) [] xs d a t = elim a [ ]
AreDocumentsOf-snoc (ys ∷ xss) (e ∷ ds) xs d (u, a) t = (u, AreDocumentsOf-snoc xss ds xs d a t)

concat-snoc :
    (xss : List (List StepRecord)) (xs : List StepRecord)
    → concat (xss ++ xs ∷ []) ≡ concat xss ++ xs
concat-snoc [] xs = append-nil xs
concat-snoc (ys ∷ xss) xs = rw (concat-snoc xss xs) (sym (append_assoc ys (concat xss) xs))

IsLive-take_interval :
    (now : ℕ) (xs : List StepRecord) (s : RunStats) (ds : List IntervalDocument)
    → IsLive xs s ds
    → IsLive xs (take_interval now s).1 (ds ++ (take_interval now s).0 ∷ [])
unfolding take_interval
IsLive-take_interval now xs s ds t = record {
  run = IsRunOf-kept xs s _ refl t.run.peak t.run;
  taken = t.taken ++ t.current ∷ [];
  current = [];
  whole = rw (concat-snoc t.taken t.current, append-nil (concat t.taken ++ t.current)) t.whole;
  documents =
      AreDocumentsOf-snoc t.taken ds t.current _ t.documents
        (document-IsDocumentOf now s.in_flight s.epoch t.current s.interval t.interval);
  interval = IsIntervalOf-new_interval now;
}

IsLive-record_loop_lag :
    (lag : ℕ) (xs : List StepRecord) (s : RunStats) (ds : List IntervalDocument)
    → IsLive xs s ds
    → IsLive xs (record_loop_lag lag s) ds
unfolding record_loop_lag
IsLive-record_loop_lag lag xs s ds t = elim (Bool-cases (lag == 0)) [
  | inl e ↦ rw e t
  | inr e ↦ rw e record {
    run = IsRunOf-kept xs s _ refl t.run.peak t.run;
    taken = t.taken;
    current = t.current;
    whole = t.whole;
    documents = t.documents;
    interval = IsIntervalOf-lag lag t.current s.interval t.interval;
  }
]

IsLive-record_after_end :
    (duration : Option ℕ) (finished : Bool) (xs : List StepRecord) (s : RunStats)
    (ds : List IntervalDocument)
    → IsLive xs s ds
    → IsLive xs (record_after_end duration finished s) ds
unfolding record_after_end
IsLive-record_after_end duration true xs s ds t = IsLive-kept xs s _ ds refl t.run.peak refl t
IsLive-record_after_end duration false xs s ds t = IsLive-kept xs s _ ds refl t.run.peak refl t

IsLive-set_epoch :
    (epoch now : ℕ) (xs : List StepRecord) (s : RunStats) (ds : List IntervalDocument)
    → IsLive xs s ds
    → IsLive xs (set_epoch epoch now s) ds
unfolding set_epoch
IsLive-set_epoch epoch now xs s ds t = elim (Bool-cases (leb epoch s.epoch)) [
  | inl e ↦ rw e t
  | inr e ↦ rw e (IsLive-kept xs s _ ds refl t.run.peak refl t)
]

pub IsLive-act :
    (a : Action) (xs : List StepRecord) (s : RunStats) (ds : List IntervalDocument)
    → IsLive xs s ds
    → IsLive (xs ++ record_of a) (act a (s, ds)).0 (act a (s, ds)).1
unfolding act enter leave freeze
IsLive-act (recorded now r) xs s ds t = IsLive-record_step now r xs s ds t
IsLive-act (sampled now) xs s ds t = rw (append-nil xs) (IsLive-take_interval now xs s ds t)
IsLive-act (lagged lag) xs s ds t = rw (append-nil xs) (IsLive-record_loop_lag lag xs s ds t)
IsLive-act entered xs s ds t = rw (append-nil xs) (IsLive-kept xs s _ ds refl (ground arith) refl t)
IsLive-act left xs s ds t =
    rw (append-nil xs) (IsLive-kept xs s _ ds refl (omega (arith, t.run.peak)) refl t)
IsLive-act (followed_up duration finished) xs s ds t =
    rw (append-nil xs) (IsLive-record_after_end duration finished xs s ds t)
IsLive-act (frozen now) xs s ds t =
    rw (append-nil xs) (IsLive-kept xs s _ ds refl t.run.peak refl t)
IsLive-act (evicted epoch now) xs s ds t = rw (append-nil xs) (IsLive-set_epoch epoch now xs s ds t)

IsLive-acts :
    (actions : List Action) (xs : List StepRecord) (s : RunStats) (ds : List IntervalDocument)
    → IsLive xs s ds
    → IsLive (xs ++ records_of actions) (acts actions (s, ds)).0 (acts actions (s, ds)).1
unfolding acts
IsLive-acts [] xs s ds t = rw (append-nil xs) t
IsLive-acts (a ∷ rest) xs s ds t =
    subst (λ ys. IsLive ys (acts (a ∷ rest) (s, ds)).0 (acts (a ∷ rest) (s, ds)).1)
      (append_assoc xs (record_of a) (records_of rest))
      (IsLive-acts rest (xs ++ record_of a) _ _ (IsLive-act a xs s ds t))

IsLive-new_run : (now : ℕ) → IsLive [] (new_run now) []
unfolding new_run
IsLive-new_run now = record {
  run = IsRunOf-new_run now;
  taken = [];
  current = [];
  whole = refl;
  documents = tt;
  interval = IsIntervalOf-new_interval now;
}

-- Whatever is done to a run from its start, in any order: its counters are the counts of the records,
-- and its histograms of latencies, failures, queueing and drift are sketches of their times. Each step
-- counts the records of its own, and its histograms of latencies, service times, dispatches, first
-- results and failures are sketches of theirs, the parts of a cycled cache aside. The steps add up to
-- the run, and the interval documents that were taken and the current interval share out the records
-- without a loss or a repetition.
pub new_run-IsLive :
    (start : ℕ) (actions : List Action)
    → IsLive
        (records_of actions)
        (acts actions (new_run start, [])).0
        (acts actions (new_run start, [])).1
new_run-IsLive start actions = IsLive-acts actions [] (new_run start) [] (IsLive-new_run start)

-- A run never counts more errors than executions, so that `successes` is not negative, and the same
-- holds of each of its steps.
pub errors-le-executions :
    (start : ℕ) (actions : List Action)
    → (acts actions (new_run start, [])).0.errors ≤ (acts actions (new_run start, [])).0.executions
errors-le-executions start actions =
    let t = new_run-IsLive start actions in
    omega (
      arith,
      t.run.executions,
      t.run.errors,
      count_le_count is_failure is_done (λ r h. (and_true (is_done r) _ h).0) (records_of actions),
    )
