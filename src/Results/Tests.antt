-- ===== src/Results/Tests.antt =====
-- Runs of the aggregates on concrete records, and the theorems applied to them.
use regulator.Prelude.{◌≡◌, refl, true, false, some, none, List, [], ◌∷◌}
use regulator.Histogram.Document.{parsed}
use regulator.Results.{StepRecord, search, quota, cancelled}
use regulator.Results.Taken.{
  IsDocumentOf, document-IsDocumentOf, IsIntervalOf-add_to_interval, IsIntervalOf-new_interval,
}
use regulator.Results.Interval.{
  add_to_interval, new_interval, document, IntervalDocument, Merged, merge_intervals,
}
use regulator.Results.Run.{RunStats, new_run}
use regulator.Results.Actions.{
  Action, recorded, sampled, lagged, entered, left, frozen, evicted, acts,
}
use regulator.Results.Live.{IsLive, new_run-IsLive}
use regulator.Results.Merging.{IsMergeOf, merge_intervals-IsMergeOf}

abbrev fast : StepRecord
fast = record {
  step_id = 1;
  step_class = 0;
  step_type = search;
  started_at = 1_000;
  latency = 800;
  service_time = 700;
  late_by = 0;
  dispatch = some 100;
  ttfr = none;
  queued = some 250;
  has_sid = true;
  run_duration = some 600;
  cache_epoch = 0;
  since_evict = none;
  scan_count = some 42;
  result_count = some 3;
  ok = true;
  error_class = none;
  partial = false;
}

abbrev refused : StepRecord
refused = record fast {
  latency = 90;
  service_time = 90;
  queued = none;
  has_sid = false;
  scan_count = none;
  ok = false;
  error_class = some quota;
}

abbrev abandoned : StepRecord
abandoned = record refused { step_id = 2; error_class = some cancelled }

abbrev history : List Action
history =
    entered
    ∷ recorded 5_000 fast
    ∷ left
    ∷ sampled 6_000
    ∷ evicted 1 6_500
    ∷ recorded 7_000 refused
    ∷ lagged 30
    ∷ recorded 7_500 abandoned
    ∷ frozen 8_000
    ∷ sampled 9_000
    ∷ []

abbrev run_of : List Action → RunStats
run_of actions = (acts actions (new_run 0, [])).0

abbrev taken_of : List Action → List IntervalDocument
taken_of actions = (acts actions (new_run 0, [])).1

-- A cancelled record is neither an execution nor an error, and only the successful one has a latency.
history-executions : (run_of history).executions ≡ 2
unfolding acts new_run
history-executions = refl

history-errors : (run_of history).errors ≡ 1
unfolding acts new_run
history-errors = refl

history-abandoned : (run_of history).abandoned ≡ 1
unfolding acts new_run
history-abandoned = refl

new_run-IsLive_example :
    IsLive (fast ∷ refused ∷ abandoned ∷ []) (run_of history) (taken_of history)
new_run-IsLive_example = new_run-IsLive 0 history

-- Two workers' intervals.
abbrev first : IntervalDocument
first = document 6_000 0 0 (add_to_interval fast (new_interval 0))

abbrev second : IntervalDocument
second = document 6_100 0 0 (add_to_interval refused (new_interval 100))

first-IsDocumentOf : IsDocumentOf (fast ∷ []) first
first-IsDocumentOf =
    document-IsDocumentOf 6_000 0 0 (fast ∷ []) (add_to_interval fast (new_interval 0))
      (IsIntervalOf-add_to_interval fast [] (new_interval 0) (IsIntervalOf-new_interval 0))

second-IsDocumentOf : IsDocumentOf (refused ∷ []) second
second-IsDocumentOf =
    document-IsDocumentOf 6_100 0 0 (refused ∷ []) (add_to_interval refused (new_interval 100))
      (IsIntervalOf-add_to_interval refused [] (new_interval 100) (IsIntervalOf-new_interval 100))

merge_intervals-IsMergeOf_example :
    (m : Merged) × (merge_intervals 6_200 (first ∷ second ∷ []) ≡ parsed m)
    × IsMergeOf (fast ∷ refused ∷ []) m
merge_intervals-IsMergeOf_example =
    merge_intervals-IsMergeOf 6_200 (fast ∷ []) ((refused ∷ []) ∷ []) first (second ∷ [])
      first-IsDocumentOf (second-IsDocumentOf, tt)
