-- ===== src/Fleet/Summaries/Tests.antt =====
-- The merge of concrete reports, and the theorems applied to them.
use regulator.Prelude.{
  all, ℕ, ◌+◌, ◌==◌, if◌then◌else◌, ◌≡◌, refl, true, false, not, ◌&&◌, Option, some, none, List, [],
  ◌∷◌,
}
use regulator.Histogram.Document.{Document, parsed, from_dict}
use regulator.Results.{StepRecord, search, quota}
use regulator.Results.Run.{RunStats, new_run}
use regulator.Results.Actions.{Action, recorded, acts, records_of}
use regulator.Results.Live.{new_run-IsLive}
use regulator.Results.Snapshot.{Stats, Histograms, snapshot}
use regulator.Fleet.Plan.{LoadModel}
use regulator.Fleet.Leases.{WorkerLease, LeaseState}
use regulator.Fleet.Summaries.Reports.{number, not_number, RunSummary, MergedRun, Outcome}
use regulator.Fleet.Summaries.Merge.{merge_summaries, is_problem, has_figure, model_of}
use regulator.Fleet.Summaries.Finish.{finish, collect}
use regulator.Fleet.Summaries.Readable.{is_parsed}
use regulator.Fleet.Summaries.Success.{is_parsed-merge_summaries, is_parsed-finish}
use regulator.Fleet.Summaries.Shipped.{IsReportOf}
use regulator.Fleet.Summaries.Whole.{IsWholeOf, merge_summaries-IsWholeOf}

abbrev success : StepRecord
success = record {
  step_id = 1;
  step_class = 0;
  step_type = search;
  started_at = 1_000;
  latency = 800;
  service_time = 700;
  late_by = 0;
  dispatch = some 100;
  ttfr = none;
  queued = some 250;
  has_sid = true;
  run_duration = some 600;
  cache_epoch = 0;
  since_evict = none;
  scan_count = some 42;
  result_count = some 3;
  ok = true;
  error_class = none;
  partial = false;
}

abbrev failure : StepRecord
failure = record success { ok = false; error_class = some quota; service_time = 90 }

abbrev run_of : List Action → RunStats
run_of actions = (acts actions (new_run 0, [])).0

abbrev history : List Action
history = recorded 5_000 success ∷ recorded 6_000 failure ∷ []

abbrev brief : List Action
brief = recorded 5_500 success ∷ []

-- A worker's report of its run.
abbrev report : Outcome → List Action → RunSummary
report outcome actions = record {
  outcome = some outcome;
  valid = true;
  invalid_reason = none;
  started_at = some 1;
  ended_at = some 9_000;
  target_url = none;
  self_instrumented = false;
  co_corrected = true;
  load_model = some LoadModel.closed;
  peak_virtual_users = some 2;
  stats = snapshot 9_000 (run_of actions);
  well_typed = true;
  abort_reason = none;
  scenario_seed = none;
  effective_seed = none;
  scenario_digest = none;
  configured_load = record {
    model = some LoadModel.closed;
    virtual_users = some (number 2);
    arrival_rate = none;
  };
  agent_version = none;
}

abbrev first : RunSummary
first = report Outcome.completed history

abbrev second : RunSummary
second = report Outcome.stopped brief

report-IsReportOf :
    (outcome : Outcome) (actions : List Action)
    → IsReportOf (records_of actions) (report outcome actions)
report-IsReportOf outcome actions = record {
  ended = 9_000;
  run = run_of actions;
  recorded = (new_run-IsLive 0 actions).run;
  shipped = refl;
  typed = refl;
}

merge_summaries-IsWholeOf_example :
    (m : MergedRun) × (merge_summaries 9_500 (first ∷ second ∷ []) (7 ∷ []) ≡ parsed m)
    × IsWholeOf (success ∷ failure ∷ success ∷ []) m
merge_summaries-IsWholeOf_example =
    merge_summaries-IsWholeOf 9_500 (records_of history ∷ records_of brief ∷ [])
      (first ∷ second ∷ []) (7 ∷ [])
      (report-IsReportOf Outcome.completed history, (report-IsReportOf Outcome.stopped brief, tt))

-- A report of another build's histograms, which this one cannot read.
abbrev foreign : Document
foreign = record {
  v = some 2;
  bits = some 6;
  count = some 1;
  total = some 800;
  minimum = some 800;
  maximum = some 800;
  items = some [];
}

abbrev no_histograms : Histograms
no_histograms = record {
  latency = none;
  failure_latency = none;
  queued = none;
  loop_lag = none;
  drift = none;
  after_end_run_duration = none;
  steps = [];
  epochs = [];
}

-- A report with no figures but the count of its executions.
abbrev bare_stats : ℕ → Histograms → Stats
bare_stats executions h = record {
  elapsed = none;
  executions = some executions;
  iterations_completed = none;
  errors = none;
  errors_by_class = [];
  partial = none;
  abandoned = none;
  finished_after_end = none;
  still_running = none;
  in_flight = none;
  peak_in_flight = none;
  searches_queued = none;
  queueing_jobs = none;
  job_executions = none;
  max_loop_lag = none;
  max_schedule_debt = none;
  steps = [];
  epochs = [];
  arrivals_missed = none;
  arrivals_shed = none;
  arrivals_skipped = none;
  histograms = h;
}

abbrev unreadable : RunSummary
unreadable = record first { stats = bare_stats 5 (record no_histograms { latency = some foreign }) }

abbrev bare : RunSummary
bare = record first { stats = bare_stats 5 no_histograms }

unreadable_problem : is_problem 9_500 unreadable ≡ true
unfolding is_problem from_dict
unreadable_problem = refl

bare_fine : is_problem 9_500 bare ≡ false
unfolding is_problem
bare_fine = refl

is_parsed-merge_summaries_example :
    is_parsed (merge_summaries 9_500 (bare ∷ unreadable ∷ []) [])
    ≡ (not (is_problem 9_500 bare) && (not (is_problem 9_500 unreadable) && true))
is_parsed-merge_summaries_example =
    is_parsed-merge_summaries 9_500 (bare ∷ unreadable ∷ []) [] (refl, (refl, tt))

abbrev lease : ℕ → Option ℕ → WorkerLease
lease slot summary = record {
  slot = slot;
  engine = 0;
  group = 0;
  model = LoadModel.closed;
  lease_id = some (slot + 10);
  holder = some (slot + 20);
  state = LeaseState.done;
  last_heartbeat_at = some 9_000;
  claimed_at = some 0;
  restarts = 0;
  stats = none;
  summary = summary;
  log_tail = [];
}

-- The first slot's report cannot be read.
abbrev stored : ℕ → RunSummary
stored document = if document == 0 then unreadable else bare

-- A report of an open run whose users are no number: alone it is no problem, and after that of a closed
-- run it makes the merge fail.
abbrev mixed : RunSummary
mixed = record bare {
  configured_load = record {
    model = some LoadModel.opened;
    virtual_users = some not_number;
    arrival_rate = none;
  };
}

mixed_fine : is_problem 9_500 mixed ≡ false
unfolding is_problem
mixed_fine = refl

mixed_fails : is_parsed (merge_summaries 9_500 (bare ∷ mixed ∷ []) []) ≡ false
unfolding merge_summaries
mixed_fails = refl

is_parsed-finish_example :
    is_parsed (finish 9_500 stored false (lease 0 (some 0) ∷ lease 1 (some 1) ∷ []))
    ≡ all
        (has_figure
          (model_of (collect 9_500 stored (lease 0 (some 0) ∷ lease 1 (some 1) ∷ [])).summaries))
        (collect 9_500 stored (lease 0 (some 0) ∷ lease 1 (some 1) ∷ [])).summaries
is_parsed-finish_example =
    is_parsed-finish 9_500 stored false (lease 0 (some 0) ∷ lease 1 (some 1) ∷ [])

-- The merge of the two runs, with slot 7 lost.
abbrev merged :
    (m : MergedRun) × (merge_summaries 9_500 (first ∷ second ∷ []) (7 ∷ []) ≡ parsed m)
    × IsWholeOf (success ∷ failure ∷ success ∷ []) m
merged =
    merge_summaries-IsWholeOf 9_500 (records_of history ∷ records_of brief ∷ [])
      (first ∷ second ∷ []) (7 ∷ [])
      (report-IsReportOf Outcome.completed history, (report-IsReportOf Outcome.stopped brief, tt))
