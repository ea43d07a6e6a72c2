-- ===== src/Lib.antt =====
-- Regulator is a load test for Splunk: workers run a scenario's searches and take latencies, and a
-- control plane plans the run over a fleet of workers, starts them together, hears their heartbeats
-- and merges what they report.
--
-- The parts and their files:
-- - Histogram: the latency sketch of worker/regulator_agent/histogram.py. Histogram.antt has the
--   bucket layout (bucket_index, bucket_lower_bound, bucket_width), LatencyHistogram, record_us,
--   merge and merge_all; Histogram/Reading the percentiles and the summary; Histogram/Document the
--   wire form (to_dict, from_dict, merge_dicts). The abstract view is IsSketch (Histogram/Record): a
--   histogram stands for a list of samples, in any order.
-- - Fleet/Plan: the planning of server/regulator_server/fleet.py, `_split_evenly`, `_deal` and `plan`.
-- - Fleet/Leases: the lease protocol of the same file over the rows of models.py. Handlers has claim,
--   mark_ready, heartbeat (`_heartbeat`), slot_load and final; evaluate_release is in Leases. A request
--   is a function from a Session (the run's row and its leases) to an answer and a Session. Watch has
--   a round of the supervisor's loop `_watch`, Launch the leases that launch seeds. Reach is any
--   sequence of requests and rounds.
-- - Guard: worker/regulator_agent/targetguard.py, the guards that watch the target during a run. The
--   search that gives a reading is a parameter.
-- - Compare: worker/regulator_agent/compare.py, the comparison of two run summaries and its gates:
--   Gate has parse_gate and `_evaluate`, Steps `_step_deltas` and `_workload_warnings`, Runs
--   compare_runs. What the regular expressions match is a parameter.
-- - Control: server/regulator_server/runcontrol.py, pause, resume and set_load, with the books that the
--   scheduler (worker/regulator_agent/scheduler.py) keeps of its pauses.
-- - Ceilings: worker/regulator_agent/ceilings.py, the limit of concurrent searches that a run hits
--   first (search_ceilings, `_account`); what the Splunk client answers is a parameter.
-- - Results: worker/regulator_agent/results.py, what a run records. Results.antt has StepRecord and
--   StepStats, Results/Run RunStats and its operations, Results/Interval IntervalStats and
--   merge_intervals, Results/Snapshot the documents that a report ships. A run in use is any sequence
--   of the operations (Results/Actions).
-- - Fleet/Summaries: the end of a fleet's run in server/regulator_server/fleet.py: summary_problem,
--   merge_summaries and the last part of `_supervise`; a final report is Reports.RunSummary.
--   Of the values in it that int(), float() or dict() may refuse, the figures of the configured load are
--   told apart, since which of them is read depends on the other reports; of all the rest it says in one
--   test whether they convert.
-- - Worker: worker/regulator_agent/managed.py. Worker/Client has the requests and `_post_with_backoff`,
--   Worker.antt the heartbeats and what a reply does, Worker/Events all that happens to a member, and
--   Worker/Life the course of run_managed with its exit codes. Worker/Route has the tests of the route
--   server/regulator_server/routes/agent.py, through which a heartbeat passes.
-- - Scheduling: worker/regulator_agent/scheduler.py. Ramp is the target load, Closed the loop of
--   `_run_closed` over the population of virtual users, Open that of `_run_open`, Guards
--   `_check_guards`, `_note_auth` and the outcome of `_summarise`. Scheduling/Cron has the cron
--   expressions of worker/regulator_agent/savedsearches.py by which the schedule model fires.
--
-- How they interact: a plan's slots become the leases; the heartbeats and final reports carry
-- documents of histograms, which merge_dicts brings together. Run control writes the load that
-- slot_load deals out, and the pauses by which `_watch` moves its deadline. A worker's reply to a
-- heartbeat is what the control plane's heartbeat answers (Worker/Released runs both), its scheduler
-- feeds RunStats, and the snapshot of RunStats is the final report that merge_summaries takes.
--
-- Conventions. Times, latencies and loads are numbers of a unit that is small enough, so a float's
-- rounding does not appear; quotients are pairs or whole divisions as the code takes them. Texts that
-- are only compared are numbers. Loops are structural recursion on the lists that the code walks; the
-- supervisor's loop is a sequence of rounds, which the ceiling ends. `_post_with_backoff` runs on as
-- much fuel as the dead-man's time has quarters of a second, and two more: each wait is
-- at least that long. `final` has the four attempts of the code. The loops that grow and shrink the
-- population run on the target and on the number of the active, which each turn brings one nearer, and
-- the values of a cron range on its length.
--
-- Not modelled: the database, HTTP, telemetry, drivers of containers, the engines that
-- talk to Splunk, and the web UI: input and output around these parts. Of the scheduler the schedule
-- model's loop, the tasks of a user and of a step, and the drain; of the saved searches all but cron;
-- the scenario language, the time windows and the server's routes.
pub mod Prelude
pub mod Histogram
pub mod Results
pub mod Ceilings
pub mod Compare
pub mod Control
pub mod Fleet
pub mod Guard
pub mod Worker
pub mod Scheduling
