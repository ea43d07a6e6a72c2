-- ===== src/Fleet/Summaries/Reports.antt =====
-- The workers' reports and the merged one.
use regulator.Prelude.{ℕ, Bool, Option, List}
use regulator.Histogram.Reading.{Summary}
use regulator.Results.{ByClass}
use regulator.Results.Snapshot.{Stats}
use regulator.Fleet.Summaries.Steps.{StepOut, EpochOut}
use regulator.Fleet.Plan.{LoadModel}

-- The outcome texts; any other text is kept as it is.
pub data Outcome : Type 0 where
  completed stopped aborted failed : Outcome
  other : ℕ → Outcome

-- A value that int() and float() take, or do not.
pub data Figure : Type 0 where
  number : ℕ → Figure
  not_number : Figure

pub record Configured : Type 0 where
  pub model : Option LoadModel
  pub virtual_users : Option Figure
  pub arrival_rate : Option Figure

-- A worker's `RunSummary`, as it arrives. `well_typed` is whether int(), float() and dict() take all the
-- other values that the merge reads whatever the other reports are.
pub record RunSummary : Type 0 where
  pub outcome : Option Outcome
  pub valid : Bool
  pub invalid_reason : Option ℕ
  pub started_at : Option ℕ
  pub ended_at : Option ℕ
  pub target_url : Option ℕ
  pub self_instrumented : Bool
  pub co_corrected : Bool
  pub load_model : Option LoadModel
  pub peak_virtual_users : Option ℕ
  pub stats : Stats
  pub well_typed : Bool
  pub abort_reason : Option ℕ
  pub scenario_seed : Option ℕ
  pub effective_seed : Option ℕ
  pub scenario_digest : Option ℕ
  pub configured_load : Configured
  pub agent_version : Option ℕ

-- Why a merged run is not valid.
pub data InvalidReason : Type 0 where
  reported : ℕ → InvalidReason
  workers_lost : List ℕ → InvalidReason
  no_report : InvalidReason

pub record MergedStats : Type 0 where
  pub elapsed : ℕ
  pub executions : ℕ
  pub successes : ℕ
  pub iterations_completed : ℕ
  pub errors : ℕ
  pub errors_by_class : ByClass
  pub epochs : List EpochOut
  pub partial : ℕ
  pub abandoned : ℕ
  pub finished_after_end : ℕ
  pub still_running : ℕ
  pub run_duration : Summary
  pub peak_in_flight : ℕ
  pub latency : Summary
  pub failure_latency : Summary
  pub searches_queued : ℕ
  pub job_executions : ℕ
  pub queued_ms : Summary
  pub max_loop_lag : ℕ
  pub max_schedule_debt : ℕ
  pub steps : List StepOut
  pub arrivals_missed : ℕ
  pub arrivals_shed : ℕ
  pub arrivals_skipped : ℕ
  pub workers : ℕ

-- What the merged report says of each worker; none of a lost one.
pub record WorkerRow : Type 0 where
  pub outcome : Option Outcome
  pub valid : Bool
  pub executions : ℕ
  pub errors : ℕ

pub record MergedRun : Type 0 where
  pub outcome : Outcome
  pub valid : Bool
  pub reasons : List InvalidReason
  pub started_at : ℕ
  pub ended_at : ℕ
  pub self_instrumented : Bool
  pub co_corrected : Bool
  pub peak_virtual_users : ℕ
  pub stats : MergedStats
  pub abort_reason : Option ℕ
  pub first : Option RunSummary
  pub configured_workers : ℕ
  pub virtual_users : Option Figure
  pub arrival_rate : Option Figure
  pub workers : List WorkerRow

-- The merged histograms.
pub record Hists : Type 0 where
  pub latency : Summary
  pub failure_latency : Summary
  pub queued : Summary
  pub run_duration : Summary
