-- ===== src/Fleet/Summaries/Finish.antt =====
-- The end of `_supervise`: the reports of the leases, sorted into those that are merged and the slots
-- that are lost, the merge, and the state that the run ends in.
use regulator.Prelude.{ℕ, Bool, true, false, Option, none, some, List, [], ◌∷◌, if◌then◌else◌}
use regulator.Histogram.Document.{Parsed, and_then, parsed}
use regulator.Fleet.Leases.{WorkerLease, LeaseState, RunState, is_lost, is_done}
use regulator.Fleet.Summaries.Reports.{RunSummary, MergedRun, Outcome}
use regulator.Fleet.Summaries.Merge.{merge_summaries, is_problem}

-- What the loop over the leases collects.
pub record Collected : Type 0 where
  pub leases : List WorkerLease
  pub summaries : List RunSummary
  pub lost : List ℕ

unfoldable pub keep_lease : WorkerLease → Collected → Collected
keep_lease lease c = record c { leases = lease ∷ c.leases }

unfoldable pub keep_lost : WorkerLease → Collected → Collected
unfolding keep_lease
keep_lost lease c = record (keep_lease lease c) { lost = lease.slot ∷ c.lost }

unfoldable pub keep_report : WorkerLease → RunSummary → Collected → Collected
unfolding keep_lease
keep_report lease s c = record (keep_lease lease c) { summaries = s ∷ c.summaries }

-- A report of a worker that is done: one that cannot be read loses the slot.
unfoldable pub take_report : WorkerLease → RunSummary → Bool → Collected → Collected
unfolding keep_lost keep_report
take_report lease s true rest = keep_lost (record lease { state = LeaseState.lost }) rest
take_report lease s false rest = keep_report lease s rest

module _ (now : ℕ) (stored : ℕ → RunSummary) where
  -- One lease. `stored` gives the document of a report.
  unfoldable pub collect_one : WorkerLease → Option ℕ → Collected → Collected
  unfolding keep_lease keep_lost take_report
  collect_one lease none rest =
      if is_lost lease.state then keep_lost lease rest else keep_lease lease rest
  collect_one lease (some report) rest =
      if is_done lease.state
      then take_report lease (stored report) (is_problem now (stored report)) rest
      else if is_lost lease.state
      then keep_lost lease rest
      else keep_lease lease rest

  unfoldable pub collect : List WorkerLease → Collected
  unfolding collect_one
  collect [] = record { leases = []; summaries = []; lost = [] }
  collect (lease ∷ rest) = collect_one lease lease.summary (collect rest)

-- A merged outcome is never another text, so the last clause is not reached.
unfoldable pub state_of : Outcome → RunState
state_of Outcome.completed = RunState.completed
state_of Outcome.stopped = RunState.stopped
state_of Outcome.aborted = RunState.aborted
state_of Outcome.failed = RunState.failed
state_of (Outcome.other text) = RunState.failed

-- run.state, from the merged report or, where no worker reported, from whether a stop was asked for.
unfoldable pub final_state : Bool → List RunSummary → MergedRun → RunState
unfolding state_of
final_state stop_requested [] merged = if stop_requested then RunState.stopped else RunState.failed
final_state stop_requested (s ∷ rest) merged = state_of merged.outcome

pub record Finished : Type 0 where
  pub state : RunState
  pub leases : List WorkerLease
  pub merged : MergedRun

unfoldable pub finish : ℕ → (ℕ → RunSummary) → Bool → List WorkerLease → Parsed Finished
unfolding collect merge_summaries final_state
finish now stored stop_requested leases =
    let c = collect now stored leases in
    and_then (merge_summaries now c.summaries c.lost) λ merged. parsed (record {
      state = final_state stop_requested c.summaries merged;
      leases = c.leases;
      merged = merged;
    })
