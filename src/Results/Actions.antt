-- ===== src/Results/Actions.antt =====
-- The operations of `RunStats` as a sequence.
use regulator.Prelude.{ℕ, Bool, Option, List, [], ◌∷◌, ◌++◌}
use regulator.Results.{StepRecord}
use regulator.Results.Interval.{IntervalDocument}
use regulator.Results.Run.{
  RunStats, set_epoch, take_interval, record_step, record_loop_lag, record_after_end, freeze, enter,
  leave,
}

-- The operations, with the time of the clock where they read it.
pub data Action : Type 0 where
  recorded : ℕ → StepRecord → Action
  sampled : ℕ → Action
  lagged : ℕ → Action
  entered left : Action
  followed_up : Option ℕ → Bool → Action
  frozen : ℕ → Action
  evicted : ℕ → ℕ → Action

-- The run, and the interval documents that were taken from it.
unfoldable pub act : Action → RunStats × List IntervalDocument → RunStats × List IntervalDocument
unfolding record_step take_interval record_loop_lag enter leave record_after_end freeze set_epoch
act (recorded now r) (s, ds) = (record_step now r s, ds)
act (sampled now) (s, ds) = let (d, s') = take_interval now s in (s', ds ++ d ∷ [])
act (lagged lag) (s, ds) = (record_loop_lag lag s, ds)
act entered (s, ds) = (enter s, ds)
act left (s, ds) = (leave s, ds)
act (followed_up duration finished) (s, ds) = (record_after_end duration finished s, ds)
act (frozen now) (s, ds) = (freeze now s, ds)
act (evicted epoch now) (s, ds) = (set_epoch epoch now s, ds)

unfoldable pub acts :
    List Action → RunStats × List IntervalDocument → RunStats × List IntervalDocument
unfolding act
acts [] state = state
acts (a ∷ rest) state = acts rest (act a state)

-- The records among the actions.
abbrev pub record_of : Action → List StepRecord
record_of (recorded now r) = r ∷ []
record_of _ = []

abbrev pub records_of : List Action → List StepRecord
records_of [] = []
records_of (a ∷ rest) = record_of a ++ records_of rest
