-- ===== src/Worker/Life.antt =====
-- `run_managed` from the claim to the exit, with `_exit_code`. What the engine, the scenario and the
-- requests come to are given; which final report is sent, if any, is part of the result.
use regulator.Prelude.{
  ℕ, ◌≡◌, ◌↔◌, refl, arith, Bool, true, false, not, ◌&&◌, ◌||◌, Option, none, some, if◌then◌else◌,
}
use regulator.Fleet.Summaries.Reports.{Outcome, completed, stopped, aborted, failed, other}
use regulator.Worker.Client.{Ended, replied, was_fenced, gave_up}

pub data ExitCode : Type 0 where
  exit_ok exit_failed exit_guard_rail exit_invalid exit_lint exit_superseded uncaught : ExitCode

-- The number of an exit code; an exception that nothing catches ends the process with Python's 1.
abbrev pub code : ExitCode → ℕ
code exit_ok = 0
code exit_failed = 1
code exit_guard_rail = 2
code exit_invalid = 3
code exit_lint = 4
code exit_superseded = 5
code uncaught = 1

-- `_exit_code`
unfoldable pub exit_code : Outcome → Bool → Bool → ExitCode
exit_code outcome valid true = exit_superseded
exit_code failed valid false = exit_failed
exit_code aborted valid false = if not valid then exit_invalid else exit_guard_rail
exit_code completed valid false = if not valid then exit_invalid else exit_ok
exit_code stopped valid false = if not valid then exit_invalid else exit_ok
exit_code (other text) valid false = if not valid then exit_invalid else exit_ok

-- A final report: of a run, or of a worker that never got as far as one (`_failure_summary`).
pub data Sent : Type 0 where
  of_run : Outcome → Bool → Sent
  of_failure : Outcome → Sent

-- A step that goes well, fails in a way that the code reports, or raises what nothing catches.
pub data Step : Type 0 where
  fine refused raised : Step

-- What one life of a worker meets, in the order of `run_managed`.
pub record Course : Type 0 where
  pub claim : Ended
  pub materialised : Step
  pub config : Step
  pub lint_blocks : Bool
  pub stopped_early : Bool
  pub superseded_early : Bool
  pub engine : Step
  pub probe_raises : Bool
  pub target_blocks : Bool
  pub set_up_raises : Bool
  pub ready : Ended
  pub superseded_waiting : Bool
  pub run_raises : Bool
  pub outcome : Outcome
  pub valid : Bool
  pub superseded_late : Bool

abbrev pub is_replied : Ended → Bool
is_replied (replied a) = true
is_replied was_fenced = false
is_replied gave_up = false

-- The waiting and the run: a `ready` that fails, also one that is fenced, is a ControlError.
unfoldable pub run_on : Course → ExitCode × Option Sent
unfolding exit_code
run_on c =
    if not (is_replied c.ready)
    then (exit_failed, none)
    else if c.superseded_waiting
    then (exit_superseded, none)
    else if c.run_raises
    then (uncaught, none)
    else (exit_code c.outcome c.valid c.superseded_late, some (of_run c.outcome c.valid))

-- With an engine: the probe and the validation, the parameters, the emitters and the scheduler.
unfoldable pub set_up : Course → ExitCode × Option Sent
unfolding run_on
set_up c =
    if c.probe_raises
    then (uncaught, none)
    else if c.target_blocks
    then (exit_lint, some (of_failure failed))
    else if c.set_up_raises
    then (uncaught, none)
    else run_on c

unfoldable pub with_engine : Step → Course → ExitCode × Option Sent
unfolding set_up
with_engine fine c = set_up c
with_engine refused c = (exit_failed, some (of_failure failed))
with_engine raised c = (uncaught, none)

unfoldable pub with_config : Step → Course → ExitCode × Option Sent
unfolding with_engine
with_config fine c =
    if c.lint_blocks
    then (exit_lint, some (of_failure failed))
    else if c.stopped_early
    then (if c.superseded_early then exit_superseded else exit_ok, some (of_failure stopped))
    else with_engine c.engine c
with_config refused c = (exit_failed, some (of_failure failed))
with_config raised c = (uncaught, none)

-- After the claim: a claim without a scenario is a ControlError, which is not reported.
unfoldable pub start_up : Step → Course → ExitCode × Option Sent
unfolding with_config
start_up fine c = with_config c.config c
start_up refused c = (exit_failed, none)
start_up raised c = (uncaught, none)

unfoldable pub run_managed : Course → ExitCode × Option Sent
unfolding start_up
run_managed c = if is_replied c.claim then start_up c.materialised c else (exit_failed, none)

abbrev pub is_fine : Step → Bool
is_fine fine = true
is_fine refused = false
is_fine raised = false

abbrev pub is_raised : Step → Bool
is_raised fine = false
is_raised refused = false
is_raised raised = true

-- Whether the worker gets as far as its engine.
abbrev pub is_configured : Course → Bool
is_configured c =
    is_replied c.claim
    && is_fine c.materialised
    && is_fine c.config
    && not c.lint_blocks
    && not c.stopped_early

-- Whether the worker gets as far as its `ready` call.
abbrev pub is_started : Course → Bool
is_started c =
    is_configured c
    && is_fine c.engine
    && not c.probe_raises
    && not c.target_blocks
    && not c.set_up_raises

-- Whether it is left without a run after that.
abbrev pub is_cut_off : Course → Bool
is_cut_off c = not (is_replied c.ready) || c.superseded_waiting

-- Whether an exception ends it that nothing catches, in the order in which the code gets there.
abbrev pub is_broken : Course → Bool
is_broken c =
    (is_replied c.claim
      && (is_raised c.materialised || (is_fine c.materialised && is_raised c.config)))
    || (is_configured c
        && (is_raised c.engine
            || (is_fine c.engine && (c.probe_raises || (not c.target_blocks && c.set_up_raises)))))
    || (is_started c && not (is_cut_off c) && c.run_raises)

abbrev pub is_sent : Option Sent → Bool
is_sent none = false
is_sent (some report) = true

-- A worker sends a final report on every path but these: it got no slot, its claim carried no scenario,
-- an exception that nothing catches ended it, or it had started and its `ready` call failed or its
-- lease was superseded while it waited.
pub run_managed-is_sent :
    (c : Course)
    → is_sent (run_managed c).1 ≡ (
        is_replied c.claim
        && is_fine c.materialised
        && not (is_broken c)
        && not (is_started c && is_cut_off c))
unfolding run_managed start_up with_config with_engine set_up run_on
run_managed-is_sent c = ground arith

-- The exit of a run that was carried out, and what it takes for it to be 0.
abbrev pub is_clean : Outcome → Bool
is_clean failed = false
is_clean aborted = false
is_clean completed = true
is_clean stopped = true
is_clean (other text) = true

exit_code-clean :
    (o : Outcome) (valid superseded : Bool)
    → (exit_code o valid superseded ≡ exit_ok) ↔ ((is_clean o && valid && not superseded) ≡ true)
unfolding exit_code
exit_code-clean o valid true = (λ h. cc, λ h. ground arith)
exit_code-clean failed true false = (λ h. cc, λ h. cc)
exit_code-clean failed false false = (λ h. cc, λ h. cc)
exit_code-clean aborted true false = (λ h. cc, λ h. cc)
exit_code-clean aborted false false = (λ h. cc, λ h. cc)
exit_code-clean completed true false = (λ h. refl, λ h. refl)
exit_code-clean completed false false = (λ h. cc, λ h. cc)
exit_code-clean stopped true false = (λ h. refl, λ h. refl)
exit_code-clean stopped false false = (λ h. cc, λ h. cc)
exit_code-clean (other text) true false = (λ h. refl, λ h. refl)
exit_code-clean (other text) false false = (λ h. cc, λ h. cc)
