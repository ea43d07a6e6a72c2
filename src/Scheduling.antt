-- ===== src/Scheduling.antt =====
-- worker/regulator_agent/scheduler.py: the load that a worker puts on the target, less its asyncio
-- tasks, and the cron expressions of the schedule model. Times are whole milliseconds. The books of
-- pauses are in Control.
mod Tests
pub mod Ramp
pub mod Open
pub mod Closed
pub mod Population
pub mod ClosedBounds
pub mod Cron
pub mod Firings
pub mod Fields
pub mod Guards
pub mod RampEnd
pub mod RampBounds
pub mod OpenBounds
pub mod Happening
pub mod Verdicts
pub mod Refusals
