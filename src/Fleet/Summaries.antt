-- ===== src/Fleet/Summaries.antt =====
-- server/regulator_server/fleet.py: the workers' final reports, merged into the run's: `merge_summaries`
-- and what the supervisor does with it. Times are whole milliseconds.
mod Tests
pub mod Steps
pub mod Reports
pub mod Merge
pub mod Finish
pub mod Readable
pub mod Grouped
pub mod Success
pub mod Counts
pub mod Verdict
pub mod Shipped
pub mod Whole
