-- ===== src/Fleet.antt =====
-- server/regulator_server/fleet.py: a run spread over worker containers. `Plan` splits the load, and
-- `Leases` is the protocol by which workers hold slots.
pub mod Plan
pub mod Leases
pub mod Summaries
