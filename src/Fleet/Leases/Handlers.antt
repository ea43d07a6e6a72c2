-- ===== src/Fleet/Leases/Handlers.antt =====
-- The request handlers, in three parts: `claim`, `mark_ready` with `slot_load`, and `heartbeat` with
-- `final`.
mod Claiming
mod Readying
mod Beating
unfoldable pub use Claiming.*
unfoldable pub use Readying.*
unfoldable pub use Beating.*
