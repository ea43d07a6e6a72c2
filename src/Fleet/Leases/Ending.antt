-- ===== src/Fleet/Leases/Ending.antt =====
-- How the supervisor's loop ends.
use regulator.Prelude.{◌≡◌, true, All}
use regulator.Fleet.Leases.{Session}
use regulator.Fleet.Leases.Watch.{is_over_state}

abbrev pub AreOver : Session → Type 0
AreOver s = All (λ l. is_over_state l.state ≡ true) s.leases
