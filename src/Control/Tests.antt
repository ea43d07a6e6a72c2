-- ===== src/Control/Tests.antt =====
-- A fleet run and an in-process run under control, and the theorems at them.
use regulator.Prelude.{List, ◌≡◌, refl, true, false, none, some, [], ◌∷◌}
use regulator.Fleet.Plan.{closed}
use regulator.Fleet.Leases.{running, started, active, Run, WorkerLease}
use regulator.Control.{
  Controlled, refuse, accept, over_fleet, over_users, virtual_users, load_entry, Limits,
  require_running, pause, resume, set_load, figure, fleet_model, scheduler_figure, fleet_figure,
}
use regulator.Control.Calls.{
  Call, pausing, resuming, starting, begin_run, stopping, fresh, perform, performed,
}
use regulator.Control.Books.{IsBooked, performed-IsBooked}
use regulator.Control.Loads.{IsWithin, set_load-IsWithin}

program : Unit {0}
unfolding require_running pause resume set_load figure fleet_model scheduler_figure fleet_figure
    fresh perform performed begin_run
program = tt

abbrev row : Run
row = record {
  state = started;
  fleet_state = some active;
  t0 = some 3;
  started_at = some 3;
  paused_at = none;
  paused_s = 5;
  load_override = none;
  has_error = false;
}

abbrev lease : WorkerLease
lease = record {
  slot = 0;
  engine = 0;
  group = 0;
  model = closed;
  lease_id = some 100;
  holder = some 7;
  state = running;
  last_heartbeat_at = some 9;
  claimed_at = some 1;
  restarts = 0;
  stats = none;
  summary = none;
  log_tail = [];
}

abbrev fleet : Controlled
fleet = record {
  session = record { run = row; leases = lease ∷ []; supervised = true; intervals = [] };
  in_process = false;
  entry = none;
  controls = [];
}

abbrev limits : Limits
limits = record { max_virtual_users = 20; vus_per_worker = 8; browser_contexts_per_worker = 2 }

fleet_controllable : require_running fleet ≡ accept none
unfolding program
fleet_controllable = refl

abbrev loaded_fleet : Controlled
loaded_fleet = record fleet {
  session = record (fleet.session) { run = record row { load_override = some 6 } };
  controls = (11, load_entry virtual_users 6) ∷ [];
}

load_accepted : set_load limits 11 (some 6) fleet ≡ accept (loaded_fleet, virtual_users)
unfolding program
load_accepted = refl

load_refused : set_load limits 11 (some 9) fleet ≡ refuse over_fleet
unfolding program
load_refused = refl

set_load-IsWithin_example :
    (loaded_fleet.session.run.load_override ≡ some 6)
    × (loaded_fleet.session.leases ≡ fleet.session.leases)
    × IsWithin limits 6 fleet virtual_users
set_load-IsWithin_example = set_load-IsWithin limits 11 6 fleet load_accepted

local_refused :
    set_load limits 11
      (some 21)
      (record fleet { in_process = true; entry = some (some (fresh closed)) })
    ≡ refuse over_users
unfolding program
local_refused = refl

-- A pause that is on as the run begins counts from then.
abbrev calls : List Call
calls = stopping ∷ resuming 9 19 ∷ pausing 5 15 ∷ resuming 4 13 ∷ starting 3 12 ∷ pausing 2 11 ∷ []

calls_paused : (performed closed calls).stats_paused ≡ 5
unfolding program
calls_paused = refl

performed-IsBooked_example : IsBooked calls (performed closed calls)
performed-IsBooked_example = performed-IsBooked closed calls
