-- ===== src/Worker/Route.antt =====
-- A heartbeat over the route of server/regulator_server/routes/agent.py, and how a worker reads the reply.
use regulator.Prelude.{
  ℕ, ◌/◌, Bool, true, false, not, ◌&&◌, ◌||◌, Option, none, some, if◌then◌else◌,
}
use regulator.Fleet.Leases.{
  FleetState, Run, Session, Report, other_report, is_running, finishing, is_terminal,
}
use regulator.Fleet.Leases.Handlers.{
  Reply, Payload, superseded, stop, wait, release, go, SlotLoad, users, rate, heartbeat,
}
use regulator.Worker.Client.{Response, Body, post, heartbeat_path}
use regulator.Worker.{Answer, Posted, answered, Phase, Command}

-- The text of the phase, as the handler reads it.
abbrev pub report_of : Phase → Report
report_of Phase.starting = other_report
report_of Phase.ready = Report.is_ready
report_of Phase.running = is_running
report_of Phase.finishing = finishing

-- The load of a reply, in whole figures.
abbrev pub load_of : Option SlotLoad → Option ℕ
load_of none = none
load_of (some (users n)) = some n
load_of (some (rate n d)) = some (n / d)

abbrev pub blank : Command → Answer
blank command = record {
  command = command;
  t0 = none;
  paused = none;
  load = none;
  epoch = none;
  epoch_started_at = none;
}

-- How a worker reads a reply of the handler, in a run that evicts no cache.
unfoldable pub answer_of : Reply → Answer
answer_of superseded = blank Command.superseded
answer_of stop = blank Command.stop
answer_of wait = blank Command.go_on
answer_of (release t0) = record (blank Command.release) { t0 = some t0 }
answer_of (go paused load) = record (blank Command.go_on) {
  paused = some paused;
  load = load_of load;
}

-- The tests of the route's `_run` (server/regulator_server/routes/agent.py); `finishing_ok` lets a run
-- that is over report as long as its fleet is not finished.
abbrev pub has_finished : Option FleetState → Bool
has_finished (some FleetState.finished) = true
has_finished _ = false

unfoldable pub run_refuses : Bool → Run → Bool
run_refuses finishing_ok run =
    (has_finished run.fleet_state || is_terminal run.state)
    && not (finishing_ok && not (has_finished run.fleet_state))

-- 409, "the run has finished": no word of a lease.
abbrev pub finished_response : Response
finished_response = record { status = 409; says_fenced = false; body = Body.not_json }

-- The request as it is answered over the route.
unfoldable pub route_heartbeat : ℕ → ℕ → ℕ → Option ℕ → Payload → Session → Posted × Session
unfolding heartbeat run_refuses answer_of post
route_heartbeat now delay slot lease_id payload s =
    let (reply, s') = heartbeat now delay slot lease_id payload s in
    if run_refuses true s.run
    then (post heartbeat_path (some finished_response), s)
    else (answered (answer_of reply), s')
