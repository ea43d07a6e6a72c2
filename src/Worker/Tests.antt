-- ===== src/Worker/Tests.antt =====
-- A fleet member on concrete events, and the theorems applied to it.
use regulator.Prelude.{
  ℕ, ◌≡◌, ◌==◌, refl, arith, true, false, not, ◌&&◌, ◌||◌, none, some, List, [], ◌∷◌, if◌then◌else◌,
}
use regulator.Fleet.Plan.{LoadModel}
use regulator.Fleet.Leases.{
  LeaseState, RunState, FleetState, WorkerLease, Session, Report, find, holder_ok, is_draining,
  is_terminal,
}
use regulator.Fleet.Leases.Handlers.{Payload}
use regulator.Fleet.Summaries.Reports.{Outcome}
use regulator.Control.{Scheduler}
use regulator.Results.Run.{new_run}
use regulator.Worker.{Worker, Answer, answered, failed, fenced, new_worker, Phase}
use regulator.Worker.Client.{
  Attempt, Ended, replied, gave_up, was_fenced, post_with_backoff, blank, delay, final, post,
  Response, Body, ready_path, claim_path,
}
use regulator.Worker.Backoff.{IsEnd, post_with_backoff-IsEnd}
use regulator.Worker.Events.{
  Event, beaten, signalled, prepared, made_ready, ready_replied, let_go, happened,
}
use regulator.Worker.Consistent.{IsConsistent, happened-IsConsistent}
use regulator.Worker.Route.{run_refuses}
use regulator.Worker.Released.{exchange, IsLetGo, IsHalted, exchange-IsLetGo, exchange-IsHalted}
use regulator.Worker.Life.{
  Course, fine, is_fine, is_broken, run_managed, is_sent, is_replied, is_started, is_cut_off,
  run_managed-is_sent, exit_ok, exit_failed, Sent,
}

abbrev scheduler : Scheduler
scheduler = record {
  model = LoadModel.closed;
  stopping = false;
  paused_since = none;
  paused_total = 0;
  pauses = [];
  stats_paused_since = none;
  stats_paused = 0;
  load_override = none;
  load_changes = [];
}

-- Stopped by a signal before its scheduler is there.
abbrev events : List Event
events =
    beaten 1_000 0 5_000 (answered blank)
    ∷ signalled
    ∷ prepared scheduler (new_run 5_500)
    ∷ made_ready
    ∷ ready_replied (record blank { t0 = some 9_000 })
    ∷ let_go
    ∷ beaten 90_000 0 94_000 failed
    ∷ []

happened-IsConsistent_example : IsConsistent (happened 60_000 events (new_worker 0, true)).0
happened-IsConsistent_example = happened-IsConsistent 60_000 0 events

-- Two failures, and then a reply.
abbrev network : ℕ → Attempt
network k = record { posted = if k == 2 then answered blank else failed; took = 40; jitter = 1_000 }

network_reply : post_with_backoff 30_000 network ≡ some (replied blank)
unfolding post_with_backoff
network_reply = refl

-- No network at all.
abbrev silence : ℕ → Attempt
silence k = record { posted = failed; took = 40; jitter = 1_000 }

silence_end : post_with_backoff 2_000 silence ≡ some gave_up
unfolding post_with_backoff delay
silence_end = refl

post_with_backoff-IsEnd_example :
    (r : Ended) × (post_with_backoff 2_000 silence ≡ some r) × IsEnd silence 2_000 r
post_with_backoff-IsEnd_example = post_with_backoff-IsEnd 2_000 silence (λ i. omega arith)

-- The delivery of the final report is tried four times.
final_delivered : final (λ k. if k == 3 then answered blank else failed) ≡ true
unfolding final
final_delivered = refl

final_lost : final (λ k. if k == 4 then answered blank else failed) ≡ false
unfolding final
final_lost = refl

-- A 409 that speaks of the holder fences a ready call, and not a claim.
abbrev conflict : Response
conflict = record { status = 409; says_fenced = true; body = Body.not_json }

conflict_ready : post ready_path (some conflict) ≡ fenced
unfolding post
conflict_ready = refl

conflict_claim : post claim_path (some conflict) ≡ failed
unfolding post
conflict_claim = refl

abbrev lease : WorkerLease
lease = record {
  slot = 0;
  engine = 0;
  group = 0;
  model = LoadModel.closed;
  lease_id = some 10;
  holder = some 20;
  state = LeaseState.ready;
  last_heartbeat_at = some 9_000;
  claimed_at = some 0;
  restarts = 0;
  stats = none;
  summary = none;
  log_tail = [];
}

abbrev payload : Payload
payload = record { stats = none; interval = none; report = Report.is_ready }

abbrev waiting : Worker
waiting = record (new_worker 0) { phase = Phase.ready; scheduler = some scheduler }

-- A fleet that is released, seen by the holder of its slot and by another worker.
abbrev session : Session
session = record {
  run = record {
    state = RunState.pending;
    fleet_state = some FleetState.releasing;
    t0 = some 12_000;
    started_at = none;
    paused_at = none;
    paused_s = 0;
    load_override = none;
    has_error = false;
  };
  leases = lease ∷ [];
  supervised = true;
  intervals = [];
}

lease_found : find 0 session.leases ≡ some lease
unfolding find
lease_found = refl

own_lease : holder_ok lease (some 10) ≡ true
own_lease = refl

other_lease :
    (holder_ok lease (some 11)
      && not (is_draining session.run.fleet_state || is_terminal session.run.state))
    ≡ false
other_lease = refl

admitted : run_refuses true session.run ≡ false
unfolding run_refuses
admitted = refl

-- A heartbeat of a run that has finished is refused, and the worker goes on waiting.
finished_waits :
    let finished : Session = record session {
      run = record (session.run) {
        state = RunState.completed;
        fleet_state = some FleetState.finished;
      };
    } in
    let (w, beating) =
      (exchange 9_500 5_000 60_000 0 9_500 0 (some 10) payload waiting finished).0 in
    (w.stopped ≡ false) × (w.released ≡ false) × (beating ≡ true)
unfolding exchange new_worker
finished_waits = (refl, refl, refl)

exchange-IsLetGo_example :
    IsLetGo 12_000 (exchange 9_500 5_000 60_000 0 9_500 0 (some 10) payload waiting session).0
exchange-IsLetGo_example =
    exchange-IsLetGo 9_500 5_000 60_000 0 9_500 0 12_000 (some 10) payload lease waiting session
      lease_found own_lease refl refl refl refl refl

exchange-IsHalted_example :
    IsHalted
      (not (holder_ok lease (some 11)))
      (exchange 9_500 5_000 60_000 0 9_500 0 (some 11) payload waiting session).0
exchange-IsHalted_example =
    exchange-IsHalted 9_500 5_000 60_000 0 9_500 0 (some 11) payload lease waiting session
      lease_found admitted other_lease

-- A reply that pauses the run and changes its load.
abbrev paused_reply : Answer
paused_reply = record blank { paused = some true; load = some 8 }

-- A life in which the lease is fenced when the worker calls ready: it exits with 1, although the code
-- has 5 for a lease that is superseded.
abbrev fenced_ready : Course
fenced_ready = record {
  claim = replied blank;
  materialised = fine;
  config = fine;
  lint_blocks = false;
  stopped_early = false;
  superseded_early = false;
  engine = fine;
  probe_raises = false;
  target_blocks = false;
  set_up_raises = false;
  ready = was_fenced;
  superseded_waiting = false;
  run_raises = false;
  outcome = Outcome.completed;
  valid = true;
  superseded_late = false;
}

fenced_ready_exit : run_managed fenced_ready ≡ (exit_failed, none)
unfolding run_managed
fenced_ready_exit = refl

-- A run that was stopped exits with 0.
stopped_exit :
    run_managed (record fenced_ready { ready = replied blank; outcome = Outcome.stopped })
    ≡ (exit_ok, some (Sent.of_run Outcome.stopped true))
unfolding run_managed
stopped_exit = refl

run_managed-is_sent_example : is_sent (run_managed fenced_ready).1 ≡ (
    is_replied fenced_ready.claim
    && is_fine fenced_ready.materialised
    && not (is_broken fenced_ready)
    && not (is_started fenced_ready && is_cut_off fenced_ready))
run_managed-is_sent_example = run_managed-is_sent fenced_ready
