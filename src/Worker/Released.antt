-- ===== src/Worker/Released.antt =====
-- A fleet member's heartbeat joined with the control plane's answer to it.
use mathlib.Core.Path.{subst}
use regulator.Prelude.{
  ℕ, ◌≡◌, refl, arith, Bool, true, false, not, ◌&&◌, ◌||◌, Option, none, some, ap, sym, ◌∙◌,
  Bool-cases, inl, inr,
}
use regulator.Fleet.Leases.{
  LeaseState, is_over, Session, WorkerLease, Report, find, holder_ok, is_done, is_draining,
  is_terminal,
}
use regulator.Fleet.Leases.Handlers
use regulator.Fleet.Leases.Handlers.{
  Reply, Payload, superseded, stop, wait, release, go, SlotLoad, users, rate, heartbeat, beat_by,
  has_begun, restored,
}
use regulator.Control.{Scheduler}
use regulator.Worker.Client.{post}
use regulator.Worker.{
  is_ready, Worker, Answer, answered, failed, Phase, Command, beat, take_answer, take_epoch, sample,
  obey, follow, is_stop, request_stop, be_superseded,
}
use regulator.Worker.Route.{report_of, answer_of, run_refuses, route_heartbeat}

is_done-restored : (state : LeaseState) → is_done (restored state Report.is_ready) ≡ is_done state
is_done-restored LeaseState.free = refl
is_done-restored LeaseState.claimed = refl
is_done-restored LeaseState.ready = refl
is_done-restored LeaseState.running = refl
is_done-restored LeaseState.done = refl
is_done-restored LeaseState.lost = refl

module _ (now delay : ℕ) where
  beat_by-release :
      (lease : WorkerLease) (s : Session) (t0 : ℕ) (o : Option ℕ)
      → o ≡ some t0
      → is_done lease.state ≡ false
      → (beat_by now delay lease Report.is_ready o s).0 ≡ release t0
  unfolding beat_by
  beat_by-release lease s t0 o e busy = rw (e, beat_by, busy) refl

  beat-release :
      (lease : WorkerLease) (payload : Payload) (s : Session) (t0 : ℕ)
      → (is_draining s.run.fleet_state || is_terminal s.run.state) ≡ false
      → is_done lease.state ≡ false
      → payload.report ≡ Report.is_ready
      → s.run.t0 ≡ some t0
      → (Handlers.beat now delay lease payload s).0 ≡ release t0
  unfolding Handlers.beat
  beat-release lease payload s t0 on busy waiting set =
      rw (on, waiting)
        (beat_by-release (record lease { state = restored lease.state Report.is_ready }) _ t0
          s.run.t0 set (is_done-restored lease.state ∙ busy))

impossible : false ≡ true → ⊥
impossible h = cc

or_true : (a b : Bool) → b ≡ true → (a || b) ≡ true
or_true true b h = refl
or_true false b h = h

-- One heartbeat: the control plane's route and handler, and the worker that reads the reply.
module _ (now delay deadman tick wall slot : ℕ) (lease_id : Option ℕ) (payload : Payload) where
  unfoldable pub exchange : Worker → Session → (Worker × Bool) × Session
  unfolding beat route_heartbeat
  exchange w s =
      let (posted, s') = route_heartbeat now delay slot lease_id payload s in
      (beat deadman now tick wall posted w, s')

  -- The worker reads the reply that the handler gives.
  exchange_reply :
      (w : Worker) (s : Session) (reply : Reply)
      → run_refuses true s.run ≡ false
      → (heartbeat now delay slot lease_id payload s).0 ≡ reply
      → (exchange w s).0 ≡ beat deadman now tick wall (answered (answer_of reply)) w
  unfolding exchange route_heartbeat
  exchange_reply w s reply admitted e =
      rw admitted (ap (λ (r : Reply). beat deadman now tick wall (answered (answer_of r)) w) e)

  -- A heartbeat that the route refuses is one that was missed, and writes nothing.
  pub exchange-refused :
      (w : Worker) (s : Session)
      → run_refuses true s.run ≡ true
      → exchange w s ≡ (beat deadman now tick wall failed w, s)
  unfolding exchange route_heartbeat post
  exchange-refused w s refused = rw refused refl

  module _ (lease : WorkerLease) (s : Session) (held : find slot s.leases ≡ some lease) where
    heartbeat-release :
        (t0 : ℕ)
        → holder_ok lease lease_id ≡ true
        → (is_draining s.run.fleet_state || is_terminal s.run.state) ≡ false
        → is_done lease.state ≡ false
        → payload.report ≡ Report.is_ready
        → s.run.t0 ≡ some t0
        → (heartbeat now delay slot lease_id payload s).0 ≡ release t0
    unfolding heartbeat
    heartbeat-release t0 mine on busy waiting set =
        rw (held, heartbeat, mine) (beat-release now delay lease payload s t0 on busy waiting set)

    heartbeat-stop :
        holder_ok lease lease_id ≡ true
        → (is_draining s.run.fleet_state || is_terminal s.run.state) ≡ true
        → (heartbeat now delay slot lease_id payload s).0 ≡ stop
    unfolding heartbeat Handlers.beat
    heartbeat-stop mine over = rw (held, heartbeat, mine, over) refl

    heartbeat-superseded :
        holder_ok lease lease_id ≡ false
        → (heartbeat now delay slot lease_id payload s).0 ≡ superseded
    unfolding heartbeat
    heartbeat-superseded stale = rw (held, heartbeat, stale) refl

-- What the exchange makes of a worker: the state and the loop that it is in.
abbrev pub IsLetGo : ℕ → Worker × Bool → Type 0
IsLetGo t0 (w, beating) = (w.released ≡ true) × (w.t0 ≡ some t0) × (beating ≡ true)

-- Following the pause and the load touches neither the release nor the stop.
record IsFollowed (before after : Worker) : Type 0 where
  released : after.released ≡ before.released
  t0 : after.t0 ≡ before.t0
  stopped : after.stopped ≡ before.stopped

follow-IsFollowed :
    (tick wall : ℕ) (a : Answer) (o : Option Scheduler) (w : Worker)
    → IsFollowed w (follow tick wall a o w)
unfolding follow
follow-IsFollowed tick wall a none w = record { released = refl; t0 = refl; stopped = refl }
follow-IsFollowed tick wall a (some s) w = elim (Bool-cases (is_stop a.command)) [
  | inl h ↦ rw h record { released = refl; t0 = refl; stopped = refl }
  | inr h ↦ rw h record { released = refl; t0 = refl; stopped = refl }
]

IsLetGo-release :
    (deadman now tick wall t0 : ℕ) (w : Worker)
    → w.phase ≡ Phase.ready
    → IsLetGo t0 (beat deadman now tick wall (answered (answer_of (release t0))) w)
unfolding beat take_answer obey answer_of
IsLetGo-release deadman now tick wall t0 w ready =
    let w1 : Worker = record w {
      stats = take_epoch wall none none (sample wall w.stats);
      last_ack = now;
    } in
    let w2 = obey Command.release (some t0) w1 in
    let f = follow-IsFollowed tick wall (answer_of (release t0)) w2.scheduler w2 in
    (f.released ∙ or_true w.released (is_ready w.phase) (ap is_ready ready), f.t0, refl)

-- A run that is not over is neither draining nor refused.
still_on :
    (s : Session)
    → (is_over s.run.fleet_state || is_terminal s.run.state) ≡ false
    → (is_draining s.run.fleet_state || is_terminal s.run.state) ≡ false
still_on s h = ground (arith, h)

open_run :
    (s : Session)
    → (is_over s.run.fleet_state || is_terminal s.run.state) ≡ false
    → run_refuses true s.run ≡ false
unfolding run_refuses
open_run s h = ground (arith, h)

-- A worker that waits to be released, and whose lease the control plane knows, is released by its next
-- heartbeat that arrives once T0 is set, with that T0, unless the run is over or its lease is done.
pub exchange-IsLetGo :
    (now delay deadman tick wall slot t0 : ℕ) (lease_id : Option ℕ) (payload : Payload)
    (lease : WorkerLease) (w : Worker) (s : Session)
    → find slot s.leases ≡ some lease
    → holder_ok lease lease_id ≡ true
    → (is_over s.run.fleet_state || is_terminal s.run.state) ≡ false
    → is_done lease.state ≡ false
    → s.run.t0 ≡ some t0
    → w.phase ≡ Phase.ready
    → payload.report ≡ report_of w.phase
    → IsLetGo t0 (exchange now delay deadman tick wall slot lease_id payload w s).0
exchange-IsLetGo now delay deadman tick wall slot t0 lease_id payload lease w s held mine on busy
      set ready report =
    subst (IsLetGo t0)
      (sym (
        exchange_reply now delay deadman tick wall slot lease_id payload w s (release t0)
          (open_run s on)
          (heartbeat-release now delay deadman tick wall slot lease_id payload lease s held t0 mine
            (still_on s on) busy (report ∙ ap report_of ready) set)))
      (IsLetGo-release deadman now tick wall t0 w ready)

-- A stopped worker that waits no longer, and whether its lease is superseded.
abbrev pub IsHalted : Bool → Worker × Bool → Type 0
IsHalted fenced_off (w, beating) =
    (w.stopped ≡ true)
    × (w.released ≡ true)
    × (fenced_off ≡ true → w.superseded ≡ true × beating ≡ false)

IsHalted-stop :
    (deadman now tick wall : ℕ) (w : Worker)
    → IsHalted false (beat deadman now tick wall (answered (answer_of stop)) w)
unfolding beat take_answer obey answer_of request_stop
IsHalted-stop deadman now tick wall w =
    let w1 : Worker = record w {
      stats = take_epoch wall none none (sample wall w.stats);
      last_ack = now;
    } in
    let w2 = obey Command.stop none w1 in
    let f = follow-IsFollowed tick wall (answer_of stop) w2.scheduler w2 in
    (f.stopped, f.released, λ h. absurd (impossible h))

IsHalted-superseded :
    (deadman now tick wall : ℕ) (w : Worker)
    → IsHalted true (beat deadman now tick wall (answered (answer_of superseded)) w)
unfolding beat be_superseded answer_of request_stop
IsHalted-superseded deadman now tick wall w = (refl, refl, λ h. (refl, refl))

-- As long as the route admits its run, a worker whose lease another holds is stopped by its next
-- heartbeat that arrives, knows that it is superseded, and beats no more; and one whose run is draining
-- or over is stopped as well. Once the fleet has finished the route refuses the heartbeat, and the
-- worker takes it for one that was missed.
pub exchange-IsHalted :
    (now delay deadman tick wall slot : ℕ) (lease_id : Option ℕ) (payload : Payload)
    (lease : WorkerLease) (w : Worker) (s : Session)
    → find slot s.leases ≡ some lease
    → run_refuses true s.run ≡ false
    → (holder_ok lease lease_id && not (is_draining s.run.fleet_state || is_terminal s.run.state))
      ≡ false
    → IsHalted
        (not (holder_ok lease lease_id))
        (exchange now delay deadman tick wall slot lease_id payload w s).0
exchange-IsHalted now delay deadman tick wall slot lease_id payload lease w s held admitted over =
    elim (Bool-cases (holder_ok lease lease_id)) [
      | inl mine ↦ rw mine (
          subst (IsHalted false)
            (sym (
              exchange_reply now delay deadman tick wall slot lease_id payload w s stop admitted (
                heartbeat-stop now delay deadman tick wall slot lease_id payload lease s held mine
                  (ground (arith, over, mine)))))
            (IsHalted-stop deadman now tick wall w))
      | inr stale ↦ rw stale (
          subst (IsHalted true)
            (sym (
              exchange_reply now delay deadman tick wall slot lease_id payload w s superseded
                admitted
                (heartbeat-superseded now delay deadman tick wall slot lease_id payload lease s held
                  stale)))
            (IsHalted-superseded deadman now tick wall w))
    ]
