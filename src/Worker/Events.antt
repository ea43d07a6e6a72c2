-- ===== src/Worker/Events.antt =====
-- What happens to a fleet member in the course of `run_managed`, beside its heartbeats and the signals.
use regulator.Prelude.{
  ℕ, Bool, true, false, not, ◌&&◌, ◌||◌, Option, none, some, List, [], ◌∷◌, if◌then◌else◌,
}
use regulator.Control.{Scheduler}
use regulator.Results.Run.{RunStats}
use regulator.Worker.{
  Worker, Answer, Posted, ready, running, finishing, by_signal, request_stop, stop_scheduler,
  or_held, beat,
}

pub data Event : Type 0 where
  beaten : (now tick wall : ℕ) → Posted → Event
  signalled : Event
  prepared : Scheduler → RunStats → Event
  made_ready : Event
  ready_replied : Answer → Event
  let_go : Event
  finished : Event

-- The scheduler and the statistics are there; a stop that came before is passed on.
unfoldable pub prepare : Scheduler → RunStats → Worker → Worker
unfolding stop_scheduler
prepare s stats w = record w {
  stats = some stats;
  scheduler = if w.stopped then stop_scheduler (some s) else some s;
}

abbrev pub is_there : Option ℕ → Bool
is_there none = false
is_there (some t0) = true

-- The reply to `ready`, which may carry T0.
unfoldable pub take_ready : Answer → Worker → Worker
take_ready a w = record w {
  t0 = or_held a.t0 w.t0;
  released = w.released || is_there (or_held a.t0 w.t0);
}

-- Past `released.wait()`.
unfoldable pub go : Worker → Worker
go w = if w.released && not w.superseded then record w { phase = running } else w

-- The worker, and whether its heartbeats go on.
unfoldable pub happen : ℕ → Event → Worker × Bool → Worker × Bool
unfolding beat request_stop prepare take_ready go
happen deadman (beaten now tick wall posted) (w, true) = beat deadman now tick wall posted w
happen deadman (beaten now tick wall posted) (w, false) = (w, false)
happen deadman signalled (w, beating) = (request_stop by_signal w, beating)
happen deadman (prepared s stats) (w, beating) = (prepare s stats w, beating)
happen deadman made_ready (w, beating) = (record w { phase = ready }, beating)
happen deadman (ready_replied a) (w, beating) = (take_ready a w, beating)
happen deadman let_go (w, beating) = (go w, beating)
happen deadman finished (w, beating) = (record w { phase = finishing }, beating)

unfoldable pub happened : ℕ → List Event → Worker × Bool → Worker × Bool
unfolding happen
happened deadman [] state = state
happened deadman (e ∷ rest) state = happened deadman rest (happen deadman e state)
