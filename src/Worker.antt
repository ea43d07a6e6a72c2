-- ===== src/Worker.antt =====
-- worker/regulator_agent/managed.py: a fleet member, from its claim to its final report. What httpx
-- returns for a request is a parameter: each request is given what it came to. Times are whole
-- milliseconds, and `now` is the monotonic clock.
mod Tests
pub mod Client
pub mod Life
pub mod Events
pub mod Backoff
pub mod Consistent
pub mod Route
pub mod Released
pub mod Following
use regulator.Prelude.{
  ℕ, suc, ◌+◌, ◌-◌, Bool, true, false, not, ◌&&◌, ◌||◌, Option, none, some, List, [], ◌∷◌, ◌==◌,
  ltb, if◌then◌else◌,
}
use regulator.Fleet.Plan.{LoadModel, closed, opened, schedule}
use regulator.Control.{Scheduler, apply_pause, apply_resume, apply_load}
use regulator.Results.Run.{RunStats, set_epoch, take_interval}

pub data Phase : Type 0 where
  starting ready running finishing : Phase

pub data StopReason : Type 0 where
  by_control by_signal lease_superseded unreachable : StopReason

-- What the control plane asks for; `other` is any other text.
pub data Command : Type 0 where
  go_on release stop superseded other : Command

-- A reply that was read: every key but the command may be missing.
pub record Answer : Type 0 where
  pub command : Command
  pub t0 : Option ℕ
  pub paused : Option Bool
  pub load : Option ℕ
  pub epoch : Option ℕ
  pub epoch_started_at : Option ℕ

-- What a request came to: a reply, the fence of a lease that is another's, or any other failure.
pub data Posted : Type 0 where
  answered : Answer → Posted
  fenced failed : Posted

-- What `run_managed` shares with its heartbeats, and the client's last acknowledgement.
pub record Worker : Type 0 where
  pub phase : Phase
  pub released : Bool
  pub t0 : Option ℕ
  pub superseded : Bool
  pub stopped : Bool
  pub reason : Option StopReason
  pub scheduler : Option Scheduler
  pub stats : Option RunStats
  pub applied_load : Option ℕ
  pub last_ack : ℕ

unfoldable pub new_worker : ℕ → Worker
new_worker now = record {
  phase = starting;
  released = false;
  t0 = none;
  superseded = false;
  stopped = false;
  reason = none;
  scheduler = none;
  stats = none;
  applied_load = none;
  last_ack = now;
}

-- Scheduler.request_stop, on the books that the scheduler keeps
unfoldable pub stop_scheduler : Option Scheduler → Option Scheduler
stop_scheduler none = none
stop_scheduler (some s) = some (record s { stopping = true })

abbrev pub or_reason : Option StopReason → StopReason → StopReason
or_reason none reason = reason
or_reason (some earlier) reason = earlier

-- `request_stop`, from the control plane, a signal or the dead-man
unfoldable pub request_stop : StopReason → Worker → Worker
unfolding stop_scheduler
request_stop reason w = record w {
  stopped = true;
  reason = some (or_reason w.reason reason);
  scheduler = stop_scheduler w.scheduler;
  released = true;
}

-- document.get("epoch_started_at") or time.time()
abbrev pub begun_at : Option ℕ → ℕ → ℕ
begun_at none wall = wall
begun_at (some begun) wall = if begun == 0 then wall else begun

-- The epoch of a reply, where it is another than the statistics have.
unfoldable pub take_epoch : ℕ → Option ℕ → Option ℕ → Option RunStats → Option RunStats
unfolding set_epoch
take_epoch wall epoch started none = none
take_epoch wall none started (some stats) = some stats
take_epoch wall (some epoch) started (some stats) =
    if ltb 0 epoch && not (epoch == stats.epoch)
    then some (set_epoch epoch (begun_at started wall) stats)
    else some stats

abbrev pub is_ready : Phase → Bool
is_ready ready = true
is_ready _ = false

abbrev pub or_held : Option ℕ → Option ℕ → Option ℕ
or_held none held = held
or_held (some t0) held = some t0

-- The command of a reply.
unfoldable pub obey : Command → Option ℕ → Worker → Worker
unfolding request_stop
obey release t0 w = record w { t0 = or_held t0 w.t0; released = w.released || is_ready w.phase }
obey stop t0 w = request_stop by_control w
obey go_on t0 w = w
obey superseded t0 w = w
obey other t0 w = w

abbrev pub is_paused : Scheduler → Bool
is_paused s = elim s.paused_since [ none ↦ false | some since ↦ true ]

-- The scheduler is paused or resumed where the reply says other than it is.
unfoldable pub follow_pause : ℕ → ℕ → Option Bool → Scheduler → Scheduler
unfolding apply_pause apply_resume
follow_pause tick wall none s = s
follow_pause tick wall (some true) s = if is_paused s then s else apply_pause tick wall s
follow_pause tick wall (some false) s = if is_paused s then apply_resume tick wall s else s

abbrev pub is_scheduled : LoadModel → Bool
is_scheduled schedule = true
is_scheduled _ = false

abbrev pub is_applied : ℕ → Option ℕ → Bool
is_applied load none = false
is_applied load (some applied) = load == applied

-- A load that is not applied yet; the schedule model refuses it.
unfoldable pub follow_load : ℕ → Option ℕ → Option ℕ → Scheduler → Scheduler × Option ℕ
unfolding apply_load
follow_load wall none applied s = (s, applied)
follow_load wall (some load) applied s =
    if is_applied load applied
    then (s, applied)
    else if is_scheduled s.model
    then (s, applied)
    else (apply_load wall load s, some load)

abbrev pub is_stop : Command → Bool
is_stop stop = true
is_stop _ = false

-- Pause and load, which ride every reply but a stop.
unfoldable pub follow : ℕ → ℕ → Answer → Option Scheduler → Worker → Worker
unfolding follow_pause follow_load
follow tick wall a none w = w
follow tick wall a (some s) w =
    if is_stop a.command
    then w
    else let (s', applied) =
        follow_load wall a.load w.applied_load (follow_pause tick wall a.paused s) in
      record w { scheduler = some s'; applied_load = applied }

-- A reply that is taken in.
unfoldable pub take_answer : ℕ → ℕ → Answer → Worker → Worker
unfolding take_epoch obey follow
take_answer tick wall a w =
    let w1 : Worker = record w { stats = take_epoch wall a.epoch a.epoch_started_at w.stats } in
    let w2 = obey a.command a.t0 w1 in follow tick wall a w2.scheduler w2

-- The interval that goes with the beat is taken, whether or not the beat arrives.
unfoldable pub sample : ℕ → Option RunStats → Option RunStats
unfolding take_interval
sample wall none = none
sample wall (some stats) = some (take_interval wall stats).1

-- `deadman_expired`
unfoldable pub is_expired : ℕ → ℕ → ℕ → Bool
is_expired deadman now last_ack = ltb deadman (now - last_ack)

unfoldable pub be_superseded : Worker → Worker
unfolding request_stop
be_superseded w = request_stop lease_superseded (record w { superseded = true })

abbrev pub is_superseded : Command → Bool
is_superseded superseded = true
is_superseded _ = false

-- One round of `heartbeats` up to its sleep: the worker, and whether the loop goes on.
unfoldable pub beat : ℕ → ℕ → ℕ → ℕ → Posted → Worker → Worker × Bool
unfolding sample be_superseded take_answer is_expired request_stop
beat deadman now tick wall posted w =
    let w1 : Worker = record w { stats = sample wall w.stats } in
    elim posted [
      | fenced ↦ (be_superseded w1, false)
      | answered a ↦
          if is_superseded a.command
          then (be_superseded w1, false)
          else (take_answer tick wall a (record w1 { last_ack = now }), true)
      | failed ↦
          if is_expired deadman now w1.last_ack
          then (request_stop unreachable w1, false)
          else (w1, true)
    ]
