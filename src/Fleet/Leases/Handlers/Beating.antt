-- ===== src/Fleet/Leases/Handlers/Beating.antt =====
-- `heartbeat` (`_heartbeat`) and `final`.
use regulator.Fleet.Leases.Handlers.Readying.{SlotLoad, slot_load}
use regulator.Prelude.{
  ℕ, zero, suc, ◌-◌, Bool, true, false, not, ◌&&◌, ◌||◌, Option, none, some, List, [], ◌∷◌, ◌++◌,
  length, ◌==◌, if◌then◌else◌,
}
use regulator.Fleet.Leases.{
  LeaseState, claimed, ready, running, done, lost, FleetState, releasing, active, started, Report,
  other_report, is_running, finishing, Interval, WorkerLease, Run, Session, is_done, is_ready_state,
  is_terminal, is_draining, find, update, write, holder_ok, evaluate_release,
}

pub record Payload : Type 0 where
  pub stats : Option ℕ
  pub interval : Option Interval
  pub report : Report

pub data Reply : Type 0 where
  superseded stop wait : Reply
  release : ℕ → Reply
  go : (paused : Bool) → (load : Option SlotLoad) → Reply

abbrev pub has_begun : Report → Bool
has_begun is_running = true
has_begun finishing = true
has_begun _ = false

abbrev pub restored : LeaseState → Report → LeaseState
restored lost other_report = claimed
restored lost _ = ready
restored state _ = state

abbrev pub or_t0 : Option ℕ → ℕ → Option ℕ
or_t0 none t0 = some t0
or_t0 (some zero) t0 = some t0
or_t0 (some (suc n)) t0 = some (suc n)

unfoldable pub absorb : ℕ → Option Interval → Session → Session
absorb slot none s = s
absorb slot (some interval) s =
    if interval.has_executions && s.supervised
    then record s { intervals = s.intervals ++ (slot, interval) ∷ [] }
    else s

-- The row after a beat: the time, and the statistics if there are any.
abbrev pub beaten : ℕ → Option ℕ → WorkerLease → WorkerLease
beaten now none l = record l { last_heartbeat_at = some now }
beaten now (some stats) l = record l { last_heartbeat_at = some now; stats = some stats }

abbrev pub is_some : {A : Type 0} → Option A → Bool
is_some none = false
is_some (some a) = true

-- A beat before T0: a worker that is ready may complete the fleet.
unfoldable pub released : ℕ → ℕ → LeaseState → Session → Session
released now delay state s =
    if is_ready_state state then (evaluate_release false now delay s).0 else s

abbrev pub until_t0 : Option ℕ → Reply
until_t0 none = wait
until_t0 (some t0) = release t0

abbrev pub begun : LeaseState → LeaseState
begun claimed = running
begun ready = running
begun state = state

abbrev pub starts : Option FleetState → Report → Bool
starts (some releasing) report = has_begun report
starts _ report = false

unfoldable pub start_run : ℕ → Report → Run → Run
start_run t0 report run =
    if starts run.fleet_state report
    then record run {
      fleet_state = some active;
      state = started;
      started_at = or_t0 run.started_at t0;
    }
    else run

-- A beat at or after T0 by a worker that has begun, or is done.
unfoldable pub running_on : ℕ → WorkerLease → Report → Session → Session
unfolding start_run
running_on t0 lease report s = record s {
  run = start_run t0 report s.run;
  leases = update lease.slot (λ l. record l { state = begun lease.state }) s.leases;
}

unfoldable pub beat_after : ℕ → WorkerLease → Report → Session → Reply × Session
unfolding slot_load running_on
beat_after t0 lease report s =
    let s' = running_on t0 lease report s in
    (go (is_some s'.run.paused_at) (slot_load s' lease), s')

-- The beat of a fleet that is not draining, before T0 and after.
unfoldable pub beat_by : ℕ → ℕ → WorkerLease → Report → Option ℕ → Session → Reply × Session
unfolding released beat_after
beat_by now delay lease report none s =
    let s' = released now delay lease.state s in (until_t0 s'.run.t0, s')
beat_by now delay lease report (some t0) s =
    if not (has_begun report) && not (is_done lease.state)
    then (release t0, s)
    else beat_after t0 lease report s

-- The beat of a worker that holds its lease, which is `lease` before the beat.
unfoldable pub beat : ℕ → ℕ → WorkerLease → Payload → Session → Reply × Session
unfolding absorb beat_by
beat now delay lease payload s =
    let s1 = absorb lease.slot payload.interval (write lease.slot (beaten now payload.stats) s) in
    let state' = restored lease.state payload.report in
    let s2 = write lease.slot (λ l. record l { state = state' }) s1 in
    if is_draining s.run.fleet_state || is_terminal s.run.state
    then (stop, s1)
    else beat_by now delay (record lease { state = state' }) payload.report s.run.t0 s2

unfoldable pub heartbeat : ℕ → ℕ → ℕ → Option ℕ → Payload → Session → Reply × Session
unfolding beat
heartbeat now delay slot lease_id payload s = elim (find slot s.leases) [
  | none ↦ (superseded, s)
  | some lease ↦
      if holder_ok lease lease_id then beat now delay lease payload s else (superseded, s)
]

-- log_tail[-200:]
unfoldable pub drop_first : ℕ → List ℕ → List ℕ
drop_first zero xs = xs
drop_first (suc n) [] = []
drop_first (suc n) (x ∷ xs) = drop_first n xs

unfoldable pub last_lines : List ℕ → List ℕ
unfolding drop_first
last_lines lines = drop_first (length lines - 200) lines

abbrev pub is_other : Option ℕ → Option ℕ → Bool
is_other mine none = false
is_other none (some id) = true
is_other (some i) (some id) = not (i == id)

unfoldable pub final : ℕ → ℕ → Option ℕ → ℕ → List ℕ → Session → Session
unfolding last_lines
final now slot lease_id summary log_tail s = elim (find slot s.leases) [
  | none ↦ s
  | some lease ↦
      if is_other lease.lease_id lease_id
      then s
      else if is_done lease.state
      then s
      else write slot
          (λ l. record l {
            summary = some summary;
            log_tail = last_lines log_tail;
            state = done;
            last_heartbeat_at = some now;
          })
          s
]
