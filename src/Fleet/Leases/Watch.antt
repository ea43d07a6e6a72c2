-- ===== src/Fleet/Leases/Watch.antt =====
-- The supervisor's loop, `FleetRun._watch`: one round of it, by its three clocks. Samples, the stored
-- aggregate and the driver's stop, which change no lease and no state of the run, are left out.
use Prim.Native.Nat.{max}
use regulator.Prelude.{
  ℕ, zero, suc, ◌+◌, ◌-◌, ◌*◌, Bool, true, false, not, ◌&&◌, ◌||◌, Option, none, some, map, all,
  ltb, leb, if◌then◌else◌,
}
use regulator.Fleet.Leases.{
  LeaseState, free, claimed, lost, provisioning, draining, WorkerLease, Run, Session, is_live,
  is_lost, is_done, is_pending, is_draining, evaluate_release,
}

-- The settings, in units of which `second` make a second. `duration` is the run's, or the longest
-- allowed; `end_allowance` is `_end_allowance_s`; `delay` is `_release_delay`.
pub record Clocks : Type 0 where
  pub second : ℕ
  pub lease_s : ℕ
  pub provision_timeout_s : ℕ
  pub duration : ℕ
  pub max_pause_s : ℕ
  pub end_allowance : ℕ
  pub delay : ℕ

abbrev pub provision_deadline : Clocks → ℕ → ℕ
provision_deadline c started = started + c.provision_timeout_s

-- The ceiling in wall-clock time that depends on nothing else.
abbrev pub ceiling : Clocks → ℕ → ℕ
ceiling c started =
    started + c.provision_timeout_s + c.duration + 600 * c.second + c.max_pause_s + c.end_allowance

-- A write to every row.
abbrev pub relabel : (WorkerLease → WorkerLease) → Session → Session
relabel f s = record s { leases = map f s.leases }

unfoldable pub mark_lost : (LeaseState → Bool) → WorkerLease → WorkerLease
mark_lost p l = if p l.state then record l { state = lost } else l

abbrev pub is_claimed : LeaseState → Bool
is_claimed claimed = true
is_claimed _ = false

abbrev pub is_free : LeaseState → Bool
is_free free = true
is_free _ = false

-- How long a lease may be silent.
unfoldable pub allowance : Clocks → ℕ → ℕ → Bool → LeaseState → ℕ
allowance c started now is_stopping state =
    if is_claimed state && leb now (provision_deadline c started) && not is_stopping
    then max c.lease_s c.provision_timeout_s
    else c.lease_s

-- A time of 0 counts as none.
unfoldable pub is_silent : ℕ → ℕ → Option ℕ → Bool
is_silent allowed now none = false
is_silent allowed now (some zero) = false
is_silent allowed now (some (suc t)) = ltb allowed (now - suc t)

unfoldable pub lapse : Clocks → ℕ → ℕ → Bool → WorkerLease → WorkerLease
unfolding allowance is_silent
lapse c started now is_stopping l =
    if is_live l.state
      && is_silent (allowance c started now is_stopping l.state) now l.last_heartbeat_at
    then record l { state = lost }
    else l

unfoldable pub is_overdue : Clocks → ℕ → ℕ → Run → Bool
is_overdue c started now run = elim run.t0 [
  | some _ ↦ false
  | none ↦ elim run.fleet_state [
    | none ↦ false
    | some f ↦ elim f [ provisioning ↦ ltb (provision_deadline c started) now | _ ↦ false ]
  ]
]

-- No worker became ready in time.
unfoldable pub give_up : Session → Session
unfolding mark_lost
give_up s = record (relabel (mark_lost is_pending) s) {
  run = record s.run { has_error = true; fleet_state = some draining };
}

unfoldable pub released_or_given_up : Session × Bool → Session
unfolding give_up
released_or_given_up (s, true) = s
released_or_given_up (s, false) = give_up s

-- At the provisioning deadline.
unfoldable pub expire : Clocks → ℕ → ℕ → Session → Session
unfolding is_overdue released_or_given_up
expire c started now s =
    if is_overdue c started now s.run
    then released_or_given_up (evaluate_release true now c.delay s)
    else s

-- `paused_seconds`
unfoldable pub paused_seconds : ℕ → Run → ℕ
paused_seconds now run = elim run.paused_at [
  | none ↦ run.paused_s
  | some t ↦ elim t [ zero ↦ run.paused_s | suc t ↦ run.paused_s + (now - suc t) ]
]

unfoldable pub is_timed_out : Clocks → ℕ → ℕ → Run → Bool
unfolding paused_seconds
is_timed_out c started now run = ltb (ceiling c started) now || elim run.t0 [
  | none ↦ false
  | some t0 ↦ ltb (t0 + c.duration + 300 * c.second + c.end_allowance + paused_seconds now run) now
]

-- Nobody will claim a free slot of a fleet that drains.
unfoldable pub drain : Bool → Session → Session
unfolding mark_lost
drain is_stopping s = if is_stopping then relabel (mark_lost is_free) s else s

abbrev pub is_over_state : LeaseState → Bool
is_over_state state = is_done state || is_lost state

unfoldable pub is_finished : Session → Bool
is_finished s = all (λ l. is_over_state l.state) s.leases

unfoldable pub cut_off : Session → Session
unfolding mark_lost
cut_off s = record (relabel (mark_lost (λ state. not (is_done state))) s) {
  run = record s.run { has_error = true };
}

-- The end of a round, and whether the loop returns.
unfoldable pub conclude : Clocks → ℕ → ℕ → Session → Session × Bool
unfolding is_timed_out is_finished cut_off
conclude c started now s =
    if is_finished s
    then (s, true)
    else if is_timed_out c started now s.run
    then (cut_off s, true)
    else (s, false)

-- The part of a round before its end: the silent leases, the deadline, the draining.
unfoldable pub prepare : Clocks → ℕ → ℕ → Session → Session
unfolding lapse expire drain
prepare c started now s =
    let lapsed = relabel (lapse c started now (is_draining s.run.fleet_state)) s in
    let expired = expire c started now lapsed in drain (is_draining expired.run.fleet_state) expired

-- One round at the time `now`, of a loop that began at `started`.
unfoldable pub round : Clocks → ℕ → ℕ → Session → Session × Bool
unfolding prepare conclude
round c started now s = conclude c started now (prepare c started now s)
