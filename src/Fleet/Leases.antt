-- ===== src/Fleet/Leases.antt =====
-- server/regulator_server/fleet.py: the leases of a fleet run and the request handlers over them,
-- `claim`, `mark_ready`, `evaluate_release`, `heartbeat` and `final`, with the rows of models.py that
-- they read and write. Times are whole numbers of one unit. Lease ids, holders and engines are texts
-- that are only compared: numbers here, and a missing or empty text is `none`. Telemetry and the
-- claim's environment, which the handlers only send out, are left out.
pub mod Handlers
pub mod Store
pub mod Fence
pub mod Claims
pub mod Release
pub mod Beats
pub mod Load
pub mod Steps
pub mod Watch
pub mod Ticks
pub mod Ending
pub mod Deadline
pub mod Reach
pub mod Launch
pub mod Tests
use Prim.Native.Nat.{max}
use regulator.Prelude.{
  ℕ, zero, suc, ◌+◌, ◌-◌, ◌*◌, ◌/◌, Bool, true, false, not, ◌&&◌, ◌||◌, Option, none, some, List,
  [], ◌∷◌, ◌++◌, any, all, length, ltb, leb, ◌==◌, if◌then◌else◌,
}
use regulator.Fleet.Plan.{LoadModel, closed, opened, schedule, split_evenly}

pub data LeaseState : Type 0 where
  free claimed ready running done lost : LeaseState

pub data FleetState : Type 0 where
  provisioning releasing active draining finished : FleetState

pub data RunState : Type 0 where
  pending started completed stopped aborted failed : RunState

-- What a worker says of itself: `other` is any other text, such as "warming".
pub data Report : Type 0 where
  other_report is_ready is_running finishing : Report

-- A worker's interval document; only the presence of its count matters to the handlers.
pub record Interval : Type 0 where
  pub has_executions : Bool
  pub body : ℕ

pub record WorkerLease : Type 0 where
  pub slot : ℕ
  pub engine : ℕ
  pub group : ℕ
  pub model : LoadModel
  pub lease_id : Option ℕ
  pub holder : Option ℕ
  pub state : LeaseState
  pub last_heartbeat_at : Option ℕ
  pub claimed_at : Option ℕ
  pub restarts : ℕ
  pub stats : Option ℕ
  pub summary : Option ℕ
  pub log_tail : List ℕ

pub record Run : Type 0 where
  pub state : RunState
  pub fleet_state : Option FleetState
  pub t0 : Option ℕ
  pub started_at : Option ℕ
  pub paused_at : Option ℕ
  pub paused_s : ℕ
  pub load_override : Option ℕ
  pub has_error : Bool

-- The run's row and its leases in the order of their slots, and the intervals that its supervisor
-- has absorbed. `supervised` says that `manager.fleet_run` finds one.
pub record Session : Type 0 where
  pub run : Run
  pub leases : List WorkerLease
  pub supervised : Bool
  pub intervals : List (ℕ × Interval)

-- The Boolean tests on states.
abbrev pub is_live : LeaseState → Bool
is_live claimed = true
is_live ready = true
is_live running = true
is_live _ = false

abbrev pub is_claimable : LeaseState → Bool
is_claimable free = true
is_claimable lost = true
is_claimable _ = false

abbrev pub is_lost : LeaseState → Bool
is_lost lost = true
is_lost _ = false

abbrev pub is_done : LeaseState → Bool
is_done done = true
is_done _ = false

abbrev pub is_pending : LeaseState → Bool
is_pending free = true
is_pending claimed = true
is_pending _ = false

abbrev pub is_ready_state : LeaseState → Bool
is_ready_state ready = true
is_ready_state _ = false

abbrev pub is_terminal : RunState → Bool
is_terminal pending = false
is_terminal started = false
is_terminal _ = true

abbrev pub is_over : Option FleetState → Bool
is_over (some draining) = true
is_over (some finished) = true
is_over _ = false

abbrev pub is_draining : Option FleetState → Bool
is_draining (some draining) = true
is_draining _ = false

abbrev pub same : Option ℕ → ℕ → Bool
same none j = false
same (some i) j = i == j

-- `_find`: the lease of a slot.
unfoldable pub find : ℕ → List WorkerLease → Option WorkerLease
find slot [] = none
find slot (l ∷ ls) = if l.slot == slot then some l else find slot ls

-- A write to the row of a slot.
pub update : ℕ → (WorkerLease → WorkerLease) → List WorkerLease → List WorkerLease
update slot f [] = []
update slot f (l ∷ ls) = if l.slot == slot then f l ∷ ls else l ∷ update slot f ls

-- `_holder_ok`, of a lease that was found.
abbrev pub holder_ok : WorkerLease → Option ℕ → Bool
holder_ok lease none = false
holder_ok lease (some id) = same lease.lease_id id

abbrev pub write : ℕ → (WorkerLease → WorkerLease) → Session → Session
write slot f s = record s { leases = update slot f s.leases }

-- A lease that never became ready is declared lost at the release.
pub lose : WorkerLease → WorkerLease
lose l = if is_pending l.state then record l { state = lost } else l

pub lose_pending : List WorkerLease → List WorkerLease
lose_pending [] = []
lose_pending (l ∷ ls) = lose l ∷ lose_pending ls

abbrev pub may_release : Run → Bool
may_release run = elim run.t0 [
  | some _ ↦ false
  | none ↦ elim run.fleet_state [
    | none ↦ true
    | some f ↦ elim f [ provisioning ↦ true | _ ↦ false ]
  ]
]

-- The early returns of `evaluate_release`.
pub can_release : Bool → Session → Bool
can_release force s =
    if not (may_release s.run)
    then false
    else if not (any (λ l. is_ready_state l.state) s.leases)
    then false
    else not (any (λ l. is_pending l.state) s.leases && not force)

-- `evaluate_release`, at time `now` and with the delay of `_release_delay`. With no lease pending
-- the loop over them changes nothing.
pub evaluate_release : Bool → ℕ → ℕ → Session → Session × Bool
evaluate_release force now delay s =
    if can_release force s
    then (
      record s {
        run = record s.run { t0 = some (now + delay); fleet_state = some releasing };
        leases = lose_pending s.leases;
      },
      true,
    )
    else (s, false)
