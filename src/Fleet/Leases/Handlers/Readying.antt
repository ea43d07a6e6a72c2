-- ===== src/Fleet/Leases/Handlers/Readying.antt =====
-- `mark_ready`, and `slot_load`, a slot's share of a live change of the load.
use regulator.Fleet.Leases.Handlers.Claiming.{select}
use Prim.Native.Nat.{max}
use regulator.Prelude.{
  ℕ, zero, suc, false, Option, none, some, List, [], ◌∷◌, length, ◌==◌, if◌then◌else◌,
}
use regulator.Fleet.Plan.{closed, opened, schedule, split_evenly}
use regulator.Fleet.Leases.{
  LeaseState, claimed, ready, lost, WorkerLease, Session, find, write, holder_ok, evaluate_release,
}

abbrev pub readied : LeaseState → LeaseState
readied claimed = ready
readied lost = ready
readied state = state

unfoldable pub ready_accepted : ℕ → ℕ → WorkerLease → Session → Session
ready_accepted now delay lease s =
    let warm : WorkerLease → WorkerLease =
      λ l. record l { last_heartbeat_at = some now; state = readied lease.state } in
    (evaluate_release false now delay (write lease.slot warm s)).0

-- `none` is the refusal 409; otherwise the reply carries T0.
unfoldable pub mark_ready : ℕ → ℕ → ℕ → Option ℕ → Session → Option (Option ℕ) × Session
unfolding ready_accepted
mark_ready now delay slot lease_id s = elim (find slot s.leases) [
  | none ↦ (none, s)
  | some lease ↦
      if holder_ok lease lease_id
      then (some (ready_accepted now delay lease s).run.t0, ready_accepted now delay lease s)
      else (none, s)
]

-- The share of a live load change: whole users, or the arrival rate over the number of workers.
pub data SlotLoad : Type 0 where
  users : ℕ → SlotLoad
  rate : ℕ → ℕ → SlotLoad

unfoldable pub group_of : ℕ → List WorkerLease → List WorkerLease
unfolding select
group_of group = select (λ l. l.group == group)

-- The position of a slot, 0 where there is none.
unfoldable pub index_of : ℕ → ℕ → List WorkerLease → ℕ
index_of slot i [] = 0
index_of slot i (l ∷ ls) = if l.slot == slot then i else index_of slot (suc i) ls

unfoldable pub nth : ℕ → List ℕ → ℕ
nth i [] = 0
nth zero (x ∷ xs) = x
nth (suc i) (x ∷ xs) = nth i xs

unfoldable pub slot_load : Session → WorkerLease → Option SlotLoad
unfolding group_of index_of nth
slot_load s lease = elim s.run.load_override [
  | none ↦ none
  | some load ↦
      let peers = group_of lease.group s.leases in
      elim lease.model [
        | closed ↦
            some (users (nth (index_of lease.slot 0 peers) (split_evenly load (length peers))))
        | opened ↦ some (rate load (max 1 (length peers)))
        | schedule ↦ none
      ]
]
