-- ===== src/Fleet/Leases/Handlers/Claiming.antt =====
-- `claim`: how a worker gets a slot.
use regulator.Prelude.{
  ℕ, ◌+◌, Bool, true, not, ◌&&◌, ◌||◌, Option, none, some, List, [], ◌∷◌, ◌++◌, ◌==◌, if◌then◌else◌,
}
use regulator.Fleet.Leases.{
  claimed, WorkerLease, Session, is_live, is_claimable, is_lost, is_terminal, is_over, same, find,
  write,
}

pub data Refusal : Type 0 where
  not_accepting no_free_lease all_taken : Refusal

pub data Claim : Type 0 where
  granted : WorkerLease → Claim
  refused : Refusal → Claim

-- A lease that the holder already has.
unfoldable pub held_by : ℕ → List WorkerLease → Option WorkerLease
held_by holder [] = none
held_by holder (l ∷ ls) =
    if same l.holder holder && is_live l.state then some l else held_by holder ls

abbrev pub wanted : Option ℕ → WorkerLease → Bool
wanted none l = true
wanted (some engine) l = l.engine == engine

unfoldable pub select : (WorkerLease → Bool) → List WorkerLease → List WorkerLease
select p [] = []
select p (l ∷ ls) = let rest = select p ls in if p l then l ∷ rest else rest

unfoldable pub claimable : Option ℕ → List WorkerLease → List WorkerLease
unfolding select
claimable engine = select (λ l. is_claimable l.state && wanted engine l)

-- The hinted slot first.
unfoldable pub in_order : Option ℕ → List WorkerLease → List WorkerLease
unfolding select
in_order none leases = leases
in_order (some hint) leases =
    select (λ l. l.slot == hint) leases ++ select (λ l. not (l.slot == hint)) leases

abbrev pub taken : ℕ → ℕ → ℕ → WorkerLease → WorkerLease → WorkerLease
taken now holder token candidate row = record row {
  lease_id = some token;
  holder = some holder;
  state = claimed;
  claimed_at = some now;
  last_heartbeat_at = some now;
  restarts = candidate.restarts + (if is_lost candidate.state then 1 else 0);
}

-- The conditional updates, in turn: a row that is no longer free or lost matches none. `token` is
-- the lease id made for the update that succeeds.
unfoldable pub take_first : ℕ → ℕ → ℕ → List WorkerLease → Session → Claim × Session
take_first now holder token [] s = (refused all_taken, s)
take_first now holder token (c ∷ cs) s =
    let rest = take_first now holder token cs s in
    elim (find c.slot s.leases) [
      | none ↦ rest
      | some row ↦
          if is_claimable row.state
          then (granted (taken now holder token c row), write c.slot (taken now holder token c) s)
          else rest
    ]

-- A claim that reads the rows as they were in `seen`, and writes to `s`: between the two, other
-- claims may have written.
unfoldable pub claim_from : Session → ℕ → ℕ → ℕ → Option ℕ → Option ℕ → Session → Claim × Session
unfolding held_by
claim_from seen now holder token hint engine s =
    if is_over seen.run.fleet_state || is_terminal seen.run.state
    then (refused not_accepting, s)
    else elim (held_by holder seen.leases) [
      | some mine ↦
          (granted mine, write mine.slot (λ l. record l { last_heartbeat_at = some now }) s)
      | none ↦ elim (claimable engine seen.leases) [
        | [] ↦ (refused no_free_lease, s)
        | c ∷ cs ↦ take_first now holder token (in_order hint (c ∷ cs)) s
      ]
    ]

-- `claim`, with nothing in between.
unfoldable pub claim : ℕ → ℕ → ℕ → Option ℕ → Option ℕ → Session → Claim × Session
unfolding claim_from
claim now holder token hint engine s = claim_from s now holder token hint engine s
