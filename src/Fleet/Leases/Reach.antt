-- ===== src/Fleet/Leases/Reach.antt =====
-- The fleet's life as a sequence of requests, in any order and from any worker, and of rounds of the
-- supervisor.
use regulator.Prelude.{◌≡◌, none, some, false, ℕ, Option, List}
use regulator.Fleet.Leases.{Session}
use regulator.Fleet.Leases.Watch.{Clocks, round}
use regulator.Fleet.Leases.Ticks.{round-Follows}
use regulator.Fleet.Leases.Deadline.{round-StartsWhole}
use regulator.Fleet.Leases.Store.{Follows, Follows-refl, Follows-trans}
use regulator.Fleet.Leases.Handlers.{Payload, claim_from, mark_ready, heartbeat, final}
use regulator.Fleet.Leases.Steps.{
  claim_from-Follows, mark_ready-Follows, final-Follows, claim_from-run, final-run,
}
use regulator.Fleet.Leases.Beats.{heartbeat-Follows}
use regulator.Fleet.Leases.Release.{
  StartsWhole, some_pending, mark_ready-StartsWhole, heartbeat-StartsWhole,
}

-- One request, or one round of the supervisor. A claim may have read an older state of the leases, `seen`.
pub data Step : Session → Session → Type 0 where
  claims :
      (s seen : Session) (now holder token : ℕ) (hint engine : Option ℕ)
      → Step s (claim_from seen now holder token hint engine s).1
  readies :
      (s : Session) (now delay slot : ℕ) (lease_id : Option ℕ)
      → Step s (mark_ready now delay slot lease_id s).1
  beats :
      (s : Session) (now delay slot : ℕ) (lease_id : Option ℕ) (payload : Payload)
      → Step s (heartbeat now delay slot lease_id payload s).1
  rounds : (s : Session) (c : Clocks) (started now : ℕ) → Step s (round c started now s).0
  finals :
      (s : Session) (now slot : ℕ) (lease_id : Option ℕ) (summary : ℕ) (log_tail : List ℕ)
      → Step s (final now slot lease_id summary log_tail s)

pub data Reach (s : Session) : Session → Type 0 where
  here : Reach s s
  next : {t u : Session} → Reach s t → Step t u → Reach s u

Step-Follows : {s t : Session} → Step s t → Follows s t
Step-Follows (claims s seen now holder token hint engine) =
    claim_from-Follows seen now holder token hint engine s
Step-Follows (readies s now delay slot lease_id) = mark_ready-Follows now delay slot lease_id s
Step-Follows (beats s now delay slot lease_id payload) =
    heartbeat-Follows now delay slot lease_id payload s
Step-Follows (rounds s c started now) = round-Follows c started now s
Step-Follows (finals s now slot lease_id summary log_tail) =
    final-Follows now slot lease_id summary log_tail s

-- Whatever requests and rounds come, in whatever order: the fleet keeps its slots, T0 never moves
-- once it is set, and a worker that is done stays done with the summary that it reported.
pub Reach-Follows : {s t : Session} → Reach s t → Follows s t
Reach-Follows here = Follows-refl _
Reach-Follows (next r st) = Follows-trans (Reach-Follows r) (Step-Follows st)

Step-StartsWhole : {s t : Session} → Step s t → StartsWhole s t
Step-StartsWhole (claims s seen now holder token hint engine) =
    λ t e f. cc (claim_from-run seen now holder token hint engine s)
Step-StartsWhole (readies s now delay slot lease_id) =
    mark_ready-StartsWhole now delay slot lease_id s
Step-StartsWhole (beats s now delay slot lease_id payload) =
    heartbeat-StartsWhole now delay slot lease_id payload s
Step-StartsWhole (rounds s c started now) = round-StartsWhole c started now s
Step-StartsWhole (finals s now slot lease_id summary log_tail) =
    λ t e f. cc (final-run now slot lease_id summary log_tail s)

-- The request or round that sets T0 is one after which no lease is free or claimed: every worker is
-- ready, running, done or lost.
pub t0_set_whole :
    {s s' : Session}
    → Step s s'
    → (t0 : ℕ) → s.run.t0 ≡ none
    → s'.run.t0 ≡ some t0
    → some_pending s' ≡ false
t0_set_whole step t0 before set = Step-StartsWhole step t0 before set
