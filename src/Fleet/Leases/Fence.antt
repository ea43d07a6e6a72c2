-- ===== src/Fleet/Leases/Fence.antt =====
-- The fence: who does not hold the lease of a slot cannot speak for it.
use mathlib.Core.Path.{subst}
use regulator.Prelude.{ℕ, ◌≡◌, ◌≢◌, refl, true, false, Option, none, some, List, ne→==}
use regulator.Fleet.Leases.{WorkerLease, Session, find, holder_ok}
use regulator.Fleet.Leases.Handlers.{
  granted, claim_from, held_by, mark_ready, Payload, superseded, heartbeat, is_other, final,
}
use regulator.Fleet.Leases.Claims.{Fresh, claim_from-Fresh}

-- A request that names another lease id than the slot's is turned away by all three handlers, and
-- changes nothing.
abbrev pub Fenced : ℕ → ℕ → Session → Type 0
Fenced slot id s =
    ((now delay : ℕ) (payload : Payload)
      → heartbeat now delay slot (some id) payload s ≡ (superseded, s))
    × ((now delay : ℕ) → mark_ready now delay slot (some id) s ≡ (none, s))
    × ((now summary : ℕ) (log_tail : List ℕ) → final now slot (some id) summary log_tail s ≡ s)

stale-Fenced :
    (slot id current : ℕ) (row : WorkerLease) (s : Session)
    → find slot s.leases ≡ some row
    → row.lease_id ≡ some current
    → current ≢ id
    → Fenced slot id s
unfolding heartbeat mark_ready final
stale-Fenced slot id current row s e i n =
    let not_holder : holder_ok row (some id) ≡ false = rw i (ne→== current id n) in
    let other : is_other row.lease_id (some id) ≡ true = rw i (rw (ne→== current id n) refl) in
    (
      (λ now delay payload. rw (e, heartbeat) (rw not_holder refl)),
      (λ now delay. rw (e, mark_ready) (rw not_holder refl)),
      (λ now summary log_tail. rw (e, final) (rw other refl)),
    )

-- Once a slot has been granted afresh, every request that carries an older lease id for it is turned
-- away without a trace: the beat is answered `superseded`, the ready call is refused, and the final
-- report is not recorded.
pub claim_from-Fenced :
    (seen s : Session) (now holder token id : ℕ) (hint engine : Option ℕ) {row : WorkerLease}
    {s' : Session}
    → held_by holder seen.leases ≡ none
    → token ≢ id
    → claim_from seen now holder token hint engine s ≡ (granted row, s')
    → Fenced row.slot id s'
claim_from-Fenced seen s now holder token id hint engine {row} {s'} new n e =
    let (f, c, i, h, old, fold, free) =
      subst (Fresh holder token s) e (claim_from-Fresh seen now holder token hint engine s new) in
    stale-Fenced row.slot id token row s' f i n
