-- ===== src/Fleet/Leases/Launch.antt =====
-- `launch`: the leases that it seeds from a plan, and what the plan's numbering gives the protocol.
use mathlib.Core.Path.{subst}
use regulator.Prelude.{
  true, ℕ, zero, suc, ◌<◌, ◌≡◌, ◌≢◌, refl, ap, ◌∙◌, sym, Option, none, some, List, [], ◌∷◌, map,
  All, arith,
}
use regulator.Fleet.Plan.{Request, Scenario, Settings, SlotPlan}
use regulator.Fleet.Plan.Groups.{plan}
use regulator.Fleet.Plan.Slots.{slots_of, range, numbers, total_workers, plan-numbers}
use regulator.Fleet.Leases.{free, provisioning, pending, WorkerLease, Run, Session}
use regulator.Fleet.Leases.Handlers.{granted, claim_from}
use regulator.Fleet.Leases.Claims.{Distinct, claim_from-exclusive}
use regulator.Fleet.Leases.Reach.{Reach, Reach-Follows}

-- The free lease of a slot, in the group of its engine.
unfoldable pub seed : SlotPlan → WorkerLease
seed p = record {
  slot = p.slot;
  engine = p.share.engine;
  group = p.share.engine;
  model = p.share.model;
  lease_id = none;
  holder = none;
  state = free;
  last_heartbeat_at = none;
  claimed_at = none;
  restarts = 0;
  stats = none;
  summary = none;
  log_tail = [];
}

-- The old leases are deleted; the supervisor is registered with the launch.
unfoldable pub launch : Request → Scenario → Settings → Run → Session
unfolding seed
launch request scenario settings run = record {
  run = record run { fleet_state = some provisioning; state = pending; t0 = none };
  leases = map seed (slots_of (plan request scenario settings));
  supervised = true;
  intervals = [];
}

slots-seed : (ps : List SlotPlan) → map (λ l. l.slot) (map seed ps) ≡ numbers ps
unfolding seed
slots-seed [] = refl
slots-seed (p ∷ ps) = ap (λ l. p.slot ∷ l) (slots-seed ps)

-- Slots that are pairwise different.
abbrev AreApart : List ℕ → Type 0
AreApart [] = Unit
AreApart (n ∷ ns) = All (λ m. m ≢ n) ns × AreApart ns

range_above : (low start n : ℕ) → low < start → All (λ m. m ≢ low) (range start n)
range_above low start zero h = tt
range_above low start (suc n) h =
    ((λ q. absurd (omega (arith, q))), range_above low (suc start) n (omega arith))

range-AreApart : (start n : ℕ) → AreApart (range start n)
range-AreApart start zero = tt
range-AreApart start (suc n) =
    (range_above start (suc start) n (omega arith), range-AreApart (suc start) n)

apart-All :
    (n : ℕ) (ls : List WorkerLease)
    → All (λ m. m ≢ n) (map (λ l. l.slot) ls)
    → All (λ l. l.slot ≢ n) ls
apart-All n [] a = tt
apart-All n (l ∷ ls) (a, rest) = (a, apart-All n ls rest)

AreApart-Distinct : (ls : List WorkerLease) → AreApart (map (λ l. l.slot) ls) → Distinct ls
AreApart-Distinct [] a = tt
AreApart-Distinct (l ∷ ls) (a, rest) = (apart-All l.slot ls a, AreApart-Distinct ls rest)

launch_slots :
    (request : Request) (scenario : Scenario) (settings : Settings) (run : Run)
    → map (λ l. l.slot) (launch request scenario settings run).leases
      ≡ range 0 (total_workers (plan request scenario settings))
unfolding launch
launch_slots request scenario settings run =
    slots-seed (slots_of (plan request scenario settings)) ∙ plan-numbers request scenario settings

reached-Distinct :
    (request : Request) (scenario : Scenario) (settings : Settings) (run : Run) {s : Session}
    → Reach (launch request scenario settings run) s
    → Distinct s.leases
reached-Distinct request scenario settings run {s} r = AreApart-Distinct s.leases (
    subst AreApart (sym ((Reach-Follows r).slots ∙ launch_slots request scenario settings run))
      (range-AreApart 0 (total_workers (plan request scenario settings))))

-- However a planned and launched fleet has gone on, two claims by different holders that were decided
-- on the same reading of its leases are never granted the same slot.
pub launch-exclusive :
    (request : Request) (scenario : Scenario) (settings : Settings) (run : Run) {s : Session}
    (now1 holder1 token1 now2 holder2 token2 : ℕ) (hint1 engine1 hint2 engine2 : Option ℕ)
    {row1 row2 : WorkerLease} {s1 s2 : Session}
    → Reach (launch request scenario settings run) s
    → holder1 ≢ holder2
    → claim_from s now1 holder1 token1 hint1 engine1 s ≡ (granted row1, s1)
    → claim_from s now2 holder2 token2 hint2 engine2 s1 ≡ (granted row2, s2)
    → row1.slot ≢ row2.slot
launch-exclusive request scenario settings run {s} now1 holder1 token1 now2 holder2 token2 hint1
      engine1 hint2 engine2 r n e1 e2 =
    claim_from-exclusive s now1 holder1 token1 now2 holder2 token2 hint1 engine1 hint2 engine2
      (reached-Distinct request scenario settings run r) n e1 e2
