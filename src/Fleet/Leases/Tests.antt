-- ===== src/Fleet/Leases/Tests.antt =====
-- A fleet of two leases, its first requests, and the theorems at them.
use regulator.Fleet.Plan.{get, deal, split_evenly}
use regulator.Fleet.Plan.Groups.{plan, plan_groups, plan_group}
use regulator.Fleet.Plan.Slots.{slots_of}
use regulator.Fleet.Plan.Tests.{request, settings, one_engine}
use regulator.Fleet.Leases.Launch.{seed, launch, launch-exclusive}
use regulator.Fleet.Leases.Watch.{Clocks, round}
use regulator.Prelude.{
  ℕ, ◌<◌, length, ◌≡◌, ◌≢◌, refl, arith, true, false, none, some, [], ◌∷◌, sum, map,
}
use regulator.Fleet.Plan.{closed}
use regulator.Fleet.Leases.{
  LeaseState, free, claimed, ready, WorkerLease, Run, Session, provisioning, pending, other_report,
  find, update, lose, lose_pending, can_release, evaluate_release,
}
use regulator.Fleet.Leases.Handlers.{
  Payload, granted, select, held_by, claimable, in_order, take_first, claim_from, claim,
  ready_accepted, mark_ready, group_of, index_of, nth, slot_load, heartbeat, final, drop_first,
  last_lines,
}
use regulator.Fleet.Leases.Store.{Follows}
use regulator.Fleet.Leases.Claims.{Distinct, claim_from-exclusive}
use regulator.Fleet.Leases.Fence.{Fenced, claim_from-Fenced}
use regulator.Fleet.Leases.Release.{some_pending}
use regulator.Fleet.Leases.Load.{users_of, IsClosedGroup, sum-slot_load}
use regulator.Fleet.Leases.Reach.{
  Reach, here, next, claims, readies, beats, finals, Reach-Follows, t0_set_whole,
}

program : Unit {0}
unfolding find update lose lose_pending can_release evaluate_release select held_by claimable
    in_order take_first claim_from claim ready_accepted mark_ready group_of index_of nth slot_load
    heartbeat final drop_first last_lines
program = tt

abbrev lease : ℕ → LeaseState → WorkerLease
lease slot state = record {
  slot = slot;
  engine = 0;
  group = 0;
  model = closed;
  lease_id = none;
  holder = none;
  state = state;
  last_heartbeat_at = none;
  claimed_at = none;
  restarts = 0;
  stats = none;
  summary = none;
  log_tail = [];
}

abbrev run : Run
run = record {
  state = pending;
  fleet_state = some provisioning;
  t0 = none;
  started_at = none;
  paused_at = none;
  paused_s = 0;
  load_override = some 7;
  has_error = false;
}

abbrev fleet : Session
fleet = record {
  run = run;
  leases = lease 0 free ∷ lease 1 free ∷ [];
  supervised = true;
  intervals = [];
}

abbrev taken_by : ℕ → ℕ → ℕ → ℕ → WorkerLease
taken_by slot now holder token = record (lease slot claimed) {
  lease_id = some token;
  holder = some holder;
  claimed_at = some now;
  last_heartbeat_at = some now;
}

abbrev one_claim : Session
one_claim = record fleet { leases = taken_by 0 1 7 100 ∷ lease 1 free ∷ [] }

abbrev two_claims : Session
two_claims = record fleet { leases = taken_by 0 1 7 100 ∷ taken_by 1 2 8 101 ∷ [] }

first_claim : claim_from fleet 1 7 100 none none fleet ≡ (granted (taken_by 0 1 7 100), one_claim)
unfolding program
first_claim = refl

-- The second claimer read the leases before the first one wrote.
second_claim :
    claim_from fleet 2 8 101 none (some 0) one_claim ≡ (granted (taken_by 1 2 8 101), two_claims)
unfolding program
second_claim = refl

hinted_claim : claim 1 7 100 (some 1) none fleet ≡ (
  granted (taken_by 1 1 7 100),
  record fleet { leases = lease 0 free ∷ taken_by 1 1 7 100 ∷ [] },
)
unfolding program
hinted_claim = refl

fleet-Distinct : Distinct fleet.leases
fleet-Distinct = (((λ q. absurd (omega (arith, q))), tt), (tt, tt))

seven_ne_eight : ◌≢◌ {A = ℕ} 7 8
seven_ne_eight q = absurd (omega (arith, q))

new_to_fleet : held_by 7 fleet.leases ≡ none
unfolding program
new_to_fleet = refl

claim_from-exclusive_example : ◌≢◌ {A = ℕ} 0 1
claim_from-exclusive_example =
    claim_from-exclusive fleet 1 7 100 2 8 101 none none none (some 0) fleet-Distinct seven_ne_eight
      first_claim second_claim

claim_from-Fenced_example : Fenced 0 8 one_claim
claim_from-Fenced_example =
    claim_from-Fenced fleet fleet 1 7 100 8 none none new_to_fleet (λ q. absurd (omega (arith, q)))
      first_claim

fleet_closed : IsClosedGroup 0 (group_of 0 fleet.leases)
unfolding program
fleet_closed = ((refl, refl), ((refl, refl), tt))

group-Distinct : Distinct (group_of 0 fleet.leases)
unfolding program
group-Distinct = fleet-Distinct

group_size : 0 < length (group_of 0 fleet.leases)
unfolding program
group_size = omega arith

sum-slot_load_example : sum (map (λ l. users_of (slot_load fleet l)) (group_of 0 fleet.leases)) ≡ 7
sum-slot_load_example = sum-slot_load fleet 0 7 refl group_size group-Distinct fleet_closed

-- Two claims, the first worker ready, the second one's beat, and a final report.
abbrev after_ready : Session
after_ready = (mark_ready 3 2 0 (some 100) (claim_from fleet 1 7 100 none none fleet).1).1

abbrev warm_beat : Payload
warm_beat = record { stats = none; interval = none; report = other_report }

abbrev trail :
    Reach fleet (final 6 0 (some 100) 42 [] (heartbeat 4 2 1 (some 101) warm_beat after_ready).1)
trail =
    next
      (next (next (next here (claims fleet fleet 1 7 100 none none)) (readies _ 3 2 0 (some 100)))
        (beats _ 4 2 1 (some 101) warm_beat))
      (finals _ 6 0 (some 100) 42 [])

Reach-Follows_example :
    Follows fleet (final 6 0 (some 100) 42 [] (heartbeat 4 2 1 (some 101) warm_beat after_ready).1)
Reach-Follows_example = Reach-Follows trail

-- The ready call of a fleet whose other worker is ready already sets T0.
abbrev almost_ready : Session
almost_ready = record fleet { leases = taken_by 0 1 7 100 ∷ lease 1 ready ∷ [] }

ready_sets_t0 : (mark_ready 3 2 0 (some 100) almost_ready).1.run.t0 ≡ some 5
unfolding program
ready_sets_t0 = refl

t0_set_whole_example : some_pending (mark_ready 3 2 0 (some 100) almost_ready).1 ≡ false
t0_set_whole_example = t0_set_whole (readies almost_ready 3 2 0 (some 100)) 5 refl ready_sets_t0

launch_program : Unit {0}
unfolding program launch seed plan plan_groups plan_group slots_of deal get split_evenly
launch_program = tt

-- The launch of a planned fleet of three workers, and two claims on it.
launched_leases :
    (launch request one_engine settings run).leases
    ≡ lease 0 free ∷ lease 1 free ∷ lease 2 free ∷ []
unfolding launch_program
launched_leases = refl

abbrev launched_one : Session
launched_one = record fleet { leases = taken_by 0 1 7 100 ∷ lease 1 free ∷ lease 2 free ∷ [] }

abbrev launched_two : Session
launched_two = record fleet { leases = taken_by 0 1 7 100 ∷ taken_by 1 2 8 101 ∷ lease 2 free ∷ [] }

abbrev launched : Session
launched = launch request one_engine settings run

launched_first :
    claim_from launched 1 7 100 none none launched ≡ (granted (taken_by 0 1 7 100), launched_one)
unfolding launch_program
launched_first = refl

launched_second :
    claim_from launched 2 8 101 none (some 0) launched_one
    ≡ (granted (taken_by 1 2 8 101), launched_two)
unfolding launch_program
launched_second = refl

launch-exclusive_example : ◌≢◌ {A = ℕ} 0 1
launch-exclusive_example =
    launch-exclusive request one_engine settings run 1 7 100 2 8 101 none none none (some 0) here
      seven_ne_eight launched_first launched_second

abbrev clocks : Clocks
clocks = record {
  second = 1;
  lease_s = 30;
  provision_timeout_s = 60;
  duration = 100;
  max_pause_s = 10;
  end_allowance = 60;
  delay = 4;
}

-- A worker that was heard at time 2 is still in the fleet at time 40, and lost at time 99.
silent_values :
    ((round clocks 1 40 two_claims).1 ≡ false) × ((round clocks 1 99 two_claims).1 ≡ true)
unfolding program round
silent_values = (refl, refl)
