-- ===== src/Fleet/Plan/Tests.antt =====
-- Plans of small runs, and the theorems at concrete data.
use regulator.Prelude.{
  ◌+◌, ◌/◌, ◌≤◌, ◌≡◌, refl, arith, false, some, none, [], ◌∷◌, sum, length, All,
}
use regulator.Fleet.Plan.{
  get, values, split_evenly, deal, closed, Scenario, Request, Settings, or_else, engines_of,
  steps_of, choose_model,
}
use regulator.Fleet.Plan.Split.{split_evenly_lem}
use regulator.Fleet.Plan.Deal.{sum-deal}
use regulator.Fleet.Plan.Groups.{plan, plan_groups, plan_group}
use regulator.Fleet.Plan.Slots.{slots_of, numbers, total_users, total_workers, plan-users}

split_evenly_values : split_evenly 10 4 ≡ 3 ∷ 3 ∷ 2 ∷ 2 ∷ []
unfolding split_evenly
split_evenly_values = refl

-- Seven users over two equal engines are four and three; a tie goes to the later name.
deal_values : deal 7 ((0, 1) ∷ (1, 1) ∷ []) ≡ (0, 3) ∷ (1, 4) ∷ []
unfolding deal
deal_values = refl

split_evenly_example :
    (length (split_evenly 10 4) ≡ 4)
    × (sum (split_evenly 10 4) ≡ 10)
    × All (λ n. (10 / 4 ≤ n) × (n ≤ 10 / 4 + 1)) (split_evenly 10 4)
split_evenly_example = split_evenly_lem 10 4 (omega arith)

sum-deal_example : sum (values (deal 7 ((0, 3) ∷ (1, 2) ∷ (2, 2) ∷ []))) ≡ 7
sum-deal_example = sum-deal 7 ((0, 3) ∷ (1, 2) ∷ (2, 2) ∷ []) (omega arith)

abbrev pub settings : Settings
settings = record { vus_per_worker = 4; browser_contexts_per_worker = 2 }

abbrev pub request : Request
request = record {
  virtual_users = some 10;
  arrival_rate_per_min = none;
  has_pacing = false;
  workers = none;
}

abbrev pub one_engine : Scenario
one_engine = record {
  personas = record { weight = 1; steps = 0 ∷ 0 ∷ [] } ∷ [];
  model = closed;
  virtual_users = some 3;
  arrival_rate_per_min = none;
}

abbrev mixed : Scenario
mixed = record {
  personas = record { weight = 3; steps = 0 ∷ [] } ∷ record { weight = 1; steps = 0 ∷ 1 ∷ [] } ∷ [];
  model = closed;
  virtual_users = some 3;
  arrival_rate_per_min = none;
}

program : Unit {0}
unfolding plan plan_groups plan_group slots_of total_users total_workers split_evenly deal get
program = tt

plan_values :
    (total_workers (plan request one_engine settings) ≡ 3)
    × (total_users (slots_of (plan request mixed settings)) ≡ 10)
    × (numbers (slots_of (plan request mixed settings)) ≡ 0 ∷ 1 ∷ 2 ∷ 3 ∷ [])
unfolding program
plan_values = (refl, refl, refl)

one_engine_api : engines_of (steps_of one_engine.personas) ≡ 0 ∷ []
unfolding engines_of steps_of
one_engine_api = refl

one_engine_closed : choose_model request one_engine.model ≡ closed
unfolding choose_model
one_engine_closed = refl

plan-users_example :
    total_users (slots_of (plan request one_engine settings))
    ≡ or_else (some 10) (or_else (some 3) 1)
plan-users_example = plan-users request one_engine settings 0 one_engine_api one_engine_closed

-- One user over two engines is planned as two, one for each engine.
one_user_twice :
    total_users (slots_of (plan (record request { virtual_users = some 1 }) mixed settings)) ≡ 2
unfolding program
one_user_twice = refl
