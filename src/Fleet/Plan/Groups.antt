-- ===== src/Fleet/Plan/Groups.antt =====
-- `plan`: the groups, one per engine, and their slots.
use Prim.Native.Nat.{max}
use regulator.Prelude.{
  ℕ, suc, ◌+◌, ◌*◌, Bool, ◌&&◌, Option, none, some, List, [], ◌∷◌, map, length, ltb, ◌==◌,
  if◌then◌else◌, replicate,
}
use regulator.Fleet.Plan.{
  Weights, split_evenly, deal, weight_total, LoadModel, closed, opened, schedule, is_closed,
  Scenario, Request, Settings, Share, SlotPlan, GroupPlan, browser, is_set, or_else, engines_of,
  steps_of, add_personas, get, choose_model, ceil_div,
}

-- `workers`, before it is capped by the number of users. `single` says that the run has one engine.
unfoldable pub wanted_workers : Request → Settings → Bool → Option ℕ → LoadModel → ℕ → ℕ → ℕ × ℕ → ℕ
unfolding is_set ceil_div or_else
wanted_workers run settings single dealt model density vus (num, den) =
    if is_set run.workers
    then (if single then or_else run.workers 1 else max 1 (elim dealt [ none ↦ 1 | some n ↦ n ]))
    else elim model [
      | closed ↦ max 1 (ceil_div vus density)
      | opened ↦ if num == 0 then 1 else max 1 (ceil_div num (den * (density * 60)))
      | schedule ↦ 1
    ]

-- More workers than users would run more load than was configured.
unfoldable pub cap_workers : LoadModel → ℕ → ℕ → ℕ
unfolding is_closed
cap_workers model vus workers = if is_closed model && ltb vus workers then vus else workers

unfoldable pub share_of : LoadModel → ℕ → ℕ → ℕ × ℕ → ℕ → ℕ → Share
share_of model engine workers (num, den) index users = record {
  model = model;
  engine = engine;
  group_slot = index;
  group_workers = workers;
  virtual_users = elim model [ closed ↦ some (max 1 users) | _ ↦ none ];
  rate = elim model [ opened ↦ some (num, den * workers) | _ ↦ none ];
}

-- for index in range(workers), over the shares of the users
unfoldable pub slots_from : (ℕ → ℕ → Share) → ℕ → ℕ → List ℕ → List SlotPlan
slots_from share next_slot index [] = []
slots_from share next_slot index (users ∷ rest) =
    record { slot = next_slot; share = share index users }
    ∷ slots_from share (suc next_slot) (suc index) rest

unfoldable pub group_of : LoadModel → ℕ → ℕ → ℕ × ℕ → ℕ → ℕ → GroupPlan
unfolding cap_workers share_of slots_from is_closed
group_of model engine vus rate wanted next_slot =
    let workers = cap_workers model vus wanted in
    let shares = if is_closed model then split_evenly vus workers else replicate workers 0 in
    record {
      engine = engine;
      workers = workers;
      slots = slots_from (share_of model engine workers rate) next_slot 0 shares;
    }

module _ (run : Request) (settings : Settings) (model : LoadModel) (total_vus total_rate : ℕ)
    (weights : Weights) (single : Bool) where
  unfoldable pub plan_group : ℕ → ℕ → GroupPlan
  unfolding wanted_workers group_of
  plan_group engine next_slot =
      let density =
        if engine == browser
        then settings.browser_contexts_per_worker
        else settings.vus_per_worker in
      let vus = max 1 (if single then total_vus else get engine 0 (deal total_vus weights)) in
      let rate : ℕ × ℕ =
        (if single
          then (total_rate, 1)
          else (total_rate * get engine 0 weights, weight_total weights)) in
      let dealt : Option ℕ =
        (if single then none else some (get engine 1 (deal (or_else run.workers 0) weights))) in
      group_of model engine vus rate
        (wanted_workers run settings single dealt model density vus rate) next_slot

  unfoldable pub plan_groups : List ℕ → ℕ → List GroupPlan
  plan_groups [] next_slot = []
  plan_groups (engine ∷ engines) next_slot =
      let group = plan_group engine next_slot in
      group ∷ plan_groups engines (next_slot + group.workers)

unfoldable pub plan : Request → Scenario → Settings → List GroupPlan
unfolding or_else engines_of choose_model steps_of add_personas
plan run scenario settings =
    let engines = engines_of (steps_of scenario.personas) in
    let weights = add_personas scenario.personas (map (λ e. (e, 0)) engines) in
    plan_groups run settings (choose_model run scenario.model)
      (or_else run.virtual_users (or_else scenario.virtual_users 1))
      (or_else run.arrival_rate_per_min (or_else scenario.arrival_rate_per_min 0)) weights
      (length engines == 1) engines 0
