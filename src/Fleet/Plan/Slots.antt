-- ===== src/Fleet/Plan/Slots.antt =====
-- What `plan` promises of the slots: they are numbered without a gap, and a closed population is
-- dealt out whole.
use Prim.Native.Nat.{max}
use mathlib.Core.List.{append-nil}
use native.Mathlib.Nat.{le-div_iff_mul-le}
use regulator.Prelude.{
  ℕ, zero, suc, ◌+◌, ◌/◌, ◌≤◌, ◌<◌, ◌≡◌, refl, ap, Bool, true, false, Option, none, some, arith,
  List, [], ◌∷◌, ◌++◌, map, length, sum, All, ◌==◌, if◌then◌else◌, ◌∙◌, length-replicate,
}
use regulator.Fleet.Plan.{
  Weights, split_evenly, LoadModel, closed, opened, schedule, is_closed, Scenario, Request,
  Settings, Share, SlotPlan, GroupPlan, or_else, engines_of, steps_of, choose_model,
}
use regulator.Fleet.Plan.Split.{split_evenly_lem, length-split_evenly}
use regulator.Fleet.Plan.Groups.{
  wanted_workers, cap_workers, share_of, slots_from, group_of, plan_group, plan_groups, plan,
}

unfoldable pub slots_of : List GroupPlan → List SlotPlan
slots_of [] = []
slots_of (g ∷ gs) = g.slots ++ slots_of gs

abbrev pub range : ℕ → ℕ → List ℕ
range start zero = []
range start (suc n) = start ∷ range (suc start) n

abbrev pub numbers : List SlotPlan → List ℕ
numbers = map (λ s. s.slot)

users_of : SlotPlan → ℕ
users_of s = elim s.share.virtual_users [ none ↦ 0 | some n ↦ n ]

unfoldable pub total_users : List SlotPlan → ℕ
unfolding users_of
total_users [] = 0
total_users (s ∷ rest) = users_of s + total_users rest

range-append : (start m n : ℕ) → range start m ++ range (start + m) n ≡ range start (m + n)
range-append start zero n = ground (arith)
range-append start (suc m) n =
    let e : start + suc m ≡ suc start + m = omega arith in
    let f : suc m + n ≡ suc (m + n) = omega arith in
    rw (e, f) (ap (λ l. start ∷ l) (range-append (suc start) m n))

numbers-slots_from :
    (share : ℕ → ℕ → Share) (start index : ℕ) (shares : List ℕ)
    → numbers (slots_from share start index shares) ≡ range start (length shares)
unfolding slots_from
numbers-slots_from share start index [] = refl
numbers-slots_from share start index (u ∷ shares) =
    ap (λ l. start ∷ l) (numbers-slots_from share (suc start) (suc index) shares)

length-if :
    {n : ℕ} (b : Bool) (xs ys : List ℕ)
    → length xs ≡ n
    → length ys ≡ n
    → length (if b then xs else ys) ≡ n
length-if true xs ys p q = p
length-if false xs ys p q = q

numbers-group_of :
    (model : LoadModel) (engine vus : ℕ) (rate : ℕ × ℕ) (wanted start : ℕ)
    → numbers (group_of model engine vus rate wanted start).slots
      ≡ range start (group_of model engine vus rate wanted start).workers
unfolding group_of
numbers-group_of model engine vus rate wanted start =
    let workers = cap_workers model vus wanted in
    numbers-slots_from (share_of model engine workers rate) start 0 _
    ∙ ap (range start) (
        length-if (is_closed model) _ _ (length-split_evenly vus workers)
          (length-replicate workers 0))

numbers-append : (xs ys : List SlotPlan) → numbers (xs ++ ys) ≡ numbers xs ++ numbers ys
numbers-append [] ys = refl
numbers-append (x ∷ xs) ys = ap (λ l. x.slot ∷ l) (numbers-append xs ys)

unfoldable pub total_workers : List GroupPlan → ℕ
total_workers [] = 0
total_workers (g ∷ gs) = g.workers + total_workers gs

wanted_workers-pos :
    (run : Request) (settings : Settings) (single : Bool) (dealt : Option ℕ) (model : LoadModel)
    (density vus : ℕ) (rate : ℕ × ℕ)
    → 0 < wanted_workers run settings single dealt model density vus rate
unfolding wanted_workers
wanted_workers-pos run settings single dealt closed density vus (num, den) = ground arith
wanted_workers-pos run settings single dealt opened density vus (num, den) = ground arith
wanted_workers-pos run settings single dealt schedule density vus (num, den) = ground arith

total_users-slots_from :
    (engine workers : ℕ) (rate : ℕ × ℕ) (start index : ℕ) (shares : List ℕ)
    → All (λ n. 1 ≤ n) shares
    → total_users (slots_from (share_of closed engine workers rate) start index shares) ≡ sum shares
unfolding total_users slots_from share_of
total_users-slots_from engine workers rate start index [] h = refl
total_users-slots_from engine workers rate start index (u ∷ shares) h =
    omega
      (arith, total_users-slots_from engine workers rate (suc start) (suc index) shares h.1, h.0)

All-weaken :
    (b : ℕ) (xs : List ℕ) → 1 ≤ b → All (λ n. (b ≤ n) × (n ≤ b + 1)) xs → All (λ n. 1 ≤ n) xs
All-weaken b [] h a = tt
All-weaken b (x ∷ xs) h a = (omega arith, All-weaken b xs h a.1)

cap_bounds :
    (vus wanted : ℕ)
    → 0 < vus
    → 0 < wanted
    → (0 < cap_workers closed vus wanted) × (cap_workers closed vus wanted ≤ vus)
unfolding cap_workers
cap_bounds vus wanted h w = ground arith

-- A closed group runs its users, all of them, whatever the number of workers asked for.
total_users-group_of :
    (engine vus : ℕ) (rate : ℕ × ℕ) (wanted start : ℕ)
    → 0 < vus
    → 0 < wanted
    → total_users (group_of closed engine vus rate wanted start).slots ≡ vus
unfolding group_of
total_users-group_of engine vus rate wanted start h w =
    let workers = cap_workers closed vus wanted in
    let (pos, few) = cap_bounds vus wanted h w in
    let (_, whole, near) = split_evenly_lem vus workers pos in
    total_users-slots_from engine workers rate start 0 (split_evenly vus workers) (
      All-weaken (vus / workers) (split_evenly vus workers)
        ((le-div_iff_mul-le pos).1 (omega arith)) near)
    ∙ whole

module _ (run : Request) (settings : Settings) (model : LoadModel) (total_vus total_rate : ℕ)
    (weights : Weights) (single : Bool) where
  numbers-plan_group :
      (engine start : ℕ)
      → numbers
          (plan_group run settings model total_vus total_rate weights single engine start).slots
        ≡ range start
            (plan_group run settings model total_vus total_rate weights single engine start).workers
  unfolding plan_group
  numbers-plan_group engine start = numbers-group_of model engine _ _ _ start

  numbers-plan_groups :
      (engines : List ℕ) (start : ℕ)
      → numbers (
          slots_of
            (plan_groups run settings model total_vus total_rate weights single engines start))
        ≡ range start (
            total_workers
              (plan_groups run settings model total_vus total_rate weights single engines start))
  unfolding plan_groups slots_of total_workers
  numbers-plan_groups [] start = refl
  numbers-plan_groups (engine ∷ engines) start =
      let group = plan_group run settings model total_vus total_rate weights single engine start in
      let rest =
        plan_groups run settings model total_vus total_rate weights single engines
          (start + group.workers) in
      numbers-append group.slots (slots_of rest)
      ∙ rw (numbers-plan_group engine start, numbers-plan_groups engines (start + group.workers))
          (range-append start group.workers (total_workers rest))

-- The slots of a plan are 0, 1, 2 and so on, over all its groups, as many as it has workers: no slot
-- is given out twice.
pub plan-numbers :
    (run : Request) (scenario : Scenario) (settings : Settings)
    → numbers (slots_of (plan run scenario settings))
      ≡ range 0 (total_workers (plan run scenario settings))
unfolding plan
plan-numbers run scenario settings =
    let engines = engines_of (steps_of scenario.personas) in
    numbers-plan_groups run settings _ _ _ _ (length engines == 1) engines 0

module _ (run : Request) (settings : Settings) (total_vus total_rate : ℕ) (weights : Weights) where
  total_users-plan_group :
      (engine start : ℕ)
      → total_users
          (plan_group run settings closed total_vus total_rate weights true engine start).slots
        ≡ max 1 total_vus
  unfolding plan_group
  total_users-plan_group engine start =
      total_users-group_of engine (max 1 total_vus) (total_rate, 1) _ start (omega arith)
        (wanted_workers-pos run settings true none closed _ _ (total_rate, 1))

  total_users-plan_groups :
      (engine : ℕ)
      → total_users (
          slots_of
            (plan_groups run settings closed total_vus total_rate weights true (engine ∷ []) 0))
        ≡ max 1 total_vus
  unfolding plan_groups slots_of
  total_users-plan_groups engine = rw append-nil (total_users-plan_group engine 0)

or_else-pos : (a b : Option ℕ) → 0 < or_else a (or_else b 1)
unfolding or_else
or_else-pos a b = ground arith

-- For a scenario of one engine that runs the closed model the slots' users add up to the users of
-- the run, or of the scenario where the run names none.
pub plan-users :
    (run : Request) (scenario : Scenario) (settings : Settings) (engine : ℕ)
    → engines_of (steps_of scenario.personas) ≡ engine ∷ []
    → choose_model run scenario.model ≡ closed
    → total_users (slots_of (plan run scenario settings))
      ≡ or_else run.virtual_users (or_else scenario.virtual_users 1)
unfolding plan
plan-users run scenario settings engine one is_closed_model =
    rw (one, is_closed_model)
      (total_users-plan_groups run settings _ _ _ engine
        ∙ omega (arith, or_else-pos run.virtual_users scenario.virtual_users))
