-- ===== src/Fleet/Plan.antt =====
-- server/regulator_server/fleet.py, planning: `_split_evenly`, `_deal` and `plan`. Weights and rates
-- are numbers in a common unit, so a quotient of floats is a pair of numbers here; images and
-- scenario files, which the plan only carries along, are left out.
pub mod Split
pub mod Deal
pub mod Groups
pub mod Slots
pub mod Tests
use Prim.Native.Nat.{max}
use regulator.Prelude.{
  ℕ, zero, suc, ◌+◌, ◌-◌, ◌*◌, ◌/◌, ◌%◌, Bool, true, false, not, ◌&&◌, ◌||◌, Option, none, some,
  List, [], ◌∷◌, ◌++◌, map, length, sum, any, ltb, ◌==◌, if◌then◌else◌,
}

-- The worker of this index and of the following ones: `base`, and 1 more below `remainder`.
pub split_from : ℕ → ℕ → ℕ → ℕ → List ℕ
split_from base remainder index zero = []
split_from base remainder index (suc left) =
    (base + (if ltb index remainder then 1 else 0)) ∷ split_from base remainder (suc index) left

unfoldable pub split_evenly : ℕ → ℕ → List ℕ
unfolding split_from
split_evenly total workers = split_from (total / workers) (total % workers) 0 workers

-- A dictionary from engine names to numbers. The names are numbers, in the order of the texts.
abbrev pub Weights : Type 0
Weights = List (ℕ × ℕ)

abbrev pub values : Weights → List ℕ
values = map (λ e. e.1)

-- `sum(weights.values()) or 1.0`
pub weight_total : Weights → ℕ
weight_total weights = let total = sum (values weights) in if total == 0 then 1 else total

-- sorted(raw, key=lambda k: (raw[k] - shares[k], k), reverse=True): pairs of a key and the
-- numerator of its fraction, the largest first.
pub is_after : ℕ × ℕ → ℕ × ℕ → Bool
is_after (k, f) (j, g) = ltb g f || f == g && ltb j k

pub place : ℕ × ℕ → Weights → Weights
unfolding is_after
place e [] = e ∷ []
place e (d ∷ rest) = if is_after e d then e ∷ d ∷ rest else d ∷ place e rest

pub rank : Weights → Weights
unfolding place
rank [] = []
rank (e ∷ rest) = place e (rank rest)

-- shares[key] += 1
pub give_one : ℕ → Weights → Weights
give_one k [] = []
give_one k ((j, n) ∷ rest) = if j == k then (j, n + 1) ∷ rest else (j, n) ∷ give_one k rest

-- for key in keys[:count]: shares[key] += 1
pub give : ℕ → Weights → Weights → Weights
unfolding give_one
give zero keys shares = shares
give (suc count) [] shares = shares
give (suc count) ((k, f) ∷ keys) shares = give count keys (give_one k shares)

pub floors : ℕ → ℕ → Weights → Weights
floors total whole = map (λ e. (e.0, total * e.1 / whole))

pub fractions : ℕ → ℕ → Weights → Weights
fractions total whole = map (λ e. (e.0, total * e.1 % whole))

unfoldable pub deal : ℕ → Weights → Weights
unfolding weight_total rank give floors fractions
deal total weights =
    let whole = weight_total weights in
    let shares = floors total whole weights in
    give (total - sum (values shares)) (rank (fractions total whole weights)) shares

-- The engines, numbered in the order of their names.
abbrev pub api : ℕ
api = 0

abbrev pub browser : ℕ
browser = 1

pub data LoadModel : Type 0 where
  closed opened schedule : LoadModel

pub is_closed : LoadModel → Bool
is_closed closed = true
is_closed _ = false

pub record Persona : Type 0 where
  pub weight : ℕ
  pub steps : List ℕ

pub record Scenario : Type 0 where
  pub personas : List Persona
  pub model : LoadModel
  pub virtual_users : Option ℕ
  pub arrival_rate_per_min : Option ℕ

-- What the run row overrides. Of the pacing only its presence counts here.
pub record Request : Type 0 where
  pub virtual_users : Option ℕ
  pub arrival_rate_per_min : Option ℕ
  pub has_pacing : Bool
  pub workers : Option ℕ

pub record Settings : Type 0 where
  pub vus_per_worker : ℕ
  pub browser_contexts_per_worker : ℕ

-- `rate` is the group's arrival rate and the number that it is divided by.
pub record Share : Type 0 where
  pub model : LoadModel
  pub engine : ℕ
  pub group_slot : ℕ
  pub group_workers : ℕ
  pub virtual_users : Option ℕ
  pub rate : Option (ℕ × ℕ)

pub record SlotPlan : Type 0 where
  pub slot : ℕ
  pub share : Share

pub record GroupPlan : Type 0 where
  pub engine : ℕ
  pub workers : ℕ
  pub slots : List SlotPlan

-- Python's truth of an optional number, and `a or b`.
pub is_set : Option ℕ → Bool
is_set none = false
is_set (some n) = not (n == 0)

pub or_else : Option ℕ → ℕ → ℕ
or_else none d = d
or_else (some n) d = if n == 0 then d else n

-- The set of the steps' engines, sorted, or the API engine alone.
pub engines_of : List ℕ → List ℕ
engines_of steps =
    if any (λ e. e == api) steps
    then if any (λ e. e == browser) steps then api ∷ browser ∷ [] else api ∷ []
    else if any (λ e. e == browser) steps
    then browser ∷ []
    else api ∷ []

pub steps_of : List Persona → List ℕ
steps_of [] = []
steps_of (p ∷ ps) = p.steps ++ steps_of ps

pub add_weight : ℕ → ℕ → Weights → Weights
add_weight engine w [] = (engine, w) ∷ []
add_weight engine w ((e, v) ∷ rest) =
    if e == engine then (e, v + w) ∷ rest else (e, v) ∷ add_weight engine w rest

-- Twice the weight over the number of the persona's engines, which is 1 or 2.
pub add_persona : ℕ → ℕ → List ℕ → Weights → Weights
unfolding add_weight
add_persona weight count [] weights = weights
add_persona weight count (e ∷ es) weights =
    add_persona weight count es (add_weight e (2 * weight / max 1 count) weights)

pub add_personas : List Persona → Weights → Weights
unfolding add_persona engines_of
add_personas [] weights = weights
add_personas (p ∷ ps) weights =
    let engines = engines_of p.steps in
    add_personas ps (add_persona p.weight (length engines) engines weights)

unfoldable pub get : ℕ → ℕ → Weights → ℕ
get k d [] = d
get k d ((j, n) ∷ rest) = if j == k then n else get k d rest

pub choose_model : Request → LoadModel → LoadModel
unfolding is_set
choose_model run schedule = if is_set run.arrival_rate_per_min then opened else schedule
choose_model run model =
    if is_set run.arrival_rate_per_min
    then opened
    else if is_set run.virtual_users || run.has_pacing
    then closed
    else model

pub ceil_div : ℕ → ℕ → ℕ
ceil_div a b = (a + (b - 1)) / b
