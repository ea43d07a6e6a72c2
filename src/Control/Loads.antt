-- ===== src/Control/Loads.antt =====
-- What a change of the load that is accepted keeps within.
use mathlib.Core.Path.{subst}
use regulator.Prelude.{
  ℕ, ◌*◌, ◌≤◌, ◌==◌, ◌≡◌, refl, ◌∙◌, sym, inl, inr, Bool, true, false, not, Option, none, some,
  List, [], ◌∷◌, any, length, ltb, arith, Bool-cases, if◌then◌else◌,
}
use regulator.Fleet.Plan.{LoadModel, closed, opened, schedule}
use regulator.Fleet.Leases.{WorkerLease}
use regulator.Control.{
  Scheduler, Figure, virtual_users, arrival_rate_per_min, Controlled, Outcome, refuse, accept,
  and_then, Limits, density, fleet_model, scheduler_figure, fleet_figure, model_of, figure,
  require_running, set_load,
}

-- What is said of an outcome that is accepted.
abbrev IsFine : {A : Type 0} → (A → Type 0) → Outcome A → Type 0
IsFine P (refuse why) = Unit
IsFine P (accept a) = P a

and_then-IsFine :
    {A B : Type 0} (P : A → Type 0) (Q : B → Type 0) (o : Outcome A) (f : A → Outcome B)
    → IsFine P o
    → ((a : A) → P a → IsFine Q (f a))
    → IsFine Q (and_then o f)
and_then-IsFine P Q (refuse why) f h g = tt
and_then-IsFine P Q (accept a) f h g = g a h

any_outcome : {A : Type 0} (o : Outcome A) → IsFine (λ a. Unit) o
any_outcome (refuse why) = tt
any_outcome (accept a) = tt

not_over : (limit value : ℕ) → ltb limit value ≡ false → value ≤ limit
not_over limit value h = ground arith

-- What this control plane generates itself.
abbrev pub InProcess : Limits → ℕ → Figure → Type 0
InProcess limits value virtual_users = value ≤ limits.max_virtual_users
InProcess limits value arrival_rate_per_min = value ≤ limits.max_virtual_users * 60

-- What the workers of a fleet hold, by the engine of its leases; a rate is not limited.
abbrev pub InFleet : Limits → ℕ → ℕ → ℕ → Figure → Type 0
InFleet limits value workers engine virtual_users = value ≤ workers * density limits engine
InFleet limits value workers engine arrival_rate_per_min = Unit

scheduler_figure-InProcess :
    (limits : Limits) (value : ℕ) (model : LoadModel)
    → IsFine (InProcess limits value) (scheduler_figure limits value model)
unfolding scheduler_figure
scheduler_figure-InProcess limits value closed =
    elim (Bool-cases (ltb limits.max_virtual_users value)) [
      | inl over ↦ rw over tt
      | inr within ↦ rw within (not_over limits.max_virtual_users value within)
    ]
scheduler_figure-InProcess limits value opened =
    elim (Bool-cases (ltb (limits.max_virtual_users * 60) value)) [
      | inl over ↦ rw over tt
      | inr within ↦ rw within (not_over (limits.max_virtual_users * 60) value within)
    ]
scheduler_figure-InProcess limits value schedule = tt

-- The engine of the first lease.
abbrev pub engine_of : List WorkerLease → ℕ
engine_of [] = 0
engine_of (l ∷ ls) = l.engine

abbrev IsModel : List WorkerLease → Option (LoadModel × ℕ) → Type 0
IsModel ls none = Unit
IsModel ls (some (model, engine)) = engine ≡ engine_of ls

fleet_model-IsModel : (ls : List WorkerLease) → IsFine (IsModel ls) (fleet_model ls)
unfolding fleet_model
fleet_model-IsModel [] = tt
fleet_model-IsModel (l ∷ ls) = elim (Bool-cases (any (λ m. not (m.group == l.group)) ls)) [
  | inl mixed ↦ rw mixed tt
  | inr one ↦ rw one refl
]

fleet_figure-InFleet :
    (limits : Limits) (value workers engine : ℕ) (model : LoadModel)
    → IsFine
        (InFleet limits value workers engine)
        (fleet_figure limits value workers (some (model, engine)))
unfolding fleet_figure
fleet_figure-InFleet limits value workers engine closed =
    elim (Bool-cases (ltb (workers * density limits engine) value)) [
      | inl over ↦ rw over tt
      | inr within ↦ rw within (not_over (workers * density limits engine) value within)
    ]
fleet_figure-InFleet limits value workers engine opened = tt
fleet_figure-InFleet limits value workers engine schedule = tt

in_fleet :
    (limits : Limits) (value : ℕ) (ls : List WorkerLease) (m : Option (LoadModel × ℕ))
    → IsModel ls m
    → IsFine
        (InFleet limits value (length ls) (engine_of ls))
        (fleet_figure limits value (length ls) m)
unfolding fleet_figure
in_fleet limits value ls none h = tt
in_fleet limits value ls (some (model, engine)) h =
    subst
      (λ e.
        IsFine (InFleet limits value (length ls) e)
          (fleet_figure limits value (length ls) (some (model, engine))))
      h (fleet_figure-InFleet limits value (length ls) engine model)

abbrev pub IsWithin : Limits → ℕ → Controlled → Figure → Type 0
IsWithin limits value c kind =
    (c.in_process ≡ true → InProcess limits value kind)
    × (c.in_process ≡ false
        → InFleet limits value (length c.session.leases) (engine_of c.session.leases) kind)

IsFine-weaken :
    {A : Type 0} (P Q : A → Type 0) (o : Outcome A)
    → IsFine P o
    → ((a : A) → P a → Q a)
    → IsFine Q o
IsFine-weaken P Q (refuse why) h f = tt
IsFine-weaken P Q (accept a) h f = f a h

figure-IsWithin :
    (limits : Limits) (value : ℕ) (c : Controlled) (scheduler : Option Scheduler)
    → IsFine (IsWithin limits value c) (figure limits value c scheduler)
unfolding figure
figure-IsWithin limits value c scheduler =
    let fine : Bool → Type 0 = λ b. IsFine (IsWithin limits value c) (
      if b
      then and_then (model_of scheduler) (scheduler_figure limits value)
      else and_then (fleet_model c.session.leases)
          (fleet_figure limits value (length c.session.leases))) in
    elim (Bool-cases c.in_process) [
      | inl here ↦ subst fine (sym here) (
          IsFine-weaken (InProcess limits value) (IsWithin limits value c)
            (and_then (model_of scheduler) (scheduler_figure limits value))
            (and_then-IsFine (λ m. Unit) (InProcess limits value) (model_of scheduler)
              (scheduler_figure limits value) (any_outcome (model_of scheduler))
              (λ m u. scheduler_figure-InProcess limits value m))
            (λ kind h. ((λ e. h), λ e. absurd (ground (arith, sym here ∙ e)))))
      | inr away ↦ subst fine (sym away) (
          IsFine-weaken
            (InFleet limits value (length c.session.leases) (engine_of c.session.leases))
            (IsWithin limits value c)
            (and_then (fleet_model c.session.leases)
              (fleet_figure limits value (length c.session.leases)))
            (and_then-IsFine (IsModel c.session.leases)
              (InFleet limits value (length c.session.leases) (engine_of c.session.leases))
              (fleet_model c.session.leases) (fleet_figure limits value (length c.session.leases))
              (fleet_model-IsModel c.session.leases) (in_fleet limits value c.session.leases))
            (λ kind h. ((λ e. absurd (ground (arith, sym away ∙ e))), λ e. h)))
    ]

abbrev IsChange : Limits → ℕ → Controlled → Controlled × Figure → Type 0
IsChange limits value c r =
    (r.0.session.run.load_override ≡ some value)
    × (r.0.session.leases ≡ c.session.leases)
    × IsWithin limits value c r.1

-- A change of the load that is accepted sets the run's load to the value and leaves the leases alone. A
-- number of users is then at most the limit of this process, or in a fleet what its workers hold by the
-- engine of the first lease; a rate in this process is at most 60 times that limit, and a fleet's rate is
-- not limited.
pub set_load-IsWithin :
    (limits : Limits) (now value : ℕ) (c : Controlled) {c' : Controlled} {kind : Figure}
    → set_load limits now (some value) c ≡ accept (c', kind)
    → (c'.session.run.load_override ≡ some value)
      × (c'.session.leases ≡ c.session.leases)
      × IsWithin limits value c kind
unfolding set_load
set_load-IsWithin limits now value c e = subst (IsFine (IsChange limits value c)) e (
    and_then-IsFine (λ s. Unit) (IsChange limits value c) (require_running c) _
      (any_outcome (require_running c))
      (λ scheduler u.
        and_then-IsFine (IsWithin limits value c) (IsChange limits value c)
          (figure limits value c scheduler) _ (figure-IsWithin limits value c scheduler)
          (λ kind h. (refl, refl, h))))
