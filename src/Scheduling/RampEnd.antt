-- ===== src/Scheduling/RampEnd.antt =====
-- The load at which a ramp ends.
use regulator.Prelude.{
  ℕ, ◌≡◌, refl, arith, Bool, true, false, ◌||◌, Option, none, some, List, [], ◌∷◌, ◌++◌, ◌==◌, any,
  Bool-cases, inl, inr, sym, ◌∙◌,
}
use regulator.Scheduling.Ramp.{RampStage, Leg, climbs, walk_stage, walk, ramp_of, new_ramp}

-- The load at which the stages end, from `current`: that of the last one that names a target.
unfoldable pub reached : ℕ → List RampStage → ℕ
reached current [] = current
reached current (stage ∷ rest) = elim stage.to [
  | none ↦ reached current rest
  | some to ↦ reached to rest
]

walk-reached :
    (current : ℕ) (stages : List RampStage) → (walk current stages).1 ≡ reached current stages
unfolding walk walk_stage reached
walk-reached current [] = refl
walk-reached current (stage ∷ rest) = stage_reached (λ load. walk-reached load rest) stage.to
  where
    stage_reached :
        ((load : ℕ) → (walk load rest).1 ≡ reached load rest)
        → (o : Option ℕ)
        → (walk (walk_stage current stage o).1 rest).1
          ≡ elim o [ none ↦ reached current rest | some to ↦ reached to rest ]
    stage_reached ih (some to) = ih to
    stage_reached ih none = elim (Bool-cases (stage.hold == 0)) [
      | inl h ↦ rw h (ih current)
      | inr h ↦ rw h (ih current)
    ]

-- Without a climb the stages stay where they begin, and with one the ramp has a leg.
reached-flat :
    (current : ℕ) (stages : List RampStage)
    → any climbs stages ≡ false
    → reached current stages ≡ current
unfolding reached
reached-flat current [] h = refl
reached-flat current (stage ∷ rest) h = flat (reached-flat current rest) stage.to h
  where
    flat :
        (any climbs rest ≡ false → reached current rest ≡ current)
        → (o : Option ℕ) → (elim o [ none ↦ false | some to ↦ true ] || any climbs rest) ≡ false
        → elim o [ none ↦ reached current rest | some to ↦ reached to rest ] ≡ current
    flat ih none h = ih h
    flat ih (some to) h = absurd (ground (arith, h))

reached-climb :
    (a b : ℕ) (stages : List RampStage)
    → any climbs stages ≡ true
    → reached a stages ≡ reached b stages
unfolding reached
reached-climb a b [] h = absurd (ground (arith, h))
reached-climb a b (stage ∷ rest) h = climb (reached-climb a b rest) stage.to h
  where
    climb :
        (any climbs rest ≡ true → reached a rest ≡ reached b rest)
        → (o : Option ℕ) → (elim o [ none ↦ false | some to ↦ true ] || any climbs rest) ≡ true
        → elim o [ none ↦ reached a rest | some to ↦ reached to rest ]
          ≡ elim o [ none ↦ reached b rest | some to ↦ reached to rest ]
    climb ih none h = ih h
    climb ih (some to) h = refl

abbrev is_flat : List Leg → Bool
is_flat [] = true
is_flat (leg ∷ legs) = false

is_flat-append : (xs ys : List Leg) → is_flat ys ≡ false → is_flat (xs ++ ys) ≡ false
is_flat-append [] ys h = h
is_flat-append (x ∷ xs) ys h = refl

walk-climb :
    (current : ℕ) (stages : List RampStage)
    → any climbs stages ≡ true
    → is_flat (walk current stages).0 ≡ false
unfolding walk walk_stage
walk-climb current [] h = absurd (ground (arith, h))
walk-climb current (stage ∷ rest) h = climb (λ load. walk-climb load rest) stage.to h
  where
    climb :
        ((load : ℕ) → any climbs rest ≡ true → is_flat (walk load rest).0 ≡ false)
        → (o : Option ℕ) → (elim o [ none ↦ false | some to ↦ true ] || any climbs rest) ≡ true
        → is_flat ((walk_stage current stage o).0 ++ (walk (walk_stage current stage o).1 rest).0)
          ≡ false
    climb ih none h =
        is_flat-append (walk_stage current stage none).0
          (walk (walk_stage current stage none).1 rest).0 (ih (walk_stage current stage none).1 h)
    climb ih (some to) h = refl

ramp_of-last :
    (end_load : ℕ) (walked : List Leg × ℕ)
    → is_flat walked.0 ≡ false
    → (ramp_of end_load walked).end_load ≡ walked.1
unfolding ramp_of
ramp_of-last end_load ([], last) h = absurd (ground (arith, h))
ramp_of-last end_load (leg ∷ legs, last) h = refl

ramp_of-flat :
    (end_load : ℕ) (walked : List Leg × ℕ)
    → walked.1 ≡ end_load
    → (ramp_of end_load walked).end_load ≡ end_load
unfolding ramp_of
ramp_of-flat end_load ([], last) h = refl
ramp_of-flat end_load (leg ∷ legs, last) h = h

pub new_ramp-reached :
    (stages : List RampStage) (end_load : ℕ)
    → (new_ramp stages end_load).end_load ≡ reached end_load stages
unfolding new_ramp
new_ramp-reached stages end_load = elim (Bool-cases (any climbs stages)) [
  | inl h ↦ rw h (
      ramp_of-last end_load (walk 0 stages) (walk-climb 0 stages h)
      ∙ walk-reached 0 stages
      ∙ reached-climb 0 end_load stages h)
  | inr h ↦ rw h (
      ramp_of-flat end_load (walk end_load stages)
        (walk-reached end_load stages ∙ reached-flat end_load stages h)
      ∙ sym (reached-flat end_load stages h))
]
