-- ===== src/Scheduling/RampBounds.antt =====
-- The ramp never asks for more than the largest of its loads, and holds its last load after its end.
use regulator.Prelude.{
  ◌∙◌, ap, ℕ, ◌+◌, ◌-◌, ◌*◌, ◌≤◌, ◌<◌, ◌≡◌, refl, arith, Option, none, some, List, [], ◌∷◌, ◌++◌,
  ◌==◌, ltb, any, if◌then◌else◌, max_of, Bool-cases, inl, inr, ne→==, ltb→lt, le→ltb,
}
use native.Mathlib.Nat.{mul-le-mul_right}
use regulator.Scheduling.RampEnd.{reached, new_ramp-reached}
use regulator.Scheduling.Ramp.{
  RampStage, Leg, Ramp, Quotient, climbs, walk_stage, walk, ramp_of, new_ramp, ramp_duration,
  within, target_from, target_at,
}

-- A quotient that is a number, and at most `bound`.
abbrev pub IsAtMost : ℕ → Quotient → Type 0
IsAtMost bound q = (0 < q.den) × (q.num ≤ bound * q.den)

abbrev pub AreWithin : ℕ → List Leg → Type 0
AreWithin bound [] = Unit
AreWithin bound ((duration, start, end_) ∷ rest) =
    (start ≤ bound) × (end_ ≤ bound) × AreWithin bound rest

split_duration : (b d r : ℕ) → r < d → b * (d - r) + b * r ≡ b * d
split_duration b d r h = grind (arith)

within-IsAtMost :
    (bound duration start end_ remaining : ℕ)
    → start ≤ bound
    → end_ ≤ bound
    → remaining < duration
    → IsAtMost bound (within duration start end_ remaining)
unfolding within
within-IsAtMost bound duration start end_ remaining p q lt =
    let low : start * (duration - remaining) ≤ bound * (duration - remaining) =
      mul-le-mul_right (duration - remaining) p in
    let high : end_ * remaining ≤ bound * remaining = mul-le-mul_right remaining q in
    (omega arith, omega (arith, low, high, split_duration bound duration remaining lt))

target_from-IsAtMost :
    (bound : ℕ) (legs : List Leg) (end_load remaining : ℕ)
    → AreWithin bound legs
    → end_load ≤ bound
    → IsAtMost bound (target_from legs end_load remaining)
unfolding target_from
target_from-IsAtMost bound [] end_load remaining ws e = (omega arith, omega arith)
target_from-IsAtMost bound ((duration, start, end_) ∷ rest) end_load remaining (p, q, ws) e =
    let later = target_from-IsAtMost bound rest end_load (remaining - duration) ws e in
    elim (Bool-cases (duration == 0)) [
      | inl z ↦ elim (Bool-cases (remaining == 0)) [
        | inl now ↦ rw (z, now) (omega arith, omega arith)
        | inr past ↦ rw (z, past) later
      ]
      | inr some_time ↦ elim (Bool-cases (ltb remaining duration)) [
        | inl inside ↦
            rw (some_time, inside)
              (within-IsAtMost bound duration start end_ remaining p q (ltb→lt _ _ inside))
        | inr past ↦ rw (some_time, past) later
      ]
    ]

-- The targets that the stages name.
abbrev pub target_of : RampStage → Option ℕ → ℕ
target_of stage none = 0
target_of stage (some to) = to

abbrev pub targets : List RampStage → List ℕ
targets [] = []
targets (stage ∷ rest) = target_of stage stage.to ∷ targets rest

AreWithin-append :
    (bound : ℕ) (xs ys : List Leg)
    → AreWithin bound xs
    → AreWithin bound ys
    → AreWithin bound (xs ++ ys)
AreWithin-append bound [] ys p q = q
AreWithin-append bound ((d, s, e) ∷ xs) ys (p, r, ws) q = (p, r, AreWithin-append bound xs ys ws q)

-- A walk whose loads are within the bound.
abbrev IsWalk : ℕ → List Leg × ℕ → Type 0
IsWalk bound (legs, last) = AreWithin bound legs × (last ≤ bound)

walk_stage-IsWalk :
    (bound current : ℕ) (stage : RampStage) (o : Option ℕ)
    → current ≤ bound
    → target_of stage o ≤ bound
    → IsWalk bound (walk_stage current stage o)
unfolding walk_stage
walk_stage-IsWalk bound current stage none p q = elim (Bool-cases (stage.hold == 0)) [
  | inl h ↦ rw h (tt, p)
  | inr h ↦ rw h ((p, p, tt), p)
]
walk_stage-IsWalk bound current stage (some to) p q = ((p, q, tt), q)

walk-IsWalk :
    (bound current : ℕ) (stages : List RampStage)
    → current ≤ bound
    → max_of (targets stages) ≤ bound
    → IsWalk bound (walk current stages)
unfolding walk max_of
walk-IsWalk bound current [] p q = (tt, p)
walk-IsWalk bound current (stage ∷ rest) p q =
    let w = walk_stage-IsWalk bound current stage stage.to p (ground (arith, q)) in
    let v = walk-IsWalk bound (walk_stage current stage stage.to).1 rest w.1 (ground (arith, q)) in
    (AreWithin-append bound (walk_stage current stage stage.to).0 _ w.0 v.0, v.1)

abbrev IsRamp : ℕ → Ramp → Type 0
IsRamp bound ramp = AreWithin bound ramp.legs × (ramp.end_load ≤ bound)

ramp_of-IsRamp :
    (bound end_load : ℕ) (walked : List Leg × ℕ)
    → end_load ≤ bound
    → IsWalk bound walked
    → IsRamp bound (ramp_of end_load walked)
unfolding ramp_of
ramp_of-IsRamp bound end_load ([], last) p w = ((p, p, tt), p)
ramp_of-IsRamp bound end_load (leg ∷ legs, last) p w = w

new_ramp-IsRamp :
    (stages : List RampStage) (end_load : ℕ)
    → IsRamp (max_of (end_load ∷ targets stages)) (new_ramp stages end_load)
unfolding new_ramp max_of
new_ramp-IsRamp stages end_load =
    let bound = max_of (end_load ∷ targets stages) in
    let declared : end_load ≤ bound = ground arith in
    ramp_of-IsRamp bound end_load _ declared (
      walk-IsWalk bound (if any climbs stages then 0 else end_load) stages
        (ground (arith, declared)) (ground arith))

-- Past the end of its legs a ramp holds its last load.
target_from-after :
    (legs : List Leg) (end_load remaining : ℕ)
    → ramp_duration legs < remaining
    → target_from legs end_load remaining ≡ record { num = end_load; den = 1 }
unfolding target_from ramp_duration
target_from-after [] end_load remaining h = refl
target_from-after ((duration, start, end_) ∷ rest) end_load remaining h =
    let later = target_from-after rest end_load (remaining - duration) (omega (arith, h)) in
    elim (Bool-cases (duration == 0)) [
      | inl z ↦ rw (z, ne→== remaining 0 (λ e. absurd (omega (arith, h, e)))) later
      | inr some_time ↦ rw (some_time, le→ltb remaining duration (omega (arith, h))) later
    ]

-- At any time the load that a ramp asks for is a number that is at most the largest of the declared load
-- and the stages' targets, and once its legs are over it is the target that the stages name last, or the
-- declared load where they name none.
pub target_at-IsAtMost :
    (stages : List RampStage) (end_load elapsed : ℕ)
    → IsAtMost (max_of (end_load ∷ targets stages)) (target_at (new_ramp stages end_load) elapsed)
      × (ramp_duration (new_ramp stages end_load).legs < elapsed
          → target_at (new_ramp stages end_load) elapsed
            ≡ record { num = reached end_load stages; den = 1 })
unfolding target_at
target_at-IsAtMost stages end_load elapsed =
    let r = new_ramp-IsRamp stages end_load in
    let ramp = new_ramp stages end_load in
    (
      target_from-IsAtMost _ ramp.legs ramp.end_load elapsed r.0 r.1,
      λ h.
          target_from-after ramp.legs ramp.end_load elapsed h
          ∙ ap (λ load. record { num = load; den = 1 }) (new_ramp-reached stages end_load),
    )
