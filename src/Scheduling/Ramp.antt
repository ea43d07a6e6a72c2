-- ===== src/Scheduling/Ramp.antt =====
-- `Ramp`: the target load as a function of the time. A load within a climb is a quotient.
use regulator.Prelude.{
  ℕ, ◌+◌, ◌-◌, ◌*◌, Bool, true, false, Option, none, some, List, [], ◌∷◌, ◌++◌, ◌==◌, ltb, any,
  if◌then◌else◌,
}

-- A stage climbs to a target over a time, or holds for a time.
pub record RampStage : Type 0 where
  pub to : Option ℕ
  pub over : ℕ
  pub hold : ℕ

-- The duration of a leg, the load it starts at and the load it ends at.
abbrev pub Leg : Type 0
Leg = ℕ × ℕ × ℕ

pub record Ramp : Type 0 where
  pub legs : List Leg
  pub end_load : ℕ

pub record Quotient : Type 0 where
  pub num : ℕ
  pub den : ℕ

abbrev pub climbs : RampStage → Bool
climbs stage = elim stage.to [ none ↦ false | some to ↦ true ]

-- The loop of `__init__` over the stages, from the load `current`: the legs, and the load at the end.
unfoldable pub walk_stage : ℕ → RampStage → Option ℕ → List Leg × ℕ
walk_stage current stage (some to) = ((stage.over, current, to) ∷ [], to)
walk_stage current stage none =
    if stage.hold == 0 then ([], current) else ((stage.hold, current, current) ∷ [], current)

unfoldable pub walk : ℕ → List RampStage → List Leg × ℕ
unfolding walk_stage
walk current [] = ([], current)
walk current (stage ∷ rest) =
    let (legs, reached) = walk_stage current stage stage.to in
    let (more, last) = walk reached rest in (legs ++ more, last)

-- A ramp without a leg is the full load from the start.
unfoldable pub ramp_of : ℕ → List Leg × ℕ → Ramp
ramp_of end_load ([], last) = record { legs = (0, end_load, end_load) ∷ []; end_load = end_load }
ramp_of end_load (leg ∷ legs, last) = record { legs = leg ∷ legs; end_load = last }

-- `Ramp.__init__`; a ramp of holds alone starts from the declared load.
unfoldable pub new_ramp : List RampStage → ℕ → Ramp
unfolding walk ramp_of
new_ramp stages end_load =
    ramp_of end_load (walk (if any climbs stages then 0 else end_load) stages)

unfoldable pub ramp_duration : List Leg → ℕ
ramp_duration [] = 0
ramp_duration ((duration, start, end_) ∷ rest) = duration + ramp_duration rest

-- The load within a leg: start + (end - start) * remaining / duration.
unfoldable pub within : ℕ → ℕ → ℕ → ℕ → Quotient
within duration start end_ remaining = record {
  num = start * (duration - remaining) + end_ * remaining;
  den = duration;
}

-- `target_at`
unfoldable pub target_from : List Leg → ℕ → ℕ → Quotient
unfolding within
target_from [] end_load remaining = record { num = end_load; den = 1 }
target_from ((duration, start, end_) ∷ rest) end_load remaining =
    let later = target_from rest end_load (remaining - duration) in
    if duration == 0
    then (if remaining == 0 then record { num = end_; den = 1 } else later)
    else if ltb remaining duration
    then within duration start end_ remaining
    else later

unfoldable pub target_at : Ramp → ℕ → Quotient
unfolding target_from
target_at ramp elapsed = target_from ramp.legs ramp.end_load elapsed

-- `_target_load`: a live change of the load replaces the ramp.
unfoldable pub target_load : Option ℕ → Ramp → ℕ → Quotient
unfolding target_at
target_load none ramp elapsed = target_at ramp elapsed
target_load (some load) ramp elapsed = record { num = load; den = 1 }
