-- ===== src/Compare/Pass.antt =====
-- What a gate that passes rests on, and that it goes on to pass when the candidate does better.
use mathlib.Core.Path.{subst}
use regulator.Prelude.{
  ℕ, ◌+◌, ◌*◌, ◌≤◌, ◌≡◌, refl, ap, ◌∙◌, sym, inl, inr, Bool, true, false, Option, none, some, arith,
  Option-cases, leb→le, le→leb, ltb→lt, lt→ltb,
}
use regulator.Compare.{Summary, metric_value}
use regulator.Compare.Gate.{
  Signed, Gate, GateResult, Op, le, lt, Limit, meets, holds, judged, relative, evaluate_by,
  evaluate_actual, evaluate, percent_limit, shifted_limit, flat_limit,
}

abbrev pub is_relative_by : Option Signed → Option Signed → Bool
is_relative_by (some pct) amount = true
is_relative_by none (some amount) = true
is_relative_by none none = false

abbrev pub is_relative : Gate → Bool
is_relative gate = is_relative_by gate.relative_pct gate.relative_abs

-- The baseline is there, and has the gate's metric.
abbrev pub IsGiven : Gate → Option Summary → Type 0
IsGiven gate baseline =
    (b : Summary) × (value : ℕ) × (baseline ≡ some b)
    × (metric_value b gate.metric gate.step ≡ some value)

-- What a passed gate rests on: the candidate's figure within a limit, and the baseline's figure where
-- the gate is relative.
pub record IsPass (gate : Gate) (candidate : Summary) (baseline : Option Summary) (r : GateResult)
    : Type 0 where
  pub actual : ℕ
  pub found : metric_value candidate gate.metric gate.step ≡ some actual
  pub limit : Limit
  pub limited : r.limit ≡ some limit
  pub met : meets gate.op actual limit ≡ true
  pub against : is_relative gate ≡ true → IsGiven gate baseline

false_true : {A : Type 0} → false ≡ true → A
false_true h = absurd (ground (arith, h))

relative-given :
    (gate : Gate) (actual : ℕ) (limit_of : ℕ → Limit) (baseline : Option Summary)
    → (relative gate actual limit_of baseline).passed ≡ true
    → (b : Summary) × (value : ℕ) × (baseline ≡ some b)
      × (metric_value b gate.metric gate.step ≡ some value)
      × (relative gate actual limit_of baseline ≡ judged gate actual (some value) (limit_of value))
unfolding relative
relative-given gate actual limit_of none h = false_true h
relative-given gate actual limit_of (some b) h =
    elim (Option-cases (metric_value b gate.metric gate.step)) [
      | inl absent ↦ false_true (sym (rw (absent, relative) at (sym h)))
      | inr (value, e) ↦ (b, value, refl, e, rw (e, relative) refl)
    ]

judged-met :
    (gate : Gate) (actual : ℕ) (baseline : Option ℕ) (limit : Limit)
    → (judged gate actual baseline limit).passed ≡ meets gate.op actual limit
unfolding judged
judged-met gate actual baseline limit = refl

judged-limit :
    (gate : Gate) (actual : ℕ) (baseline : Option ℕ) (limit : Limit)
    → (judged gate actual baseline limit).limit ≡ some limit
unfolding judged
judged-limit gate actual baseline limit = refl

relative-IsPass :
    (gate : Gate) (candidate : Summary) (actual : ℕ) (limit_of : ℕ → Limit)
    (baseline : Option Summary)
    → metric_value candidate gate.metric gate.step ≡ some actual
    → (relative gate actual limit_of baseline).passed ≡ true
    → IsPass gate candidate baseline (relative gate actual limit_of baseline)
relative-IsPass gate candidate actual limit_of baseline found h =
    let (b, value, there, has, e) = relative-given gate actual limit_of baseline h in
    record {
      actual = actual;
      found = found;
      limit = limit_of value;
      limited = ap (λ r. r.limit) e ∙ judged-limit gate actual (some value) (limit_of value);
      met =
          sym (judged-met gate actual (some value) (limit_of value))
          ∙ ap (λ r. r.passed) (sym e)
          ∙ h;
      against = λ r. (b, value, there, has);
    }

flat-IsPass :
    (gate : Gate) (candidate : Summary) (actual : ℕ) (baseline : Option Summary)
    → metric_value candidate gate.metric gate.step ≡ some actual
    → is_relative gate ≡ false
    → (judged gate actual none (flat_limit gate.absolute)).passed ≡ true
    → IsPass gate candidate baseline (judged gate actual none (flat_limit gate.absolute))
flat-IsPass gate candidate actual baseline found not_relative h = record {
  actual = actual;
  found = found;
  limit = flat_limit gate.absolute;
  limited = judged-limit gate actual none (flat_limit gate.absolute);
  met = sym (judged-met gate actual none (flat_limit gate.absolute)) ∙ h;
  against = λ r. false_true (sym not_relative ∙ r);
}

evaluate_by-IsPass :
    (gate : Gate) (candidate : Summary) (actual : ℕ) (baseline : Option Summary)
    (pct amount : Option Signed)
    → metric_value candidate gate.metric gate.step ≡ some actual
    → is_relative gate ≡ is_relative_by pct amount
    → (evaluate_by gate actual baseline pct amount).passed ≡ true
    → IsPass gate candidate baseline (evaluate_by gate actual baseline pct amount)
unfolding evaluate_by
evaluate_by-IsPass gate candidate actual baseline (some pct) amount found same h =
    relative-IsPass gate candidate actual (λ value. percent_limit value pct) baseline found h
evaluate_by-IsPass gate candidate actual baseline none (some amount) found same h =
    relative-IsPass gate candidate actual (λ value. shifted_limit value amount) baseline found h
evaluate_by-IsPass gate candidate actual baseline none none found same h =
    flat-IsPass gate candidate actual baseline found same h

-- A gate passes only on figures that are there: the candidate has the metric, the figure is within
-- the limit that the result names, and for a gate relative to a baseline there is one with the metric.
pub evaluate-IsPass :
    (gate : Gate) (candidate : Summary) (baseline : Option Summary)
    → (evaluate gate candidate baseline).passed ≡ true
    → IsPass gate candidate baseline (evaluate gate candidate baseline)
unfolding evaluate evaluate_actual
evaluate-IsPass gate candidate baseline h =
    elim (Option-cases (metric_value candidate gate.metric gate.step)) [
      | inl absent ↦ false_true (sym (rw (absent, evaluate) at (sym h)))
      | inr (actual, e) ↦
          let whole : evaluate gate candidate baseline
              ≡ evaluate_by gate actual baseline gate.relative_pct gate.relative_abs =
            rw (e, evaluate) refl in
          subst (IsPass gate candidate baseline) (sym whole) (
            evaluate_by-IsPass gate candidate actual baseline gate.relative_pct gate.relative_abs e
              refl (ap (λ r. r.passed) (sym whole) ∙ h))
    ]

-- A gate that bounds a figure from above.
pub data IsUpper : Op → Type 0 where
  at_most : IsUpper le
  below : IsUpper lt

meets_mono :
    {op : Op} (limit : Limit) (a b : ℕ)
    → IsUpper op
    → a ≤ b
    → meets op b limit ≡ true
    → meets op a limit ≡ true
unfolding meets holds
meets_mono limit a b at_most le_ab h =
    le→leb _ _ (omega (arith, leb→le (b * 100 + limit.below) limit.above h))
meets_mono limit a b below le_ab h =
    lt→ltb _ _ (omega (arith, ltb→lt (b * 100 + limit.below) limit.above h))

judged_mono :
    (gate : Gate) (limit : Limit) (v w : Option ℕ) (a b : ℕ)
    → IsUpper gate.op
    → a ≤ b
    → (judged gate b v limit).passed ≡ true
    → (judged gate a w limit).passed ≡ true
judged_mono gate limit v w a b upper h e =
    judged-met gate a w limit ∙ meets_mono limit a b upper h (sym (judged-met gate b v limit) ∙ e)

relative_mono :
    (gate : Gate) (limit_of : ℕ → Limit) (baseline : Option Summary) (a b : ℕ)
    → IsUpper gate.op
    → a ≤ b
    → (relative gate b limit_of baseline).passed ≡ true
    → (relative gate a limit_of baseline).passed ≡ true
unfolding relative
relative_mono gate limit_of none a b upper h e = false_true e
relative_mono gate limit_of (some s) a b upper h e =
    elim (Option-cases (metric_value s gate.metric gate.step)) [
      | inl absent ↦ false_true (sym (rw (absent, relative) at (sym e)))
      | inr (value, has) ↦
          rw (has, relative)
            (judged_mono gate (limit_of value) (some value) (some value) a b upper h
              (rw (has, relative) at e))
    ]

evaluate_by_mono :
    (gate : Gate) (baseline : Option Summary) (pct amount : Option Signed) (a b : ℕ)
    → IsUpper gate.op
    → a ≤ b
    → (evaluate_by gate b baseline pct amount).passed ≡ true
    → (evaluate_by gate a baseline pct amount).passed ≡ true
unfolding evaluate_by
evaluate_by_mono gate baseline (some pct) amount a b upper h =
    relative_mono gate (λ value. percent_limit value pct) baseline a b upper h
evaluate_by_mono gate baseline none (some amount) a b upper h =
    relative_mono gate (λ value. shifted_limit value amount) baseline a b upper h
evaluate_by_mono gate baseline none none a b upper h =
    judged_mono gate (flat_limit gate.absolute) none none a b upper h

pub evaluate_found :
    (gate : Gate) (candidate : Summary) (baseline : Option Summary) (actual : ℕ)
    → metric_value candidate gate.metric gate.step ≡ some actual
    → evaluate gate candidate baseline
      ≡ evaluate_by gate actual baseline gate.relative_pct gate.relative_abs
unfolding evaluate evaluate_actual
evaluate_found gate candidate baseline actual e = rw (e, evaluate) refl

-- A gate that bounds a figure from above and passes for a candidate passes against the same baseline
-- for any candidate whose figure is no higher.
pub evaluate_mono :
    (gate : Gate) (better worse : Summary) (baseline : Option Summary) (a b : ℕ)
    → IsUpper gate.op
    → metric_value better gate.metric gate.step ≡ some a
    → metric_value worse gate.metric gate.step ≡ some b
    → a ≤ b
    → (evaluate gate worse baseline).passed ≡ true
    → (evaluate gate better baseline).passed ≡ true
evaluate_mono gate better worse baseline a b upper ea eb h e =
    ap (λ r. r.passed) (evaluate_found gate better baseline a ea)
    ∙ evaluate_by_mono gate baseline gate.relative_pct gate.relative_abs a b upper h
        (ap (λ r. r.passed) (sym (evaluate_found gate worse baseline b eb)) ∙ e)
