-- ===== src/Compare/Self.antt =====
-- A run compared with itself: no warning, and no gate finds a change for the worse.
use native.Mathlib.Nat.{mul-le-mul_left}
use regulator.Prelude.{
  ℕ, ◌+◌, ◌≡◌, refl, ap, ◌∙◌, Bool, true, false, not, ◌&&◌, [], Option, none, some, arith, ◌==◌,
  ==_iff, le→leb,
}
use regulator.Compare.{Summary, metric_value}
use regulator.Compare.Gate.{
  Gate, le, plus, percent_limit, meets, holds, judged, relative, evaluate_by, evaluate,
}
use regulator.Compare.Pass.{evaluate_found}
use regulator.Compare.Steps.{
  Warning, equal, both_differ, both_there, warn, seed_of, workload_warnings,
}

self_equal : (n : ℕ) → (n == n) ≡ true
self_equal n = (==_iff n n).1 refl

equal_refl : (o : Option ℕ) → equal o o ≡ true
unfolding equal
equal_refl none = refl
equal_refl (some n) = self_equal n

both_differ_refl : (o : Option ℕ) → both_differ o o ≡ false
unfolding both_differ
both_differ_refl none = refl
both_differ_refl (some n) = ap not (self_equal n)

quiet_equal : (o : Option ℕ) (w : Warning) → warn (not (equal o o)) w ≡ []
unfolding warn
quiet_equal o w = rw (equal_refl o) refl

quiet_both : (o : Option ℕ) (w : Warning) → warn (both_differ o o) w ≡ []
unfolding warn
quiet_both o w = rw (both_differ_refl o) refl

quiet_and : (b : Bool) (o : Option ℕ) (w : Warning) → warn (b && not (equal o o)) w ≡ []
unfolding warn
quiet_and true o w = rw (equal_refl o) refl
quiet_and false o w = refl

-- A run differs in no respect from itself: the comparison warns of nothing.
pub workload_warnings_self : (s : Summary) → workload_warnings s s ≡ []
unfolding workload_warnings
workload_warnings_self s =
    rw
      (
        quiet_equal s.scenario,
        quiet_both s.scenario_digest,
        quiet_equal (seed_of s),
        quiet_equal s.load_model,
        quiet_both s.configured_load,
        quiet_and (not (both_there s.configured_load s.configured_load)) s.peak_virtual_users,
        quiet_equal s.co_corrected,
        quiet_both s.cache_provenance,
        quiet_equal s.target_url,
      )
      refl

meets_self : (v p : ℕ) → meets le v (percent_limit v (plus p)) ≡ true
unfolding meets holds percent_limit
meets_self v p = le→leb _ _ (omega (arith, mul-le-mul_left {m = 100} {n = 100 + p} v (omega arith)))

relative_self :
    (gate : Gate) (s : Summary) (p v : ℕ)
    → gate.op ≡ le
    → metric_value s gate.metric gate.step ≡ some v
    → (relative gate v (λ value. percent_limit value (plus p)) (some s)).passed ≡ true
unfolding relative judged
relative_self gate s p v op e =
    rw (e, relative) (ap (λ o. meets o v (percent_limit v (plus p))) op ∙ meets_self v p)

by_percent :
    (gate : Gate) (s : Summary) (p v : ℕ)
    → gate.op ≡ le
    → metric_value s gate.metric gate.step ≡ some v
    → (evaluate_by gate v (some s) (some (plus p)) gate.relative_abs).passed ≡ true
unfolding evaluate_by
by_percent gate s p v op e = relative_self gate s p v op e

-- A gate of the form `metric <= baseline + p%` passes on a run that has the metric, against itself.
pub evaluate_self :
    (gate : Gate) (s : Summary) (p v : ℕ)
    → gate.op ≡ le
    → gate.relative_pct ≡ some (plus p)
    → metric_value s gate.metric gate.step ≡ some v
    → (evaluate gate s (some s)).passed ≡ true
evaluate_self gate s p v op pct e =
    ap (λ r. r.passed) (evaluate_found gate s (some s) v e)
    ∙ ap (λ o. (evaluate_by gate v (some s) o gate.relative_abs).passed) pct
    ∙ by_percent gate s p v op e
