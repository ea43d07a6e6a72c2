-- ===== src/Compare/Gate.antt =====
-- Gates: `parse_gate` over the groups of the regular expressions, and `_evaluate`.
use regulator.Prelude.{
  ℕ, ◌+◌, ◌*◌, Bool, true, false, not, ◌||◌, Option, none, some, ltb, leb, ◌==◌, if◌then◌else◌,
}
use regulator.Compare.{Metric, throughput, executions, Summary, metric_value}

pub data Op : Type 0 where
  le lt ge gt eq ne : Op

pub data Measure : Type 0 where
  percent ms s : Measure

-- A number with a sign.
pub data Signed : Type 0 where
  plus minus : ℕ → Signed

-- What the threshold's text matches: `_BASELINE_RE`, `_ABSOLUTE_RE`, or neither.
pub data Threshold : Type 0 where
  baseline_and : Signed → Option Measure → Threshold
  absolute_of : ℕ → Option Measure → Threshold
  unreadable : Threshold

-- What the whole text matches: the groups of `_GATE_RE`, the operator with its threshold.
pub data Expression : Type 0 where
  unmatched : Expression
  matched : (metric : Metric) → (step : Option ℕ) → Option (Op × Threshold) → Expression

pub data GateError : Type 0 where
  bad_gate bad_threshold no_unit : GateError

pub record Gate : Type 0 where
  pub metric : Metric
  pub op : Op
  pub step : Option ℕ
  pub relative_pct : Option Signed
  pub relative_abs : Option Signed
  pub absolute : Option ℕ
  pub boolean : Bool

pub data Result (A : Type 0) : Type 0 where
  fail : GateError → Result A
  good : A → Result A

unfoldable pub scale : ℕ → Signed → Signed
scale k (plus n) = plus (n * k)
scale k (minus n) = minus (n * k)

abbrev pub in_ms : Measure → ℕ
in_ms s = 1000
in_ms _ = 1

abbrev pub plain : Metric → Op → Option ℕ → Gate
plain metric op step = record {
  metric = metric;
  op = op;
  step = step;
  relative_pct = none;
  relative_abs = none;
  absolute = none;
  boolean = false;
}

unfoldable pub parse_threshold : Gate → Threshold → Result Gate
unfolding scale
parse_threshold gate (baseline_and amount none) = fail no_unit
parse_threshold gate (baseline_and amount (some percent)) =
    good (record gate { relative_pct = some amount })
parse_threshold gate (baseline_and amount (some ms)) =
    good (record gate { relative_abs = some (scale 1 amount) })
parse_threshold gate (baseline_and amount (some s)) =
    good (record gate { relative_abs = some (scale 1000 amount) })
parse_threshold gate (absolute_of amount none) = good (record gate { absolute = some amount })
parse_threshold gate (absolute_of amount (some unit)) =
    good (record gate { absolute = some (amount * in_ms unit) })
parse_threshold gate unreadable = fail bad_threshold

unfoldable pub parse_gate : Expression → Result Gate
unfolding parse_threshold
parse_gate unmatched = fail bad_gate
parse_gate (matched metric step none) =
    good (record (plain metric eq step) { absolute = some 1; boolean = true })
parse_gate (matched metric step (some (op, threshold))) =
    parse_threshold (plain metric op step) threshold

-- A limit in hundredths, `above` less `below`.
pub record Limit : Type 0 where
  pub above : ℕ
  pub below : ℕ

unfoldable pub percent_limit : ℕ → Signed → Limit
percent_limit baseline (plus pct) = record { above = baseline * (100 + pct); below = 0 }
percent_limit baseline (minus pct) = record { above = baseline * 100; below = baseline * pct }

unfoldable pub shifted_limit : ℕ → Signed → Limit
shifted_limit baseline (plus n) = record { above = (baseline + n) * 100; below = 0 }
shifted_limit baseline (minus n) = record { above = baseline * 100; below = n * 100 }

-- `_compare`, of two numbers.
unfoldable pub holds : Op → ℕ → ℕ → Bool
holds le actual limit = leb actual limit
holds lt actual limit = ltb actual limit
holds ge actual limit = leb limit actual
holds gt actual limit = ltb limit actual
holds eq actual limit = actual == limit
holds ne actual limit = not (actual == limit)

unfoldable pub meets : Op → ℕ → Limit → Bool
unfolding holds
meets op actual limit = holds op (actual * 100 + limit.below) limit.above

pub data Direction : Type 0 where
  unchanged better worse : Direction

pub data Detail : Type 0 where
  no_metric no_baseline no_baseline_metric against_limit : Detail
  validity : Bool → Detail
  versus : Direction → Detail

pub record GateResult : Type 0 where
  pub gate : Gate
  pub passed : Bool
  pub actual : Option ℕ
  pub limit : Option Limit
  pub baseline : Option ℕ
  pub detail : Detail

-- `_HIGHER_IS_BETTER`
abbrev pub higher_is_better : Metric → Bool
higher_is_better throughput = true
higher_is_better executions = true
higher_is_better _ = false

unfoldable pub differ : Bool → Bool → Bool
differ true b = not b
differ false b = b

unfoldable pub direction : Metric → ℕ → ℕ → Direction
unfolding differ
direction metric actual baseline =
    if baseline == 0 || (actual == baseline)
    then unchanged
    else if differ (ltb actual baseline) (higher_is_better metric)
    then better
    else worse

abbrev pub not_passed : Gate → Option ℕ → Detail → GateResult
not_passed gate actual detail = record {
  gate = gate;
  passed = false;
  actual = actual;
  limit = none;
  baseline = none;
  detail = detail;
}

-- The text's kind: a bare metric is judged as valid or not.
unfoldable pub detail_of : Gate → Bool → ℕ → Option ℕ → Detail
unfolding direction
detail_of gate passed actual none = if gate.boolean then validity passed else against_limit
detail_of gate passed actual (some baseline) =
    if gate.boolean then validity passed else versus (direction gate.metric actual baseline)

unfoldable pub judged : Gate → ℕ → Option ℕ → Limit → GateResult
unfolding meets detail_of
judged gate actual baseline limit =
    let passed = meets gate.op actual limit in
    record {
      gate = gate;
      passed = passed;
      actual = some actual;
      limit = some limit;
      baseline = baseline;
      detail = detail_of gate passed actual baseline;
    }

abbrev pub flat_limit : Option ℕ → Limit
flat_limit none = record { above = 0; below = 0 }
flat_limit (some n) = record { above = n * 100; below = 0 }

-- A gate that is relative to the baseline, by `limit_of`.
unfoldable pub relative : Gate → ℕ → (ℕ → Limit) → Option Summary → GateResult
unfolding judged
relative gate actual limit_of none = not_passed gate (some actual) no_baseline
relative gate actual limit_of (some baseline) = elim (metric_value baseline gate.metric gate.step) [
  | none ↦ not_passed gate (some actual) no_baseline_metric
  | some value ↦ judged gate actual (some value) (limit_of value)
]

-- By the gate's relative percentage or amount, in this order, or else by its absolute limit.
unfoldable pub evaluate_by : Gate → ℕ → Option Summary → Option Signed → Option Signed → GateResult
unfolding relative percent_limit shifted_limit judged
evaluate_by gate actual baseline (some pct) amount =
    relative gate actual (λ value. percent_limit value pct) baseline
evaluate_by gate actual baseline none (some amount) =
    relative gate actual (λ value. shifted_limit value amount) baseline
evaluate_by gate actual baseline none none = judged gate actual none (flat_limit gate.absolute)

unfoldable pub evaluate_actual : Gate → ℕ → Option Summary → GateResult
unfolding evaluate_by
evaluate_actual gate actual baseline =
    evaluate_by gate actual baseline gate.relative_pct gate.relative_abs

-- `_evaluate`
unfoldable pub evaluate : Gate → Summary → Option Summary → GateResult
unfolding evaluate_actual
evaluate gate candidate baseline = elim (metric_value candidate gate.metric gate.step) [
  | none ↦ not_passed gate none no_metric
  | some actual ↦ evaluate_actual gate actual baseline
]
