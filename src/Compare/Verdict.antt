-- ===== src/Compare/Verdict.antt =====
-- What a comparison's verdict says: it is green just when nothing blocks it and every gate passes,
-- and a gate passes only on figures that are there.
use mathlib.Core.Path.{subst}
use regulator.Prelude.{
  and_true, suc, ◌≡◌, refl, ap, ◌∙◌, sym, ◌⊎◌, ◌≢◌, inl, inr, Bool, true, not, ◌&&◌, Option, none,
  some, List, [], ◌∷◌, all, All, length, arith, Bool-cases,
}
use regulator.Compare.{Summary}
use regulator.Compare.Gate.{Expression, Gate, GateResult, Result, fail, good, parse_gate}
use regulator.Compare.Runs.{
  Blocked, invalid_candidate, invalid_baseline, Comparison, and_gates, parse_all, then_compare,
  evaluate_all, judge, compare_parsed, compare_runs, invalid, blocked_by,
}

pub record IsVerdict (r : Comparison) : Type 0 where
  pub green : (r.ok ≡ true) → (r.blocked ≡ none) × All (λ g. g.passed ≡ true) r.gates
  pub only : r.blocked ≡ none → All (λ g. g.passed ≡ true) r.gates → r.ok ≡ true

all-All : (gs : List GateResult) → all (λ g. g.passed) gs ≡ true → All (λ g. g.passed ≡ true) gs
all-All [] h = tt
all-All (g ∷ gs) h =
    let (p, rest) = and_true g.passed (all (λ x. x.passed) gs) h in (p, all-All gs rest)

All-all : (gs : List GateResult) → All (λ g. g.passed ≡ true) gs → all (λ g. g.passed) gs ≡ true
All-all [] a = refl
All-all (g ∷ gs) (p, a) = rw (All-all gs a) (ground (arith, p))

some_none : {A : Type 0} {a : A} → ◌≢◌ {A = Option A} (some a) none
some_none h = absurd (ground (arith, h))

blocked-IsVerdict : (why : Blocked) → IsVerdict (blocked_by why)
blocked-IsVerdict why = record {
  green = λ h. absurd (ground (arith, h));
  only = λ h a. absurd (some_none h);
}

judge-IsVerdict :
    (candidate : Summary) (baseline : Option Summary) (parsed : List Gate)
    → IsVerdict (judge candidate baseline parsed)
unfolding judge
judge-IsVerdict candidate baseline parsed = record {
  green = λ h. (refl, all-All _ h);
  only = λ h a. All-all _ a;
}

compare_parsed-cases :
    (candidate : Summary) (baseline : Option Summary) (allow_invalid : Bool) (parsed : List Gate)
    → ((why : Blocked) × (compare_parsed candidate baseline allow_invalid parsed ≡ blocked_by why))
      ⊎ (compare_parsed candidate baseline allow_invalid parsed ≡ judge candidate baseline parsed)
unfolding compare_parsed
compare_parsed-cases candidate baseline allow_invalid parsed =
    elim (Bool-cases (invalid (some candidate) && not allow_invalid)) [
      | inl bad ↦ rw bad (inl (invalid_candidate, refl))
      | inr fine ↦ rw fine (elim (Bool-cases (invalid baseline && not allow_invalid)) [
        | inl bad ↦ rw bad (inl (invalid_baseline, refl))
        | inr fine' ↦ rw fine' (inr refl)
      ])
    ]

length-evaluate_all :
    (gs : List Gate) (candidate : Summary) (baseline : Option Summary)
    → length (evaluate_all gs candidate baseline) ≡ length gs
unfolding evaluate_all
length-evaluate_all [] candidate baseline = refl
length-evaluate_all (g ∷ gs) candidate baseline = ap suc (length-evaluate_all gs candidate baseline)

abbrev Whole : List Expression → Comparison → Type 0
Whole gates r = IsVerdict r × (r.blocked ≡ none → length r.gates ≡ length gates)

abbrev Wholes : List Expression → Result Comparison → Type 0
Wholes gates (fail why) = Unit
Wholes gates (good r) = Whole gates r

abbrev AsMany : List Expression → Result (List Gate) → Type 0
AsMany gates (fail why) = Unit
AsMany gates (good parsed) = length parsed ≡ length gates

and_gates-AsMany :
    (e : Expression) (rest : List Expression) (r : Result Gate) (rs : Result (List Gate))
    → AsMany rest rs
    → AsMany (e ∷ rest) (and_gates r rs)
unfolding and_gates
and_gates-AsMany e rest (fail why) rs h = tt
and_gates-AsMany e rest (good gate) (fail why) h = tt
and_gates-AsMany e rest (good gate) (good gates) h = ap suc h

parse_all-AsMany : (gates : List Expression) → AsMany gates (parse_all gates)
unfolding parse_all
parse_all-AsMany [] = refl
parse_all-AsMany (e ∷ rest) =
    and_gates-AsMany e rest (parse_gate e) (parse_all rest) (parse_all-AsMany rest)

length-judge :
    (candidate : Summary) (baseline : Option Summary) (parsed : List Gate)
    → length (judge candidate baseline parsed).gates ≡ length parsed
unfolding judge
length-judge candidate baseline parsed = length-evaluate_all parsed candidate baseline

compared-Wholes :
    (candidate : Summary) (baseline : Option Summary) (allow_invalid : Bool)
    (gates : List Expression) (parsed : Result (List Gate))
    → AsMany gates parsed
    → Wholes gates (then_compare (compare_parsed candidate baseline allow_invalid) parsed)
compared-Wholes candidate baseline allow_invalid gates (fail why) h = tt
compared-Wholes candidate baseline allow_invalid gates (good parsed) h =
    elim (compare_parsed-cases candidate baseline allow_invalid parsed) [
      | inl (why, e) ↦
          subst (Whole gates) (sym e) (blocked-IsVerdict why, λ b. absurd (some_none b))
      | inr e ↦ subst (Whole gates) (sym e) (
        judge-IsVerdict candidate baseline parsed,
        λ b. length-judge candidate baseline parsed ∙ h,
      )
    ]

-- A comparison that comes about is green just when nothing blocks it and every gate has passed, and
-- where nothing blocks it there is one result for each gate that was given.
pub compare_runs-IsVerdict :
    (candidate : Summary) (baseline : Option Summary) (gates : List Expression)
    (allow_invalid : Bool) {r : Comparison}
    → compare_runs candidate baseline gates allow_invalid ≡ good r
    → IsVerdict r × (r.blocked ≡ none → length r.gates ≡ length gates)
unfolding compare_runs
compare_runs-IsVerdict candidate baseline gates allow_invalid e = subst (Wholes gates) e (
    compared-Wholes candidate baseline allow_invalid gates (parse_all gates)
      (parse_all-AsMany gates))
