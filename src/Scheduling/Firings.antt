-- ===== src/Scheduling/Firings.antt =====
-- When a cron expression fires.
use regulator.Prelude.{
  ℕ, zero, suc, ◌+◌, ◌≤◌, ◌<◌, ◌≡◌, arith, true, false, Option, none, some, ◌==◌, Bool-cases, inl,
  inr,
}
use mathlib.Core.Path.{subst}
use regulator.Scheduling.Cron.{Cron, Moment, matches, search_from, next_after}

-- No minute from `first` and before `last` matches.
abbrev pub IsQuiet : (ℕ → Moment) → Cron → ℕ → ℕ → Type 0
IsQuiet calendar cron first last =
    (t : ℕ) → first ≤ t → t < last → matches cron (calendar t) ≡ false

-- The first of the `limit` minutes from `first` that matches, or none.
abbrev pub IsFirst : (ℕ → Moment) → Cron → ℕ → ℕ → Option ℕ → Type 0
IsFirst calendar cron limit first none = IsQuiet calendar cron first (first + limit)
IsFirst calendar cron limit first (some t) =
    (first ≤ t)
    × (t < first + limit)
    × (matches cron (calendar t) ≡ true)
    × IsQuiet calendar cron first t

module _ (calendar : ℕ → Moment) (cron : Cron) where
  IsQuiet-suc :
      (first last : ℕ)
      → matches cron (calendar first) ≡ false
      → IsQuiet calendar cron (suc first) last
      → IsQuiet calendar cron first last
  IsQuiet-suc first last h quiet t p q = elim (Bool-cases (first == t)) [
    | inl e ↦
        let same : first ≡ t = ground (arith, e) in
        subst (λ u. matches cron (calendar u) ≡ false) same h
    | inr e ↦ quiet t (ground (arith, e, p)) q
  ]

  IsFirst-suc :
      (limit first : ℕ) (found : Option ℕ)
      → matches cron (calendar first) ≡ false
      → IsFirst calendar cron limit (suc first) found
      → IsFirst calendar cron (suc limit) first found
  IsFirst-suc limit first none h quiet =
      IsQuiet-suc first (first + suc limit) h (λ t p q. quiet t p (omega (arith, q)))
  IsFirst-suc limit first (some t) h (p, q, m, quiet) =
      (omega (arith, p), omega (arith, q), m, IsQuiet-suc first t h quiet)

  IsFirst-search_from :
      (limit first : ℕ) → IsFirst calendar cron limit first (search_from calendar cron limit first)
  unfolding search_from
  IsFirst-search_from zero first = λ t p q. absurd (omega (arith, p, q))
  IsFirst-search_from (suc limit) first = elim (Bool-cases (matches cron (calendar first))) [
    | inl h ↦ rw h (omega arith, omega arith, h, λ t p q. absurd (omega (arith, p, q)))
    | inr h ↦ rw h (IsFirst-suc limit first _ h (IsFirst-search_from limit (suc first)))
  ]

-- Whatever the calendar, `next_after` gives the first minute after the moment at which the expression
-- matches, if there is one within the limit, and none exactly if no minute within the limit matches.
pub next_after-IsFirst :
    (calendar : ℕ → Moment) (cron : Cron) (moment limit : ℕ)
    → IsFirst calendar cron limit (suc moment) (next_after calendar cron moment limit)
unfolding next_after
next_after-IsFirst calendar cron moment limit = IsFirst-search_from calendar cron limit (suc moment)
