-- ===== src/Scheduling/Fields.antt =====
-- What the fields of a cron expression can hold.
use regulator.Prelude.{
  ℕ, zero, suc, ◌+◌, ◌-◌, ◌≤◌, ◌≡◌, arith, Bool, true, false, Option, none, some, List, [], ◌∷◌,
  ◌++◌, ◌==◌, leb, Bool-cases, leb→le, inl, inr,
}
use regulator.Scheduling.Cron.{
  Part, stepping, bounds, values_from, part_values, is_part, discard, contains, sunday, add_part,
  add_parts, finish_field, parse_cron_field, Cron, cron_of, parse_cron,
}

abbrev pub AreBetween : ℕ → ℕ → List ℕ → Type 0
AreBetween low high [] = Unit
AreBetween low high (v ∷ rest) = (low ≤ v) × (v ≤ high) × AreBetween low high rest

AreBetween-append :
    (low high : ℕ) (vs ws : List ℕ)
    → AreBetween low high vs
    → AreBetween low high ws
    → AreBetween low high (vs ++ ws)
AreBetween-append low high [] ws p q = q
AreBetween-append low high (v ∷ vs) ws (a, b, p) q = (a, b, AreBetween-append low high vs ws p q)

AreBetween-values_from :
    (low high fuel start end_ step : ℕ)
    → low ≤ start
    → end_ ≤ high
    → AreBetween low high (values_from fuel start end_ step)
unfolding values_from
AreBetween-values_from low high zero start end_ step p q = tt
AreBetween-values_from low high (suc fuel) start end_ step p q =
    elim (Bool-cases (leb start end_)) [
      | inl h ↦ rw h (
        p,
        omega (arith, leb→le start end_ h, q),
        AreBetween-values_from low high fuel (start + step) end_ step (omega (arith, p)) q,
      )
      | inr h ↦ rw h tt
    ]

AreBetween-part_values :
    (low high : ℕ) (part : Part)
    → is_part low high part ≡ true
    → AreBetween low high (part_values low high part)
unfolding part_values is_part
AreBetween-part_values low high part h =
    AreBetween-values_from low high (suc ((bounds low high part).1 - (bounds low high part).0))
      (bounds low high part).0 (bounds low high part).1 (stepping part) (ground (arith, h))
      (ground (arith, h))

abbrev pub IsField : ℕ → ℕ → Option (List ℕ × Bool) → Type 0
IsField low high none = Unit
IsField low high (some (values, wild)) = AreBetween low high values

IsField-add_part :
    (low high : ℕ) (part : Part) (field : Option (List ℕ × Bool))
    → IsField low high field
    → IsField low high (add_part low high part field)
unfolding add_part
IsField-add_part low high part none h = tt
IsField-add_part low high part (some (values, wild)) h = elim (Bool-cases (is_part low high part)) [
  | inl p ↦ rw p (
      AreBetween-append low high (part_values low high part) values
        (AreBetween-part_values low high part p) h)
  | inr p ↦ rw p tt
]

IsField-add_parts : (low high : ℕ) (parts : List Part) → IsField low high (add_parts low high parts)
unfolding add_parts
IsField-add_parts low high [] = tt
IsField-add_parts low high (part ∷ rest) =
    IsField-add_part low high part (add_parts low high rest) (IsField-add_parts low high rest)

-- Without the 7 the values of a field up to 7 are at most 6.
AreBetween-discard : (vs : List ℕ) → AreBetween 0 7 vs → AreBetween 0 6 (discard 7 vs)
unfolding discard
AreBetween-discard [] p = tt
AreBetween-discard (v ∷ rest) (a, b, p) = elim (Bool-cases (v == 7)) [
  | inl e ↦ rw e (AreBetween-discard rest p)
  | inr e ↦ rw e (a, ground (arith, b, e), AreBetween-discard rest p)
]

AreBetween-absent : (vs : List ℕ) → contains vs 7 ≡ false → AreBetween 0 7 vs → AreBetween 0 6 vs
unfolding contains
AreBetween-absent [] h p = tt
AreBetween-absent (v ∷ rest) h (a, b, p) =
    (a, ground (arith, h, b), AreBetween-absent rest (ground (arith, h)) p)

AreBetween-sunday : (vs : List ℕ) → AreBetween 0 7 vs → AreBetween 0 6 (sunday true vs)
unfolding sunday
AreBetween-sunday vs p = elim (Bool-cases (contains vs 7)) [
  | inl h ↦ rw h (omega arith, omega arith, AreBetween-discard vs p)
  | inr h ↦ rw h (AreBetween-absent vs h p)
]

IsField-finish :
    (field : Option (List ℕ × Bool)) → IsField 0 7 field → IsField 0 6 (finish_field true field)
unfolding finish_field
IsField-finish none h = tt
IsField-finish (some (values, wild)) h = AreBetween-sunday values h

IsField-kept :
    (low high : ℕ) (field : Option (List ℕ × Bool))
    → IsField low high field
    → IsField low high (finish_field false field)
unfolding finish_field sunday
IsField-kept low high none h = tt
IsField-kept low high (some (values, wild)) h = h

IsField-parse :
    (low high : ℕ) (parts : List Part) → IsField low high (parse_cron_field false low high parts)
unfolding parse_cron_field
IsField-parse low high parts =
    IsField-kept low high (add_parts low high parts) (IsField-add_parts low high parts)

IsField-parse_weekday : (parts : List Part) → IsField 0 6 (parse_cron_field true 0 7 parts)
unfolding parse_cron_field
IsField-parse_weekday parts = IsField-finish (add_parts 0 7 parts) (IsField-add_parts 0 7 parts)

-- An expression all of whose values are those of a calendar.
abbrev pub IsCron : Option Cron → Type 0
IsCron none = Unit
IsCron (some cron) =
    AreBetween 0 59 cron.minutes
    × AreBetween 0 23 cron.hours
    × AreBetween 1 31 cron.days
    × AreBetween 1 12 cron.months
    × AreBetween 0 6 cron.weekdays

IsCron-cron_of :
    (minute hour day month weekday : Option (List ℕ × Bool))
    → IsField 0 59 minute
    → IsField 0 23 hour
    → IsField 1 31 day
    → IsField 1 12 month
    → IsField 0 6 weekday
    → IsCron (cron_of minute hour day month weekday)
unfolding cron_of
IsCron-cron_of (some a) (some b) (some c) (some d) (some e) p q r s t = (p, q, r, s, t)
IsCron-cron_of none b c d e p q r s t = tt
IsCron-cron_of (some a) none c d e p q r s t = tt
IsCron-cron_of (some a) (some b) none d e p q r s t = tt
IsCron-cron_of (some a) (some b) (some c) none e p q r s t = tt
IsCron-cron_of (some a) (some b) (some c) (some d) none p q r s t = tt

-- Whatever fields a cron expression has, if it is accepted its minutes, hours, days, months and
-- weekdays are those of a calendar, with 0 alone for Sunday.
pub parse_cron-IsCron : (fields : List (List Part)) → IsCron (parse_cron fields)
unfolding parse_cron
parse_cron-IsCron [] = tt
parse_cron-IsCron (a ∷ []) = tt
parse_cron-IsCron (a ∷ b ∷ []) = tt
parse_cron-IsCron (a ∷ b ∷ c ∷ []) = tt
parse_cron-IsCron (a ∷ b ∷ c ∷ d ∷ []) = tt
parse_cron-IsCron (minute ∷ hour ∷ day ∷ month ∷ weekday ∷ []) =
    IsCron-cron_of _ _ _ _ _ (IsField-parse 0 59 minute) (IsField-parse 0 23 hour)
      (IsField-parse 1 31 day) (IsField-parse 1 12 month) (IsField-parse_weekday weekday)
parse_cron-IsCron (a ∷ b ∷ c ∷ d ∷ e ∷ f ∷ rest) = tt
