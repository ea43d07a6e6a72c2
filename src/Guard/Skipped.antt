-- ===== src/Guard/Skipped.antt =====
-- The guard on skipped searches counts from the first total that a poll found.
use regulator.Prelude.{
  ℕ, ◌-◌, ◌≡◌, refl, ◌∙◌, sym, true, false, Option, none, some, List, [], ◌∷◌, ltb, inl, inr,
  Bool-cases,
}
use regulator.Guard.{
  Sample, raised, no_rows, value, Reason, GuardState, fresh, poll_skipped, count_skipped, judge,
  breach, record_reading, mark_unavailable,
}

-- The baseline and the state after a history of polls, the newest first: the first poll is `start`'s.
unfoldable pub after_skipped : ℕ → List Sample → Option ℕ × GuardState
after_skipped limit [] = (none, fresh limit)
after_skipped limit (sample ∷ []) =
    let polled = poll_skipped true sample none (fresh limit) in (polled.0, polled.1.0)
after_skipped limit (sample ∷ s ∷ before) =
    let was = after_skipped limit (s ∷ before) in
    let polled = poll_skipped false sample was.0 was.1 in (polled.0, polled.1.0)

-- The totals that were found: no rows count as none skipped.
unfoldable pub totals : List Sample → List ℕ
totals [] = []
totals (raised error ∷ before) = totals before
totals (no_rows ∷ before) = 0 ∷ totals before
totals (value total ∷ before) = total ∷ totals before

unfoldable pub oldest : List ℕ → Option ℕ
oldest [] = none
oldest (total ∷ before) = elim (oldest before) [ none ↦ some total | some first ↦ some first ]

-- The newest total less the oldest.
unfoldable pub delta : List ℕ → Option ℕ
delta [] = none
delta (total ∷ before) = elim (oldest before) [ none ↦ some 0 | some first ↦ some (total - first) ]

abbrev IsDelta : List ℕ → Option ℕ × GuardState → Type 0
IsDelta found s = (s.0 ≡ oldest found) × (s.1.latest ≡ delta found)

mark_unavailable-latest :
    (r : Reason) (state : GuardState) → (mark_unavailable r state).latest ≡ state.latest
unfolding mark_unavailable
mark_unavailable-latest r state = elim (Bool-cases state.live) [
  | inl live ↦ rw live refl
  | inr dead ↦ rw dead refl
]

judge-latest : (reading : ℕ) (state : GuardState) → (judge reading state).0.latest ≡ some reading
unfolding judge breach record_reading
judge-latest reading state = elim (Bool-cases (ltb state.limit reading)) [
  | inl over ↦ rw over refl
  | inr under ↦ rw under refl
]

count-IsDelta :
    (total : ℕ) (found : List ℕ) (baseline : Option ℕ) (state : GuardState)
    → IsDelta found (baseline, state)
    → IsDelta
        (total ∷ found)
        (let counted = count_skipped false total baseline state in (counted.0, counted.1.0))
unfolding count_skipped oldest delta record_reading
count-IsDelta total found none state (b, l) = (rw (sym b, oldest) refl, rw (sym b, delta) refl)
count-IsDelta total found (some first) state (b, l) =
    (rw (sym b, oldest) refl, rw (sym b, delta) (judge-latest (total - first) state))

poll-IsDelta :
    (sample : Sample) (before : List Sample) (s : Option ℕ × GuardState)
    → IsDelta (totals before) s
    → IsDelta
        (totals (sample ∷ before))
        (let polled = poll_skipped false sample s.0 s.1 in (polled.0, polled.1.0))
unfolding poll_skipped totals
poll-IsDelta (raised error) before s (b, l) = (b, mark_unavailable-latest _ s.1 ∙ l)
poll-IsDelta no_rows before s d = count-IsDelta 0 (totals before) s.0 s.1 d
poll-IsDelta (value total) before s d = count-IsDelta total (totals before) s.0 s.1 d

-- Whatever the target had skipped before the run is not held against it: after any polls the
-- baseline is the first total that a poll found, and the guard's latest figure is the newest total
-- less the baseline.
pub after_skipped-IsDelta :
    (limit : ℕ) (history : List Sample)
    → ((after_skipped limit history).0 ≡ oldest (totals history))
      × ((after_skipped limit history).1.latest ≡ delta (totals history))
unfolding after_skipped totals oldest delta fresh poll_skipped count_skipped record_reading
    mark_unavailable
after_skipped-IsDelta limit [] = (refl, refl)
after_skipped-IsDelta limit (raised error ∷ []) = (refl, refl)
after_skipped-IsDelta limit (no_rows ∷ []) = (refl, refl)
after_skipped-IsDelta limit (value total ∷ []) = (refl, refl)
after_skipped-IsDelta limit (sample ∷ s ∷ before) =
    poll-IsDelta sample (s ∷ before) (after_skipped limit (s ∷ before))
      (after_skipped-IsDelta limit (s ∷ before))
