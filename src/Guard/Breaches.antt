-- ===== src/Guard/Breaches.antt =====
-- The stop is requested at the second reading in a row that is over the limit, and not before.
use regulator.Prelude.{
  ℕ, zero, suc, ◌≡◌, refl, ap, ◌∙◌, Bool, true, false, ◌&&◌, not, List, [], ◌∷◌, ltb, if◌then◌else◌,
  arith, inl, inr, Bool-cases,
}
use regulator.Guard.{
  Sample, raised, no_rows, value, GuardState, fresh, poll_cpu, judge, breach, record_reading,
  mark_unavailable,
}

-- The guard after a history of samples, the newest first.
unfoldable pub after : ℕ → List Sample → GuardState
after limit [] = fresh limit
after limit (sample ∷ before) = (poll_cpu sample (after limit before)).0

-- The readings of a history, without the polls that failed.
unfoldable pub readings_of : List Sample → List ℕ
readings_of [] = []
readings_of (value reading ∷ before) = reading ∷ readings_of before
readings_of (raised error ∷ before) = readings_of before
readings_of (no_rows ∷ before) = readings_of before

-- How many of the newest readings in a row are over the limit.
unfoldable pub over_in_row : ℕ → List ℕ → ℕ
over_in_row limit [] = 0
over_in_row limit (reading ∷ before) =
    let rest = over_in_row limit before in if ltb limit reading then suc rest else 0

abbrev pub is_reading : Sample → Bool
is_reading (value reading) = true
is_reading _ = false

mark_unavailable-breaches :
    (r : _) (state : GuardState)
    → ((mark_unavailable r state).breaches ≡ state.breaches)
      × ((mark_unavailable r state).limit ≡ state.limit)
unfolding mark_unavailable
mark_unavailable-breaches r state = elim (Bool-cases state.live) [
  | inl live ↦ rw live (refl, refl)
  | inr dead ↦ rw dead (refl, refl)
]

judge-breaches :
    (reading : ℕ) (state : GuardState)
    → ((judge reading state).0.breaches
        ≡ (if ltb state.limit reading then suc state.breaches else 0))
      × ((judge reading state).0.limit ≡ state.limit)
unfolding judge breach record_reading
judge-breaches reading state = elim (Bool-cases (ltb state.limit reading)) [
  | inl over ↦ rw over (refl, refl)
  | inr under ↦ rw under (refl, refl)
]

after-breaches :
    (limit : ℕ) (history : List Sample)
    → ((after limit history).breaches ≡ over_in_row limit (readings_of history))
      × ((after limit history).limit ≡ limit)
unfolding after readings_of over_in_row fresh poll_cpu
after-breaches limit [] = (refl, refl)
after-breaches limit (raised error ∷ before) =
    let (b, l) = after-breaches limit before in
    let (b', l') = mark_unavailable-breaches _ (after limit before) in (b' ∙ b, l' ∙ l)
after-breaches limit (no_rows ∷ before) =
    let (b, l) = after-breaches limit before in
    let (b', l') = mark_unavailable-breaches _ (after limit before) in (b' ∙ b, l' ∙ l)
after-breaches limit (value reading ∷ before) =
    let (b, l) = after-breaches limit before in
    let counts : ℕ → ℕ → ℕ = λ x n. if ltb x reading then suc n else 0 in
    let (b', l') = judge-breaches reading (after limit before) in
    (b' ∙ ap (λ x. counts x (after limit before).breaches) l ∙ ap (counts limit) b, l' ∙ l)

judge-stops :
    (reading : ℕ) (state : GuardState)
    → (judge reading state).1
      ≡ (if ltb state.limit reading then not (ltb (suc state.breaches) 2) else false)
unfolding judge breach record_reading
judge-stops reading state = elim (Bool-cases (ltb state.limit reading)) [
  | inl over ↦ rw over refl
  | inr under ↦ rw under refl
]

two_in_row :
    (over : Bool) (n : ℕ)
    → (if over then not (ltb (suc n) 2) else false) ≡ ltb 1 (if over then suc n else 0)
two_in_row true zero = refl
two_in_row true (suc n) = ground arith
two_in_row false n = refl

-- A poll requests the stop exactly when it gives a reading and this reading and the one before it,
-- failed polls between them not counted, are both over the limit.
pub poll_cpu-stops :
    (limit : ℕ) (sample : Sample) (before : List Sample)
    → (poll_cpu sample (after limit before)).1
      ≡ is_reading sample && ltb 1 (over_in_row limit (readings_of (sample ∷ before)))
unfolding after readings_of over_in_row poll_cpu judge breach
poll_cpu-stops limit (raised error) before = refl
poll_cpu-stops limit no_rows before = refl
poll_cpu-stops limit (value reading) before =
    let (b, l) = after-breaches limit before in
    let stops : ℕ → ℕ → Bool = λ x n. if ltb x reading then not (ltb (suc n) 2) else false in
    judge-stops reading (after limit before)
    ∙ ap (λ x. stops x (after limit before).breaches) l
    ∙ ap (stops limit) b
    ∙ two_in_row (ltb limit reading) (over_in_row limit (readings_of before))
