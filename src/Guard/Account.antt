-- ===== src/Guard/Account.antt =====
-- What a guard tells of its readings, and of why there are none.
use mathlib.Core.Path.{subst}
use regulator.Prelude.{
  ℕ, suc, ◌≡◌, refl, ap, ◌∙◌, Bool, true, false, Option, none, some, List, [], ◌∷◌, ltb, inl, inr,
  Bool-cases, length, ◌⊎◌, sym, Option-cases, if◌then◌else◌,
}
use regulator.Guard.{
  Sample, raised, no_rows, value, Reason, poll_error, no_events, GuardState, fresh, raised_to,
  first_reason, poll_cpu, judge, breach, record_reading, mark_unavailable,
}
use regulator.Guard.Breaches.{after, readings_of}

unfoldable pub newest : List ℕ → Option ℕ
newest [] = none
newest (reading ∷ before) = some reading

unfoldable pub highest : List ℕ → Option ℕ
highest [] = none
highest (reading ∷ before) = some (raised_to reading (highest before))

unfoldable pub has_any : List ℕ → Bool
has_any [] = false
has_any (reading ∷ before) = true

-- Why the first poll of a history failed.
unfoldable pub oldest_failure : List Sample → Option Reason
oldest_failure [] = none
oldest_failure (sample ∷ before) = elim (oldest_failure before) [
  | some reason ↦ some reason
  | none ↦ elim sample [
    | raised error ↦ some (poll_error error)
    | no_rows ↦ some no_events
    | value reading ↦ none
  ]
]

abbrev pub why : Bool → Option Reason → Option Reason
why true reason = none
why false reason = reason

unfoldable pub why_unavailable : List Sample → Option Reason
why_unavailable history = why (has_any (readings_of history)) (oldest_failure history)

-- A guard's account of a history of samples.
pub record IsAccount (history : List Sample) (state : GuardState) : Type 0 where
  pub live : state.live ≡ has_any (readings_of history)
  pub readings : state.readings ≡ length (readings_of history)
  pub latest : state.latest ≡ newest (readings_of history)
  pub peak : state.peak ≡ highest (readings_of history)
  pub unavailable : state.unavailable_reason ≡ why_unavailable history

judge-IsAccount :
    (reading : ℕ) (before : List Sample) (state : GuardState)
    → IsAccount before state
    → IsAccount (value reading ∷ before) (judge reading state).0
unfolding judge breach record_reading has_any readings_of newest highest why_unavailable
judge-IsAccount reading before state a = elim (Bool-cases (ltb state.limit reading)) [
  | inl over ↦ rw over (record {
    live = refl;
    readings = ap suc a.readings;
    latest = refl;
    peak = ap (λ p. some (raised_to reading p)) a.peak;
    unavailable = refl;
  })
  | inr under ↦ rw under (record {
    live = refl;
    readings = ap suc a.readings;
    latest = refl;
    peak = ap (λ p. some (raised_to reading p)) a.peak;
    unavailable = refl;
  })
]

raised_readings :
    (error : ℕ) (before : List Sample) → readings_of (raised error ∷ before) ≡ readings_of before
unfolding readings_of
raised_readings error before = refl

no_rows_readings : (before : List Sample) → readings_of (no_rows ∷ before) ≡ readings_of before
unfolding readings_of
no_rows_readings before = refl

fresh-IsAccount : (limit : ℕ) → IsAccount [] (fresh limit)
unfolding fresh readings_of has_any newest highest why_unavailable oldest_failure
fresh-IsAccount limit = record {
  live = refl;
  readings = refl;
  latest = refl;
  peak = refl;
  unavailable = refl;
}

mark_unavailable-cases :
    (r : Reason) (state : GuardState)
    → ((state.live ≡ true) × (mark_unavailable r state ≡ state))
      ⊎ ((state.live ≡ false)
          × (mark_unavailable r state
              ≡ record state { unavailable_reason = first_reason state.unavailable_reason r }))
unfolding mark_unavailable
mark_unavailable-cases r state =
    let marked : Bool → GuardState = λ b.
      if b
      then state
      else record state { unavailable_reason = first_reason state.unavailable_reason r } in
    elim (Bool-cases state.live) [
      | inl live ↦ inl (live, ap marked live)
      | inr dead ↦ inr (dead, ap marked dead)
    ]

why_lem :
    (history : List Sample)
    → why_unavailable history ≡ why (has_any (readings_of history)) (oldest_failure history)
unfolding why_unavailable
why_lem history = refl

-- The history `history` is `before` and one more poll, which failed for the reason `r`.
unavailable-IsAccount :
    (history before : List Sample) (r : Reason) (state : GuardState)
    → readings_of history ≡ readings_of before
    → oldest_failure history ≡ first_reason (oldest_failure before) r
    → IsAccount before state
    → IsAccount history (mark_unavailable r state)
unavailable-IsAccount history before r state same older a =
    let reason = a.unavailable ∙ why_lem before in
    elim (mark_unavailable-cases r state) [
      | inl (live, e) ↦ subst (IsAccount history) (sym e) (record {
        live = a.live ∙ ap has_any (sym same);
        readings = a.readings ∙ ap length (sym same);
        latest = a.latest ∙ ap newest (sym same);
        peak = a.peak ∙ ap highest (sym same);
        unavailable =
            reason
            ∙ ap (λ b. why b (oldest_failure before)) (sym a.live ∙ live)
            ∙ sym (
                why_lem history
                ∙ ap (λ b. why b (oldest_failure history)) (ap has_any same ∙ sym a.live ∙ live));
      })
      | inr (dead, e) ↦ subst (IsAccount history) (sym e) (record {
        live = a.live ∙ ap has_any (sym same);
        readings = a.readings ∙ ap length (sym same);
        latest = a.latest ∙ ap newest (sym same);
        peak = a.peak ∙ ap highest (sym same);
        unavailable =
            ap (λ o. first_reason o r)
              (reason ∙ ap (λ b. why b (oldest_failure before)) (sym a.live ∙ dead))
            ∙ sym (
                why_lem history
                ∙ ap (λ b. why b (oldest_failure history)) (ap has_any same ∙ sym a.live ∙ dead)
                ∙ older);
      })
    ]

older_raised :
    (error : ℕ) (before : List Sample)
    → oldest_failure (raised error ∷ before)
      ≡ first_reason (oldest_failure before) (poll_error error)
unfolding oldest_failure first_reason
older_raised error before = elim (Option-cases (oldest_failure before)) [
  | inl none_yet ↦ rw none_yet refl
  | inr (r, e) ↦ rw e refl
]

older_no_rows :
    (before : List Sample)
    → oldest_failure (no_rows ∷ before) ≡ first_reason (oldest_failure before) no_events
unfolding oldest_failure first_reason
older_no_rows before = elim (Option-cases (oldest_failure before)) [
  | inl none_yet ↦ rw none_yet refl
  | inr (r, e) ↦ rw e refl
]

-- After any polls of the CPU guard its state tells the truth about them: it is live just if some
-- poll gave a reading, it has their number, the newest and the highest, and where there is none
-- it names the reason of the first failure.
pub after-IsAccount : (limit : ℕ) (history : List Sample) → IsAccount history (after limit history)
unfolding after poll_cpu
after-IsAccount limit [] = fresh-IsAccount limit
after-IsAccount limit (raised error ∷ before) =
    unavailable-IsAccount (raised error ∷ before) before (poll_error error) (after limit before)
      (raised_readings error before) (older_raised error before) (after-IsAccount limit before)
after-IsAccount limit (no_rows ∷ before) =
    unavailable-IsAccount (no_rows ∷ before) before no_events (after limit before)
      (no_rows_readings before) (older_no_rows before) (after-IsAccount limit before)
after-IsAccount limit (value reading ∷ before) =
    judge-IsAccount reading before (after limit before) (after-IsAccount limit before)
