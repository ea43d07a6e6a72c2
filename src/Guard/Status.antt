-- ===== src/Guard/Status.antt =====
-- Both guards together: `start`, the rounds of the loop, and what `status` names as unevaluated.
use regulator.Prelude.{
  ℕ, ◌≡◌, refl, ap, ◌∙◌, Bool, true, false, Option, none, some, List, [], ◌∷◌, ◌++◌, map, ◌-◌, ltb,
  if◌then◌else◌, inl, inr, Bool-cases,
}
use regulator.Guard.{
  Sample, raised, no_rows, value, Reason, poll_error, GuardState, fresh, TargetGuard, new_guard,
  start, round, poll_once, Name, skipped_searches_delta, sut_cpu_pct, unevaluated, if_dead,
  poll_skipped, count_skipped, judge, breach, record_reading, mark_unavailable,
}
use regulator.Guard.Breaches.{after, readings_of}
use regulator.Guard.Account.{has_any, after-IsAccount}
use regulator.Guard.Skipped.{after_skipped, totals}

-- A guard with a client and both ceilings, after `start` and the rounds that followed, the newest
-- first, each with what its two searches came to.
unfoldable pub polled : ℕ → ℕ → List (Sample × Sample) → TargetGuard
polled cpu skipped [] = new_guard true (some cpu) (some skipped)
polled cpu skipped (polls ∷ []) =
    (start polls.0 polls.1 (new_guard true (some cpu) (some skipped))).0
polled cpu skipped (polls ∷ p ∷ before) =
    (round polls.0 polls.1 (polled cpu skipped (p ∷ before))).0

abbrev pub cpu_samples : List (Sample × Sample) → List Sample
cpu_samples = map (λ p. p.0)

abbrev pub skipped_samples : List (Sample × Sample) → List Sample
skipped_samples = map (λ p. p.1)

abbrev both : ℕ → ℕ → Bool → List (Sample × Sample) → TargetGuard
both cpu skipped polling history = record {
  has_client = true;
  cpu = some (after cpu (cpu_samples history));
  skipped = some (after_skipped skipped (skipped_samples history)).1;
  baseline_skipped = (after_skipped skipped (skipped_samples history)).0;
  polling = polling;
  stopped = false;
}

polled-both :
    (cpu skipped : ℕ) (p : Sample × Sample) (before : List (Sample × Sample))
    → polled cpu skipped (p ∷ before) ≡ both cpu skipped true (p ∷ before)
unfolding polled after after_skipped new_guard start round poll_once fresh
polled-both cpu skipped p [] = refl
polled-both cpu skipped p (q ∷ before) =
    ap (λ g. (round p.0 p.1 g).0) (polled-both cpu skipped q before)

polled_lem :
    (cpu skipped : ℕ) (history : List (Sample × Sample))
    → ((polled cpu skipped history).cpu ≡ some (after cpu (cpu_samples history)))
      × ((polled cpu skipped history).skipped
          ≡ some (after_skipped skipped (skipped_samples history)).1)
unfolding polled after after_skipped new_guard
polled_lem cpu skipped [] = (refl, refl)
polled_lem cpu skipped (p ∷ before) =
    let e = polled-both cpu skipped p before in (ap (λ g. g.cpu) e, ap (λ g. g.skipped) e)

mark_unavailable-live :
    (r : Reason) (state : GuardState) → (mark_unavailable r state).live ≡ state.live
unfolding mark_unavailable
mark_unavailable-live r state = elim (Bool-cases state.live) [
  | inl live ↦ rw live refl
  | inr dead ↦ rw dead refl
]

judge-live : (reading : ℕ) (state : GuardState) → (judge reading state).0.live ≡ true
unfolding judge breach record_reading
judge-live reading state = elim (Bool-cases (ltb state.limit reading)) [
  | inl over ↦ rw over refl
  | inr under ↦ rw under refl
]

count-live :
    (first : Bool) (total : ℕ) (baseline : Option ℕ) (state : GuardState)
    → (count_skipped first total baseline state).1.0.live ≡ true
unfolding count_skipped record_reading
count-live first total none state = refl
count-live true total (some baseline) state = refl
count-live false total (some baseline) state = judge-live (total - baseline) state

skipped-live :
    (limit : ℕ) (history : List Sample)
    → (after_skipped limit history).1.live ≡ has_any (totals history)
unfolding after_skipped totals has_any fresh poll_skipped
skipped-live limit [] = refl
skipped-live limit (raised error ∷ []) = mark_unavailable-live (poll_error error) (fresh limit)
skipped-live limit (no_rows ∷ []) = count-live true 0 none (fresh limit)
skipped-live limit (value total ∷ []) = count-live true total none (fresh limit)
skipped-live limit (raised error ∷ s ∷ before) =
    mark_unavailable-live (poll_error error) (after_skipped limit (s ∷ before)).1
    ∙ skipped-live limit (s ∷ before)
skipped-live limit (no_rows ∷ s ∷ before) =
    let was = after_skipped limit (s ∷ before) in count-live false 0 was.0 was.1
skipped-live limit (value total ∷ s ∷ before) =
    let was = after_skipped limit (s ∷ before) in count-live false total was.0 was.1

abbrev pub unless : Bool → Name → List Name
unless b name = if b then [] else name ∷ []

-- However the polls go, `status` names as unevaluated just the ceilings for which no poll gave a
-- reading; for skipped searches an answer without rows is a reading.
pub unevaluated-polled :
    (cpu skipped : ℕ) (history : List (Sample × Sample))
    → unevaluated (polled cpu skipped history)
      ≡ unless (has_any (totals (skipped_samples history))) skipped_searches_delta
        ++ unless (has_any (readings_of (cpu_samples history))) sut_cpu_pct
unfolding unevaluated
unevaluated-polled cpu skipped history =
    let (c, s) = polled_lem cpu skipped history in
    let cpu_live = (after-IsAccount cpu (cpu_samples history)).live in
    let named : Option GuardState → Option GuardState → List Name =
      λ x y. if_dead skipped_searches_delta x ++ if_dead sut_cpu_pct y in
    ap (λ x. named x (polled cpu skipped history).cpu) s
    ∙ ap (named (some (after_skipped skipped (skipped_samples history)).1)) c
    ∙ ap
        (λ b.
          unless b skipped_searches_delta
          ++ unless (after cpu (cpu_samples history)).live sut_cpu_pct)
        (skipped-live skipped (skipped_samples history))
    ∙ ap
        (λ b.
          unless (has_any (totals (skipped_samples history))) skipped_searches_delta
          ++ unless b sut_cpu_pct)
        cpu_live
