-- ===== src/Control/Pauses.antt =====
-- Pausing and resuming: the time that a pause takes, on the run's row and in the scheduler's books.
use regulator.Prelude.{
  ℕ, ◌+◌, ◌-◌, ◌≡◌, refl, ap, ◌∙◌, sym, Bool, true, false, Option, none, some, List, [], ◌∷◌, ◌++◌,
  if◌then◌else◌,
}
use regulator.Fleet.Leases.{Run, is_terminal}
use regulator.Control.{
  Scheduler, pause_entry, resume_entry, Controlled, run_over, not_running, Outcome, refuse, accept,
  and_then, of_entry, is_running_fleet, require_running, called, with_run, paused_by, pause,
  resumed_by, resume_from, resume, apply_pause,
}

-- The tests of `_require_running`, with what they read as arguments.
abbrev required : Bool → Bool → Bool → Option (Option Scheduler) → Outcome (Option Scheduler)
required over in_process running entry =
    if over
    then refuse run_over
    else if in_process
    then of_entry entry
    else if running
    then accept none
    else refuse not_running

required_lem :
    (c : Controlled)
    → require_running c
      ≡ required
          (is_terminal c.session.run.state)
          c.in_process
          (is_running_fleet c.session.run)
          c.entry
unfolding require_running
required_lem c = refl

-- A run that can be controlled can be controlled after a call of its scheduler.
required-called :
    (over in_process running : Bool) (entry : Option (Option Scheduler)) (f : Scheduler → Scheduler)
    (scheduler : Option Scheduler)
    → required over in_process running entry ≡ accept scheduler
    → (after : Option Scheduler) × (required over in_process running (called f scheduler entry)
        ≡ accept after)
required-called true in_process running entry f scheduler e = cc
required-called false true running none f scheduler e = cc
required-called false true running (some found) f none e = (found, refl)
required-called false true running (some found) f (some s) e = (some (f s), refl)
required-called false false true entry f scheduler e = (none, refl)
required-called false false false entry f scheduler e = cc

abbrev paused_run : Controlled → ℕ → Run
paused_run c now = record (c.session.run) { paused_at = some now }

abbrev after_pause : ℕ → ℕ → Controlled → Option Scheduler → Controlled
after_pause tick now c scheduler =
    with_run c (paused_run c now) (called (apply_pause tick now) scheduler c.entry)
      (now, pause_entry)

pause_lem :
    (tick now : ℕ) (c : Controlled) (scheduler : Option Scheduler)
    → c.session.run.paused_at ≡ none
    → require_running c ≡ accept scheduler
    → pause tick now c ≡ accept (after_pause tick now c scheduler)
unfolding pause paused_by
pause_lem tick now c scheduler fresh e =
    ap (λ o. and_then o (λ s. accept (paused_by tick now c c.session.run.paused_at s))) e
    ∙ ap (λ p. accept (paused_by tick now c p scheduler)) fresh

resume_lem :
    (tick now since : ℕ) (c : Controlled) (scheduler : Option Scheduler)
    → c.session.run.paused_at ≡ some since
    → require_running c ≡ accept scheduler
    → resume tick now c ≡ accept (resumed_by tick now since c scheduler)
unfolding resume resume_from
resume_lem tick now since c scheduler p e =
    ap (resume_from tick now c) p
    ∙ ap (λ o. and_then o (λ s. accept (resumed_by tick now since c s))) e

-- What a pause from `now1` to `now2` leaves: its length is counted, the rest of the run's row and
-- the leases are as before, and both changes are recorded.
pub record IsResumed (now1 now2 : ℕ) (c c' : Controlled) : Type 0 where
  pub run : c'.session.run ≡ record (c.session.run) {
    paused_s = c.session.run.paused_s + (now2 - now1);
    paused_at = none;
  }
  pub leases : c'.session.leases ≡ c.session.leases
  pub controls : c'.controls ≡ c.controls ++ (now1, pause_entry) ∷ (now2, resume_entry) ∷ []

append_two : {A : Type 0} (xs : List A) (a b : A) → (xs ++ a ∷ []) ++ b ∷ [] ≡ xs ++ a ∷ b ∷ []
append_two [] a b = refl
append_two (x ∷ xs) a b = ap (λ l. x ∷ l) (append_two xs a b)

resumed_by-IsResumed :
    (tick1 now1 tick2 now2 : ℕ) (c : Controlled) (scheduler after : Option Scheduler)
    → IsResumed now1 now2 c (resumed_by tick2 now2 now1 (after_pause tick1 now1 c scheduler) after)
unfolding resumed_by
resumed_by-IsResumed tick1 now1 tick2 now2 c scheduler after = record {
  run = refl;
  leases = refl;
  controls = append_two c.controls (now1, pause_entry) (now2, resume_entry);
}

-- A run that is not paused and can be controlled can be paused, and resumed again after that: the
-- time between is added to its paused time, both changes are recorded, and nothing else of the run or
-- of its leases has changed.
pub resume-pause :
    (tick1 now1 tick2 now2 : ℕ) (c : Controlled) (scheduler : Option Scheduler)
    → c.session.run.paused_at ≡ none
    → require_running c ≡ accept scheduler
    → (c1 c2 : Controlled) × (pause tick1 now1 c ≡ accept c1)
      × (resume tick2 now2 c1 ≡ accept c2)
      × IsResumed now1 now2 c c2
resume-pause tick1 now1 tick2 now2 c scheduler fresh e =
    let c1 = after_pause tick1 now1 c scheduler in
    let (after, again) =
      required-called (is_terminal c.session.run.state) c.in_process
        (is_running_fleet c.session.run) c.entry (apply_pause tick1 now1) scheduler
        (sym (required_lem c) ∙ e) in
    (
      c1,
      resumed_by tick2 now2 now1 c1 after,
      pause_lem tick1 now1 c scheduler fresh e,
      resume_lem tick2 now2 now1 c1 after refl (required_lem c1 ∙ again),
      resumed_by-IsResumed tick1 now1 tick2 now2 c scheduler after,
    )
