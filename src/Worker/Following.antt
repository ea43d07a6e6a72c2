-- ===== src/Worker/Following.antt =====
-- Pause and load ride every reply as state: a worker mirrors them, and a repeated reply changes nothing.
use mathlib.Core.Path.{subst}
use regulator.Prelude.{
  ℕ, ◌≡◌, refl, arith, Bool, true, false, Option, none, some, ap, sym, ◌∙◌, Bool-cases, inl, inr,
}
use regulator.Control.{Scheduler, apply_pause, pause_from, apply_resume, resume_since, apply_load}
use regulator.Worker.{
  Worker, Answer, Command, is_stop, obey, take_answer, take_epoch, follow, follow_pause,
  follow_load, is_paused, is_applied, is_scheduled,
}

-- The scheduler is as the reply says, where it says anything.
abbrev pub IsMirror : Option Bool → Scheduler → Type 0
IsMirror none s = Unit
IsMirror (some paused) s = is_paused s ≡ paused

pause_from-paused :
    (tick wall : ℕ) (s : Scheduler) (o : Option ℕ)
    → s.paused_since ≡ o
    → is_paused (pause_from tick wall s o false) ≡ true
unfolding pause_from
pause_from-paused tick wall s none e = refl
pause_from-paused tick wall s (some since) e = rw e refl

resume_since-running :
    (tick wall : ℕ) (s : Scheduler) (o : Option ℕ)
    → s.paused_since ≡ o
    → is_paused (resume_since tick wall s o) ≡ false
unfolding resume_since
resume_since-running tick wall s none e = rw e refl
resume_since-running tick wall s (some since) e = refl

IsMirror-follow_pause :
    (tick wall : ℕ) (o : Option Bool) (s : Scheduler)
    → s.stopping ≡ false
    → IsMirror o (follow_pause tick wall o s)
unfolding follow_pause apply_pause apply_resume
IsMirror-follow_pause tick wall none s on = tt
IsMirror-follow_pause tick wall (some true) s on = elim (Bool-cases (is_paused s)) [
  | inl h ↦ rw h h
  | inr h ↦ rw h (
      subst (λ b. is_paused (pause_from tick wall s s.paused_since b) ≡ true) (sym on)
        (pause_from-paused tick wall s s.paused_since refl))
]
IsMirror-follow_pause tick wall (some false) s on = elim (Bool-cases (is_paused s)) [
  | inl h ↦ rw h (resume_since-running tick wall s s.paused_since refl)
  | inr h ↦ rw h h
]

-- A load that is applied keeps the pause, and is not applied again.
IsMirror-follow_load :
    (wall : ℕ) (load applied : Option ℕ) (o : Option Bool) (s : Scheduler)
    → IsMirror o s
    → IsMirror o (follow_load wall load applied s).0
unfolding follow_load apply_load
IsMirror-follow_load wall load applied none s m = tt
IsMirror-follow_load wall none applied (some paused) s m = m
IsMirror-follow_load wall (some load) applied (some paused) s m = ground arith

follow_pause-again :
    (tick wall : ℕ) (o : Option Bool) (s : Scheduler)
    → IsMirror o s
    → follow_pause tick wall o s ≡ s
unfolding follow_pause
follow_pause-again tick wall none s m = refl
follow_pause-again tick wall (some true) s m = rw m refl
follow_pause-again tick wall (some false) s m = rw m refl

follow_load-again :
    (wall later : ℕ) (load applied : Option ℕ) (s : Scheduler)
    → follow_load later load (follow_load wall load applied s).1 (follow_load wall load applied s).0
      ≡ follow_load wall load applied s
unfolding follow_load apply_load
follow_load-again wall later none applied s = refl
follow_load-again wall later (some load) applied s = elim (Bool-cases (is_applied load applied)) [
  | inl h ↦ rw (h, h) refl
  | inr h ↦ elim (Bool-cases (is_scheduled s.model)) [
    | inl k ↦ rw (h, k, h, k) refl
    | inr k ↦ rw (h, k) (ground arith)
  ]
]

-- What the worker's reading of a reply makes of its scheduler, and of the same reply once more.
pub record IsSettled (a : Answer) (w : Worker) : Type 0 where
  pub scheduler : Scheduler
  pub held : w.scheduler ≡ some scheduler
  pub mirrors : IsMirror a.paused scheduler
  pub again : (tick wall : ℕ) → follow tick wall a (some scheduler) w ≡ w

abbrev with_scheduler : Worker → Scheduler → Option ℕ → Worker
with_scheduler w s applied = record w { scheduler = some s; applied_load = applied }

follow-IsSettled :
    (tick wall : ℕ) (a : Answer) (s : Scheduler) (w : Worker)
    → is_stop a.command ≡ false
    → s.stopping ≡ false
    → IsSettled a (follow tick wall a (some s) w)
unfolding follow
follow-IsSettled tick wall a s w going on =
    let s1 = follow_pause tick wall a.paused s in
    let pair = follow_load wall a.load w.applied_load s1 in
    let m =
      IsMirror-follow_load wall a.load w.applied_load a.paused s1
        (IsMirror-follow_pause tick wall a.paused s on) in
    rw going record {
      scheduler = pair.0;
      held = refl;
      mirrors = m;
      again = λ tick' wall'.
          let e : follow_load wall' a.load pair.1 (follow_pause tick' wall' a.paused pair.0)
              ≡ pair =
            ap (λ (k : Scheduler). follow_load wall' a.load pair.1 k)
              (follow_pause-again tick' wall' a.paused pair.0 m)
            ∙ follow_load-again wall wall' a.load w.applied_load s1 in
          let kept : Worker = w in
          rw going (ap (λ (q : Scheduler × Option ℕ). with_scheduler kept q.0 q.1) e);
    }

obey-scheduler :
    (c : Command) (t0 : Option ℕ) (w : Worker)
    → is_stop c ≡ false
    → (obey c t0 w).scheduler ≡ w.scheduler
unfolding obey
obey-scheduler Command.go_on t0 w going = refl
obey-scheduler Command.release t0 w going = refl
obey-scheduler Command.stop t0 w going = cc
obey-scheduler Command.superseded t0 w going = refl
obey-scheduler Command.other t0 w going = refl

-- After a reply that asks for no stop, a worker whose scheduler is not stopping is paused just if the
-- reply says so, where it says anything, and following the pause and the load of the same reply once
-- more changes nothing: a reply that is lost only delays them.
pub take_answer-IsSettled :
    (tick wall : ℕ) (a : Answer) (s : Scheduler) (w : Worker)
    → w.scheduler ≡ some s
    → s.stopping ≡ false
    → is_stop a.command ≡ false
    → IsSettled a (take_answer tick wall a w)
unfolding take_answer
take_answer-IsSettled tick wall a s w held on going =
    let w1 : Worker = record w { stats = take_epoch wall a.epoch a.epoch_started_at w.stats } in
    let w2 = obey a.command a.t0 w1 in
    subst (λ o. IsSettled a (follow tick wall a o w2))
      (sym (obey-scheduler a.command a.t0 w1 going ∙ held))
      (follow-IsSettled tick wall a s w2 going on)
