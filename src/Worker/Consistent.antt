-- ===== src/Worker/Consistent.antt =====
-- Through any sequence of events a fleet member's flags agree.
use regulator.Prelude.{
  ℕ, ◌≡◌, refl, arith, Bool, true, false, not, ◌&&◌, ◌||◌, Option, none, some, List, [], ◌∷◌,
  if◌then◌else◌, ap, sym, ◌∙◌, Bool-cases, inl, inr,
}
use regulator.Control.{Scheduler, apply_pause, pause_from, apply_resume, resume_since, apply_load}
use regulator.Results.Run.{RunStats}
use regulator.Worker.{
  Worker, Answer, Posted, answered, fenced, failed, StopReason, by_control, by_signal,
  lease_superseded, unreachable, new_worker, request_stop, stop_scheduler, take_epoch, obey, follow,
  follow_pause, follow_load, take_answer, sample, be_superseded, beat, Command, release, stop,
  go_on, superseded, other, is_stop, is_superseded, is_expired,
}
use regulator.Worker.Events.{
  Event, beaten, signalled, prepared, made_ready, ready_replied, let_go, finished, prepare,
  take_ready, go, happen, happened,
}

abbrev pub is_given : Option StopReason → Bool
is_given none = false
is_given (some reason) = true

-- A scheduler that is there, if the worker is stopped, is stopping.
abbrev pub stops_with : Bool → Option Scheduler → Bool
stops_with stopped none = true
stops_with stopped (some s) = not stopped || s.stopping

-- A stopped worker waits for no release, a superseded one is stopped, a stop has a reason, and the
-- scheduler hears of it.
pub record IsConsistent (w : Worker) : Type 0 where
  pub let_go : w.stopped ≡ true → w.released ≡ true
  pub superseded_stops : w.superseded ≡ true → w.stopped ≡ true
  pub has_reason : w.stopped ≡ is_given w.reason
  pub scheduler_stops : stops_with w.stopped w.scheduler ≡ true

IsConsistent-new_worker : (now : ℕ) → IsConsistent (new_worker now)
unfolding new_worker
IsConsistent-new_worker now = record {
  let_go = λ h. cc;
  superseded_stops = λ h. cc;
  has_reason = refl;
  scheduler_stops = refl;
}

stop_scheduler-stops : (o : Option Scheduler) → stops_with true (stop_scheduler o) ≡ true
unfolding stop_scheduler
stop_scheduler-stops none = refl
stop_scheduler-stops (some s) = refl

IsConsistent-request_stop :
    (reason : StopReason) (w : Worker) → IsConsistent (request_stop reason w)
unfolding request_stop
IsConsistent-request_stop reason w = record {
  let_go = λ h. refl;
  superseded_stops = λ h. refl;
  has_reason = refl;
  scheduler_stops = stop_scheduler-stops w.scheduler;
}

follow_pause-stopping :
    (tick wall : ℕ) (paused : Option Bool) (s : Scheduler)
    → (follow_pause tick wall paused s).stopping ≡ s.stopping
unfolding follow_pause apply_pause pause_from apply_resume resume_since
follow_pause-stopping tick wall none s = refl
follow_pause-stopping tick wall (some true) s = ground arith
follow_pause-stopping tick wall (some false) s = ground arith

follow_load-stopping :
    (wall : ℕ) (load applied : Option ℕ) (s : Scheduler)
    → (follow_load wall load applied s).0.stopping ≡ s.stopping
unfolding follow_load apply_load
follow_load-stopping wall none applied s = refl
follow_load-stopping wall (some load) applied s = ground arith

IsConsistent-follow :
    (tick wall : ℕ) (a : Answer) (o : Option Scheduler) (w : Worker)
    → w.scheduler ≡ o
    → IsConsistent w
    → IsConsistent (follow tick wall a o w)
unfolding follow
IsConsistent-follow tick wall a none w e c = c
IsConsistent-follow tick wall a (some s) w e c = elim (Bool-cases (is_stop a.command)) [
  | inl h ↦ rw h c
  | inr h ↦ rw h record {
    let_go = c.let_go;
    superseded_stops = c.superseded_stops;
    has_reason = c.has_reason;
    scheduler_stops =
        ap (λ b. not w.stopped || b)
          (follow_load-stopping wall a.load w.applied_load (follow_pause tick wall a.paused s)
            ∙ follow_pause-stopping tick wall a.paused s)
        ∙ ap (stops_with w.stopped) (sym e)
        ∙ c.scheduler_stops;
  }
]

IsConsistent-obey :
    (c : Command) (t0 : Option ℕ) (w : Worker) → IsConsistent w → IsConsistent (obey c t0 w)
unfolding obey
IsConsistent-obey release t0 w c = record {
  let_go = λ h. ground (arith, c.let_go h);
  superseded_stops = c.superseded_stops;
  has_reason = c.has_reason;
  scheduler_stops = c.scheduler_stops;
}
IsConsistent-obey stop t0 w c = IsConsistent-request_stop by_control w
IsConsistent-obey go_on t0 w c = c
IsConsistent-obey superseded t0 w c = c
IsConsistent-obey other t0 w c = c

-- The flags do not depend on the statistics, nor on the time of the last acknowledgement.
IsConsistent-touched :
    (stats : Option RunStats) (last_ack : ℕ) (w : Worker)
    → IsConsistent w
    → IsConsistent (record w { stats = stats; last_ack = last_ack })
IsConsistent-touched stats last_ack w c = record {
  let_go = c.let_go;
  superseded_stops = c.superseded_stops;
  has_reason = c.has_reason;
  scheduler_stops = c.scheduler_stops;
}

IsConsistent-take_answer :
    (tick wall : ℕ) (a : Answer) (w : Worker)
    → IsConsistent w
    → IsConsistent (take_answer tick wall a w)
unfolding take_answer
IsConsistent-take_answer tick wall a w c = IsConsistent-follow tick wall a _ _ refl (
    IsConsistent-obey a.command a.t0 _
      (IsConsistent-touched (take_epoch wall a.epoch a.epoch_started_at w.stats) w.last_ack w c))

IsConsistent-beat :
    (deadman now tick wall : ℕ) (posted : Posted) (w : Worker)
    → IsConsistent w
    → IsConsistent (beat deadman now tick wall posted w).0
unfolding beat be_superseded
IsConsistent-beat deadman now tick wall fenced w c =
    IsConsistent-request_stop lease_superseded
      (record w { stats = sample wall w.stats; superseded = true })
IsConsistent-beat deadman now tick wall (answered a) w c =
    elim (Bool-cases (is_superseded a.command)) [
      | inl h ↦ rw h (
          IsConsistent-request_stop lease_superseded
            (record w { stats = sample wall w.stats; superseded = true }))
      | inr h ↦ rw h (
          IsConsistent-take_answer tick wall a _
            (IsConsistent-touched (sample wall w.stats) now w c))
    ]
IsConsistent-beat deadman now tick wall failed w c =
    elim (Bool-cases (is_expired deadman now w.last_ack)) [
      | inl h ↦
          rw h (IsConsistent-request_stop unreachable (record w { stats = sample wall w.stats }))
      | inr h ↦ rw h (IsConsistent-touched (sample wall w.stats) w.last_ack w c)
    ]

prepare-stops :
    (stopped : Bool) (s : Scheduler)
    → stops_with stopped (if stopped then stop_scheduler (some s) else some s) ≡ true
unfolding stop_scheduler
prepare-stops true s = refl
prepare-stops false s = refl

IsConsistent-happen :
    (deadman : ℕ) (e : Event) (w : Worker) (beating : Bool)
    → IsConsistent w
    → IsConsistent (happen deadman e (w, beating)).0
unfolding happen prepare take_ready go
IsConsistent-happen deadman (beaten now tick wall posted) w true c =
    IsConsistent-beat deadman now tick wall posted w c
IsConsistent-happen deadman (beaten now tick wall posted) w false c = c
IsConsistent-happen deadman signalled w beating c = IsConsistent-request_stop by_signal w
IsConsistent-happen deadman (prepared s stats) w beating c = record {
  let_go = c.let_go;
  superseded_stops = c.superseded_stops;
  has_reason = c.has_reason;
  scheduler_stops = prepare-stops w.stopped s;
}
IsConsistent-happen deadman made_ready w beating c = record {
  let_go = c.let_go;
  superseded_stops = c.superseded_stops;
  has_reason = c.has_reason;
  scheduler_stops = c.scheduler_stops;
}
IsConsistent-happen deadman (ready_replied a) w beating c = record {
  let_go = λ h. ground (arith, c.let_go h);
  superseded_stops = c.superseded_stops;
  has_reason = c.has_reason;
  scheduler_stops = c.scheduler_stops;
}
IsConsistent-happen deadman let_go w beating c =
    elim (Bool-cases (w.released && not w.superseded)) [
      | inl h ↦ rw h record {
        let_go = c.let_go;
        superseded_stops = c.superseded_stops;
        has_reason = c.has_reason;
        scheduler_stops = c.scheduler_stops;
      }
      | inr h ↦ rw h c
    ]
IsConsistent-happen deadman finished w beating c = record {
  let_go = c.let_go;
  superseded_stops = c.superseded_stops;
  has_reason = c.has_reason;
  scheduler_stops = c.scheduler_stops;
}

happened-keeps :
    (deadman : ℕ) (events : List Event) (w : Worker) (beating : Bool)
    → IsConsistent w
    → IsConsistent (happened deadman events (w, beating)).0
unfolding happened
happened-keeps deadman [] w beating c = c
happened-keeps deadman (e ∷ rest) w beating c =
    happened-keeps deadman rest _ _ (IsConsistent-happen deadman e w beating c)

-- Whatever happens to a fleet member from its claim on, in any order: if it is stopped it waits for no
-- release, it has a reason, and its scheduler is stopping, also one that was made after the stop; and
-- if its lease is superseded it is stopped.
pub happened-IsConsistent :
    (deadman now : ℕ) (events : List Event)
    → IsConsistent (happened deadman events (new_worker now, true)).0
happened-IsConsistent deadman now events =
    happened-keeps deadman events (new_worker now) true (IsConsistent-new_worker now)
