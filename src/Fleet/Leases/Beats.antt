-- ===== src/Fleet/Leases/Beats.antt =====
-- A heartbeat keeps what the other handlers keep.
use regulator.Prelude.{
  ℕ, ◌≡◌, refl, ap, ◌∙◌, sym, ◌&&◌, ◌||◌, not, Option, none, some, arith, inl, inr, Bool-cases,
  Option-cases,
}
use regulator.Fleet.Leases.{
  LeaseState, done, Report, WorkerLease, Run, Session, is_done, is_terminal, is_draining, find,
  write, holder_ok,
}
use regulator.Fleet.Leases.Store.{
  Follows, Follows-refl, Follows-trans, write-Follows, find-update_self,
}
use regulator.Fleet.Leases.Handlers.{
  Payload, restored, absorb, beaten, begun, start_run, running_on, beat_by, beat, heartbeat,
  has_begun,
}
use regulator.Fleet.Leases.Steps.{absorb-Follows, absorb-leases, released-Follows, find-own}

beaten-slot : (now : ℕ) (stats : Option ℕ) (l : WorkerLease) → (beaten now stats l).slot ≡ l.slot
beaten-slot now none l = refl
beaten-slot now (some n) l = refl

beaten-done :
    (now : ℕ) (stats : Option ℕ) (l : WorkerLease)
    → l.state ≡ done
    → ((beaten now stats l).state ≡ done) × ((beaten now stats l).summary ≡ l.summary)
beaten-done now none l d = (d, refl)
beaten-done now (some n) l d = (d, refl)

beaten-state : (now : ℕ) (stats : Option ℕ) (l : WorkerLease) → (beaten now stats l).state ≡ l.state
beaten-state now none l = refl
beaten-state now (some n) l = refl

restored-done : (state : LeaseState) (report : Report) → state ≡ done → restored state report ≡ done
restored-done state report d = ground arith

begun-done : (state : LeaseState) → state ≡ done → begun state ≡ done
begun-done state d = ground arith

start_run-t0 : (t0 : ℕ) (report : Report) (run : Run) → (start_run t0 report run).t0 ≡ run.t0
unfolding start_run
start_run-t0 t0 report run = ground arith

run-Follows : (run : Run) (s : Session) → run.t0 ≡ s.run.t0 → Follows s (record s { run = run })
run-Follows run s e = record {
  slots = refl;
  t0_kept = λ t h. e ∙ h;
  done_kept = λ k l f d. (l, f, d, refl);
}

running_on-Follows :
    (t0 : ℕ) (l row : WorkerLease) (report : Report) (s : Session)
    → find l.slot s.leases ≡ some row
    → row.state ≡ l.state
    → Follows s (running_on t0 l report s)
unfolding running_on
running_on-Follows t0 l row report s e same =
    Follows-trans
      (write-Follows l.slot (λ r. record r { state = begun l.state }) row s e refl
        (λ d. (begun-done l.state (sym same ∙ d), refl)))
      (run-Follows (start_run t0 report s.run) _ (start_run-t0 t0 report s.run))

beat_by-Follows :
    (now delay : ℕ) (l row : WorkerLease) (report : Report) (t0 : Option ℕ) (s : Session)
    → find l.slot s.leases ≡ some row
    → row.state ≡ l.state
    → Follows s (beat_by now delay l report t0 s).1
unfolding beat_by
beat_by-Follows now delay l row report none s e same = released-Follows now delay l.state s
beat_by-Follows now delay l row report (some t0) s e same =
    elim (Bool-cases (not (has_begun report) && not (is_done l.state))) [
      | inl again ↦ rw again (Follows-refl s)
      | inr on ↦ rw on (running_on-Follows t0 l row report s e same)
    ]

module _ (now delay : ℕ) (lease : WorkerLease) (payload : Payload) (s : Session)
    (held : find lease.slot s.leases ≡ some lease) where
  abbrev stamped : Session
  stamped = absorb lease.slot payload.interval (write lease.slot (beaten now payload.stats) s)

  abbrev row : WorkerLease
  row = beaten now payload.stats lease

  abbrev state' : LeaseState
  state' = restored lease.state payload.report

  abbrev placed : Session
  placed = write lease.slot (λ l. record l { state = state' }) stamped

  stamped-Follows : Follows s stamped
  stamped-Follows =
      Follows-trans
        (write-Follows lease.slot (beaten now payload.stats) lease s held
          (beaten-slot now payload.stats lease) (beaten-done now payload.stats lease))
        (absorb-Follows lease.slot payload.interval _)

  find-stamped : find lease.slot stamped.leases ≡ some row
  find-stamped =
      ap (find lease.slot) (absorb-leases lease.slot payload.interval _)
      ∙ find-update_self lease.slot (beaten now payload.stats) s.leases lease held
          (beaten-slot now payload.stats lease)

  placed-Follows : Follows s placed
  placed-Follows = Follows-trans stamped-Follows (
      write-Follows lease.slot (λ l. record l { state = state' }) row stamped find-stamped refl
        (λ d. (
          restored-done lease.state payload.report (sym (beaten-state now payload.stats lease) ∙ d),
          refl,
        )))

  find-placed : find lease.slot placed.leases ≡ some (record row { state = state' })
  find-placed =
      find-update_self lease.slot (λ l. record l { state = state' }) stamped.leases row find-stamped
        refl

  beat-Follows : Follows s (beat now delay lease payload s).1
  unfolding beat
  beat-Follows = elim (Bool-cases (is_draining s.run.fleet_state || is_terminal s.run.state)) [
    | inl over ↦ rw over stamped-Follows
    | inr going ↦ rw going (
        Follows-trans placed-Follows (
          beat_by-Follows now delay (record lease { state = state' }) _ payload.report s.run.t0
            placed find-placed refl))
  ]

pub heartbeat-Follows :
    (now delay slot : ℕ) (lease_id : Option ℕ) (payload : Payload) (s : Session)
    → Follows s (heartbeat now delay slot lease_id payload s).1
unfolding heartbeat
heartbeat-Follows now delay slot lease_id payload s = elim (Option-cases (find slot s.leases)) [
  | inl absent ↦ rw (absent, heartbeat) (Follows-refl s)
  | inr (lease, e) ↦
      rw (e, heartbeat)
        (elim (Bool-cases (holder_ok lease lease_id)) [
          | inl holds ↦
              rw holds (beat-Follows now delay lease payload s (find-own slot s.leases lease e))
          | inr stale ↦ rw stale (Follows-refl s)
        ])
]
