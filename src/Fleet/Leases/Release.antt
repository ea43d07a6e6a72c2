-- ===== src/Fleet/Leases/Release.antt =====
-- When the fleet is released: T0 and what the leases are then.
use regulator.Prelude.{
  ℕ, ◌+◌, ◌≡◌, ◌⊎◌, refl, ap, ◌∙◌, sym, true, false, Bool, ◌||◌, Option, none, some, List, [], ◌∷◌,
  arith, any, inl, inr, Bool-cases, Option-cases,
}
use regulator.Fleet.Leases.{
  LeaseState, Report, WorkerLease, Session, is_pending, is_ready_state, is_draining, is_terminal,
  lose, lose_pending, can_release, evaluate_release, holder_ok, find, write,
}
use regulator.Fleet.Leases.Store.{can_release-t0}
use regulator.Fleet.Leases.Handlers.{
  mark_ready, released, absorb, beaten, beat_by, beat, heartbeat, Payload, restored,
}

abbrev pub some_pending : Session → Bool
some_pending s = any (λ l. is_pending l.state) s.leases

abbrev pub some_ready : Session → Bool
some_ready s = any (λ l. is_ready_state l.state) s.leases

lose-pending : (l : WorkerLease) → is_pending (lose l).state ≡ false
unfolding lose
lose-pending l = ground arith

lose-ready : (l : WorkerLease) → is_ready_state (lose l).state ≡ is_ready_state l.state
unfolding lose
lose-ready l = ground arith

none_pending : (ls : List WorkerLease) → any (λ l. is_pending l.state) (lose_pending ls) ≡ false
unfolding lose_pending
none_pending [] = refl
none_pending (l ∷ ls) = ground (arith, lose-pending l, none_pending ls)

still_ready :
    (ls : List WorkerLease)
    → any (λ l. is_ready_state l.state) (lose_pending ls) ≡ any (λ l. is_ready_state l.state) ls
unfolding lose_pending
still_ready [] = refl
still_ready (l ∷ ls) = ground (arith, lose-ready l, still_ready ls)

can_release-ready : (force : Bool) (s : Session) → can_release force s ≡ true → some_ready s ≡ true
unfolding can_release
can_release-ready force s h = ground arith

can_release-unforced : (s : Session) → can_release false s ≡ true → some_pending s ≡ false
unfolding can_release
can_release-unforced s h = ground arith

can_release-forced :
    (force : Bool) (s : Session)
    → can_release force s ≡ true
    → (force ≡ true) ⊎ (some_pending s ≡ false)
can_release-forced true s h = inl refl
can_release-forced false s h = inr (can_release-unforced s h)

-- A release happens once and only with a worker that is ready: T0 was not set before, is set to the
-- delay from now, the leases that were still pending are lost, and at least one worker is ready.
-- Unless it is forced, no lease was pending. A refused release changes nothing.
pub evaluate_release_lem :
    (force : Bool) (now delay : ℕ) (s : Session)
    → ((evaluate_release force now delay s).1 ≡ true)
        × (s.run.t0 ≡ none)
        × ((evaluate_release force now delay s).0.run.t0 ≡ some (now + delay))
        × (some_pending (evaluate_release force now delay s).0 ≡ false)
        × (some_ready (evaluate_release force now delay s).0 ≡ true)
        × ((force ≡ true) ⊎ (some_pending s ≡ false))
      ⊎ (evaluate_release force now delay s ≡ (s, false))
unfolding evaluate_release
evaluate_release_lem force now delay s = elim (Bool-cases (can_release force s)) [
  | inl goes ↦ rw goes (
      inl (
        refl,
        can_release-t0 force s goes,
        refl,
        none_pending s.leases,
        still_ready s.leases ∙ can_release-ready force s goes,
        can_release-forced force s goes,
      ))
  | inr stays ↦ rw stays (inr refl)
]

-- A step by which T0 is set leaves no lease pending.
abbrev pub StartsWhole : Session → Session → Type 0
StartsWhole s s' = (t : ℕ) → s.run.t0 ≡ none → s'.run.t0 ≡ some t → some_pending s' ≡ false

pub release-StartsWhole :
    (force : Bool) (now delay : ℕ) (r s : Session)
    → r.run.t0 ≡ s.run.t0
    → StartsWhole r (evaluate_release force now delay s).0
unfolding evaluate_release
release-StartsWhole force now delay r s same t none_before set =
    elim (Bool-cases (can_release force s)) [
      | inl goes ↦ rw goes (none_pending s.leases)
      | inr stays ↦ let set' : s.run.t0 ≡ some t = rw stays at set in cc
    ]

-- By a ready call T0 is set only when every worker's lease is ready, running, done or lost.
pub mark_ready-StartsWhole :
    (now delay slot : ℕ) (lease_id : Option ℕ) (s : Session)
    → StartsWhole s (mark_ready now delay slot lease_id s).1
unfolding mark_ready
mark_ready-StartsWhole now delay slot lease_id s = elim (Option-cases (find slot s.leases)) [
  | inl absent ↦ rw (absent, mark_ready) (λ t e f. cc)
  | inr (lease, e) ↦
      rw (e, mark_ready)
        (elim (Bool-cases (holder_ok lease lease_id)) [
          | inl holds ↦ rw holds (release-StartsWhole false now delay s _ refl)
          | inr stale ↦ rw stale (λ t e f. cc)
        ])
]

absorb-run :
    (slot : ℕ) (payload : Payload) (s : Session) → (absorb slot payload.interval s).run ≡ s.run
unfolding absorb
absorb-run slot payload s = ground arith

released-StartsWhole :
    (now delay : ℕ) (state : LeaseState) (r s : Session)
    → r.run.t0 ≡ s.run.t0
    → StartsWhole r (released now delay state s)
unfolding released
released-StartsWhole now delay state r s same = elim (Bool-cases (is_ready_state state)) [
  | inl goes ↦ rw goes (release-StartsWhole false now delay r s same)
  | inr stays ↦ rw stays (λ t e f. cc)
]

beat_by-StartsWhole :
    (now delay : ℕ) (l : WorkerLease) (report : Report) (t0 : Option ℕ) (r s : Session)
    → r.run.t0 ≡ s.run.t0
    → r.run.t0 ≡ t0
    → StartsWhole r (beat_by now delay l report t0 s).1
unfolding beat_by
beat_by-StartsWhole now delay l report none r s same given =
    released-StartsWhole now delay l.state r s same
beat_by-StartsWhole now delay l report (some t0) r s same given = λ t e f. cc

beat-StartsWhole :
    (now delay : ℕ) (lease : WorkerLease) (payload : Payload) (s : Session)
    → StartsWhole s (beat now delay lease payload s).1
unfolding beat
beat-StartsWhole now delay lease payload s =
    let same = absorb-run lease.slot payload (write lease.slot (beaten now payload.stats) s) in
    elim (Bool-cases (is_draining s.run.fleet_state || is_terminal s.run.state)) [
      | inl over ↦ rw over (λ t e f. cc)
      | inr going ↦ rw going (
          beat_by-StartsWhole now delay
            (record lease { state = restored lease.state payload.report }) payload.report s.run.t0 s
            _ (sym (ap (λ r. r.t0) same)) refl)
    ]

-- And so by a heartbeat.
pub heartbeat-StartsWhole :
    (now delay slot : ℕ) (lease_id : Option ℕ) (payload : Payload) (s : Session)
    → StartsWhole s (heartbeat now delay slot lease_id payload s).1
unfolding heartbeat
heartbeat-StartsWhole now delay slot lease_id payload s = elim (Option-cases (find slot s.leases)) [
  | inl absent ↦ rw (absent, heartbeat) (λ t e f. cc)
  | inr (lease, e) ↦
      rw (e, heartbeat)
        (elim (Bool-cases (holder_ok lease lease_id)) [
          | inl holds ↦ rw holds (beat-StartsWhole now delay lease payload s)
          | inr stale ↦ rw stale (λ t e f. cc)
        ])
]
