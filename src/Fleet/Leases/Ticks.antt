-- ===== src/Fleet/Leases/Ticks.antt =====
-- A round of the supervisor keeps what the handlers keep.
use mathlib.Core.Path.{subst}
use regulator.Prelude.{
  ℕ, ◌≡◌, refl, ap, ◌∙◌, sym, ◌⊎◌, inl, inr, Bool, true, false, not, ◌&&◌, some, List, [], ◌∷◌, map,
  Bool-cases, arith, ◌==◌, if◌then◌else◌, some-eq,
}
use regulator.Fleet.Leases.{
  LeaseState, done, lost, WorkerLease, Session, find, is_done, is_pending, is_live, is_draining,
  evaluate_release,
}
use regulator.Fleet.Leases.Store.{Follows, Follows-refl, Follows-trans, evaluate_release-Follows}
use regulator.Fleet.Leases.Release.{evaluate_release_lem}
use regulator.Fleet.Leases.Watch.{
  Clocks, relabel, mark_lost, lapse, is_silent, allowance, expire, is_overdue, released_or_given_up,
  give_up, drain, is_finished, is_timed_out, cut_off, conclude, prepare, round, is_free,
}

-- A change of a row that keeps its slot and leaves a worker that is done alone.
abbrev pub IsTame : (WorkerLease → WorkerLease) → Type 0
IsTame f = (l : WorkerLease) → ((f l).slot ≡ l.slot) × (l.state ≡ done → f l ≡ l)

slots-map :
    (f : WorkerLease → WorkerLease)
    → IsTame f
    → (ls : List WorkerLease) → map (λ l. l.slot) (map f ls) ≡ map (λ l. l.slot) ls
slots-map f tame [] = refl
slots-map f tame (l ∷ ls) = rw ((tame l).0, slots-map f tame ls) refl

find-map :
    (f : WorkerLease → WorkerLease)
    → IsTame f
    → (k : ℕ) (ls : List WorkerLease) (l : WorkerLease) → find k ls ≡ some l
    → find k (map f ls) ≡ some (f l)
unfolding find
find-map f tame k [] l e = cc
find-map f tame k (m ∷ ls) l e =
    let moved : (b : Bool) → (m.slot == k) ≡ b → ((f m).slot == k) ≡ b =
      λ b h. ap (λ s. s == k) (tame m).0 ∙ h in
    elim (Bool-cases (m.slot == k)) [
      | inl here ↦ rw (moved true here) (ap (λ x. some (f x)) (some-eq (rw here at e)))
      | inr there ↦ rw (moved false there) (find-map f tame k ls l (rw there at e))
    ]

relabel-Follows :
    (f : WorkerLease → WorkerLease) → IsTame f → (s : Session) → Follows s (relabel f s)
relabel-Follows f tame s = record {
  slots = slots-map f tame s.leases;
  t0_kept = λ t e. e;
  done_kept = λ k l e d. (l, find-map f tame k s.leases l e ∙ ap some ((tame l).1 d), d, refl);
}

abbrev lost_if : Bool → WorkerLease → WorkerLease
lost_if b l = if b then record l { state = lost } else l

lost_if-slot : (b : Bool) (l : WorkerLease) → (lost_if b l).slot ≡ l.slot
lost_if-slot true l = refl
lost_if-slot false l = refl

mark_lost-IsTame : (p : LeaseState → Bool) → p done ≡ false → IsTame (mark_lost p)
unfolding mark_lost
mark_lost-IsTame p stays l =
    (lost_if-slot (p l.state) l, λ d. ap (λ b. lost_if b l) (ap p d ∙ stays))

lapse-IsTame :
    (c : Clocks) (started now : ℕ) (is_stopping : Bool) → IsTame (lapse c started now is_stopping)
unfolding lapse
lapse-IsTame c started now is_stopping l =
    let silent = is_silent (allowance c started now is_stopping l.state) now l.last_heartbeat_at in
    (
      lost_if-slot (is_live l.state && silent) l,
      λ d. ap (λ b. lost_if (b && silent) l) (ap is_live d),
    )

give_up-Follows : (s : Session) → Follows s (give_up s)
unfolding give_up
give_up-Follows s =
    let f = relabel-Follows (mark_lost is_pending) (mark_lost-IsTame is_pending refl) s in
    record { slots = f.slots; t0_kept = λ t e. e; done_kept = f.done_kept }

cut_off-Follows : (s : Session) → Follows s (cut_off s)
unfolding cut_off
cut_off-Follows s =
    let f =
      relabel-Follows (mark_lost (λ state. not (is_done state)))
        (mark_lost-IsTame (λ state. not (is_done state)) refl) s in
    record { slots = f.slots; t0_kept = λ t e. e; done_kept = f.done_kept }

released_lem : (r : Session × Bool) → r.1 ≡ true → released_or_given_up r ≡ r.0
unfolding released_or_given_up
released_lem (s, true) e = refl
released_lem (s, false) e = absurd (ground (arith, e))

given_up_lem : (s : Session) → released_or_given_up (s, false) ≡ give_up s
unfolding released_or_given_up
given_up_lem s = refl

-- What a round does at the deadline, by cases.
pub expire-cases :
    (c : Clocks) (started now : ℕ) (s : Session)
    → (expire c started now s ≡ s)
      ⊎ ((expire c started now s ≡ (evaluate_release true now c.delay s).0)
          ⊎ (expire c started now s ≡ give_up s))
unfolding expire
expire-cases c started now s = elim (Bool-cases (is_overdue c started now s.run)) [
  | inr waits ↦ rw waits (inl refl)
  | inl over ↦ rw over (elim (evaluate_release_lem true now c.delay s) [
    | inl (went, t0, later, pending, ready, forced) ↦
        inr (inl (released_lem (evaluate_release true now c.delay s) went))
    | inr stays ↦ inr (inr (ap released_or_given_up stays ∙ given_up_lem s))
  ])
]

expire-Follows : (c : Clocks) (started now : ℕ) (s : Session) → Follows s (expire c started now s)
expire-Follows c started now s = elim (expire-cases c started now s) [
  | inl same ↦ subst (Follows s) (sym same) (Follows-refl s)
  | inr (inl goes) ↦ subst (Follows s) (sym goes) (evaluate_release-Follows true now c.delay s)
  | inr (inr up) ↦ subst (Follows s) (sym up) (give_up-Follows s)
]

drain-Follows : (b : Bool) (s : Session) → Follows s (drain b s)
unfolding drain
drain-Follows true s = relabel-Follows (mark_lost is_free) (mark_lost-IsTame is_free refl) s
drain-Follows false s = Follows-refl s

pub conclude-cases :
    (c : Clocks) (started now : ℕ) (s : Session)
    → ((is_finished s ≡ true) × (conclude c started now s ≡ (s, true)))
      ⊎ ((conclude c started now s ≡ (cut_off s, true))
          ⊎ ((is_timed_out c started now s.run ≡ false) × (conclude c started now s ≡ (s, false))))
unfolding conclude
conclude-cases c started now s = elim (Bool-cases (is_finished s)) [
  | inl ended ↦ inl (ended, rw ended refl)
  | inr going ↦ rw going (elim (Bool-cases (is_timed_out c started now s.run)) [
    | inl late ↦ inr (inl (rw late refl))
    | inr in_time ↦ inr (inr (in_time, rw in_time refl))
  ])
]

conclude-Follows :
    (c : Clocks) (started now : ℕ) (s : Session) → Follows s (conclude c started now s).0
conclude-Follows c started now s = elim (conclude-cases c started now s) [
  | inl (ended, e) ↦ subst (λ r. Follows s r.0) (sym e) (Follows-refl s)
  | inr (inl e) ↦ subst (λ r. Follows s r.0) (sym e) (cut_off-Follows s)
  | inr (inr (in_time, e)) ↦ subst (λ r. Follows s r.0) (sym e) (Follows-refl s)
]

prepare-Follows : (c : Clocks) (started now : ℕ) (s : Session) → Follows s (prepare c started now s)
unfolding prepare
prepare-Follows c started now s =
    let lapsed = relabel (lapse c started now (is_draining s.run.fleet_state)) s in
    let expired = expire c started now lapsed in
    Follows-trans
      (relabel-Follows (lapse c started now (is_draining s.run.fleet_state))
        (lapse-IsTame c started now (is_draining s.run.fleet_state)) s)
      (Follows-trans (expire-Follows c started now lapsed)
        (drain-Follows (is_draining expired.run.fleet_state) expired))

pub round-Follows :
    (c : Clocks) (started now : ℕ) (s : Session) → Follows s (round c started now s).0
unfolding round
round-Follows c started now s =
    Follows-trans (prepare-Follows c started now s)
      (conclude-Follows c started now (prepare c started now s))
