-- ===== src/Fleet/Leases/Deadline.antt =====
-- The supervisor's release at the provisioning deadline leaves no lease pending.
use mathlib.Core.Path.{subst}
use regulator.Prelude.{
  or_false, ℕ, ◌≡◌, refl, ◌∙◌, sym, inl, inr, Bool, true, false, not, List, [], ◌∷◌, map, any,
  Bool-cases,
}
use regulator.Fleet.Leases.{LeaseState, WorkerLease, Session, is_done, is_pending, is_draining}
use regulator.Fleet.Leases.Release.{StartsWhole, some_pending, release-StartsWhole}
use regulator.Fleet.Leases.Watch.{
  Clocks, relabel, mark_lost, lapse, expire, give_up, drain, cut_off, conclude, prepare, round,
  is_free,
}
use regulator.Fleet.Leases.Ticks.{expire-cases, conclude-cases}

lost_pending :
    (p : LeaseState → Bool) (l : WorkerLease)
    → is_pending l.state ≡ false
    → is_pending (mark_lost p l).state ≡ false
unfolding mark_lost
lost_pending p l h = elim (Bool-cases (p l.state)) [
  | inl gone ↦ rw gone refl
  | inr stays ↦ rw stays h
]

map_none :
    (p : LeaseState → Bool) (ls : List WorkerLease)
    → any (λ l. is_pending l.state) ls ≡ false
    → any (λ l. is_pending l.state) (map (mark_lost p) ls) ≡ false
map_none p [] h = refl
map_none p (l ∷ ls) h =
    let (a, b) = or_false (is_pending l.state) (any (λ x. is_pending x.state) ls) h in
    rw (lost_pending p l a) (map_none p ls b)

-- A change that keeps T0, and makes no lease pending.
abbrev IsLate : Session → Session → Type 0
IsLate s s' = (s'.run.t0 ≡ s.run.t0) × (some_pending s ≡ false → some_pending s' ≡ false)

IsLate-StartsWhole : (r s s' : Session) → StartsWhole r s → IsLate s s' → StartsWhole r s'
IsLate-StartsWhole r s s' whole (same, none_new) t before set =
    none_new (whole t before (sym same ∙ set))

drain-IsLate : (b : Bool) (s : Session) → IsLate s (drain b s)
unfolding drain
drain-IsLate true s = (refl, map_none is_free s.leases)
drain-IsLate false s = (refl, λ h. h)

cut_off-IsLate : (s : Session) → IsLate s (cut_off s)
unfolding cut_off
cut_off-IsLate s = (refl, map_none (λ state. not (is_done state)) s.leases)

conclude-IsLate :
    (c : Clocks) (started now : ℕ) (s : Session) → IsLate s (conclude c started now s).0
conclude-IsLate c started now s = elim (conclude-cases c started now s) [
  | inl (ended, e) ↦ subst (λ r. IsLate s r.0) (sym e) (refl, λ h. h)
  | inr (inl e) ↦ subst (λ r. IsLate s r.0) (sym e) (cut_off-IsLate s)
  | inr (inr (in_time, e)) ↦ subst (λ r. IsLate s r.0) (sym e) (refl, λ h. h)
]

unset : (r s : Session) → s.run.t0 ≡ r.run.t0 → StartsWhole r s
unset r s same t before set = cc

give_up-t0 : (s : Session) → (give_up s).run.t0 ≡ s.run.t0
unfolding give_up
give_up-t0 s = refl

expire-StartsWhole :
    (c : Clocks) (started now : ℕ) (r s : Session)
    → s.run.t0 ≡ r.run.t0
    → StartsWhole r (expire c started now s)
expire-StartsWhole c started now r s same = elim (expire-cases c started now s) [
  | inl e ↦ subst (StartsWhole r) (sym e) (unset r s same)
  | inr (inl e) ↦
      subst (StartsWhole r) (sym e) (release-StartsWhole true now c.delay r s (sym same))
  | inr (inr e) ↦ subst (StartsWhole r) (sym e) (unset r (give_up s) (give_up-t0 s ∙ same))
]

prepare-StartsWhole :
    (c : Clocks) (started now : ℕ) (s : Session) → StartsWhole s (prepare c started now s)
unfolding prepare
prepare-StartsWhole c started now s =
    let lapsed = relabel (lapse c started now (is_draining s.run.fleet_state)) s in
    let expired = expire c started now lapsed in
    IsLate-StartsWhole s expired (drain (is_draining expired.run.fleet_state) expired)
      (expire-StartsWhole c started now s lapsed refl)
      (drain-IsLate (is_draining expired.run.fleet_state) expired)

pub round-StartsWhole :
    (c : Clocks) (started now : ℕ) (s : Session) → StartsWhole s (round c started now s).0
unfolding round
round-StartsWhole c started now s =
    IsLate-StartsWhole s (prepare c started now s)
      (conclude c started now (prepare c started now s)).0 (prepare-StartsWhole c started now s)
      (conclude-IsLate c started now (prepare c started now s))
