-- ===== src/Scheduling/ClosedBounds.antt =====
-- Whom a turn of the closed model starts, and whom it asks to retire.
use Prim.Native.Nat.{max, min}
use regulator.Prelude.{
  ℕ, zero, suc, ◌≡◌, ◌≤◌, ◌<◌, refl, sym, ap, ◌∙◌, arith, true, false, List, [], ◌∷◌, ◌==◌, ltb,
  length, max_of, Bool-cases, ltb→lt, ==_iff, inl, inr,
}
use regulator.Scheduling.Closed.{
  Closed, new_closed, has, remove, grow, active_of, shrink, settle, tick, ClosedEvent, ticked,
  iterated, ended, pass_by, lived,
}
use mathlib.Core.Path.{subst}
use regulator.Scheduling.Population.{
  AreDistinct, active, IsPopulation, IsPopulation-grow, length-grow, retiring-grow,
  AreDistinct-remove, AreBelow-remove,
}

has-active_of :
    (vu : ℕ) (retiring ids : List ℕ) → has vu ids ≡ false → has vu (active_of retiring ids) ≡ false
unfolding active_of has
has-active_of vu retiring [] h = refl
has-active_of vu retiring (id ∷ rest) h = ground (arith, h, has-active_of vu retiring rest)

active_of-absent :
    (vu : ℕ) (retiring ids : List ℕ)
    → has vu ids ≡ false
    → active_of (vu ∷ retiring) ids ≡ active_of retiring ids
unfolding active_of has
active_of-absent vu retiring [] h = refl
active_of-absent vu retiring (id ∷ rest) h = ground (arith, h, active_of-absent vu retiring rest)

length-remove :
    (vu : ℕ) (ids : List ℕ) → has vu ids ≡ true → suc (length (remove vu ids)) ≡ length ids
unfolding remove has
length-remove vu [] h = absurd (ground (arith, h))
length-remove vu (id ∷ rest) h = elim (Bool-cases (id == vu)) [
  | inl e ↦ rw e refl
  | inr e ↦ rw e (ap suc (length-remove vu rest (ground (arith, h, e))))
]

has-max_of : (id : ℕ) (ids : List ℕ) → has (max_of (id ∷ ids)) (id ∷ ids) ≡ true
unfolding max_of has
has-max_of id [] = ground arith
has-max_of id (next ∷ rest) = ground (arith, has-max_of next rest)

active_of-remove :
    (vu : ℕ) (retiring ids : List ℕ)
    → AreDistinct ids
    → has vu (active_of retiring ids) ≡ true
    → remove vu (active_of retiring ids) ≡ active_of (vu ∷ retiring) ids
unfolding remove active_of has
active_of-remove vu retiring [] d h = refl
active_of-remove vu retiring (id ∷ rest) (fresh, d) h = elim (Bool-cases (has id retiring)) [
  | inl r ↦
      let later = active_of-remove vu retiring rest d (ground (arith, h, r)) in
      ground (arith, r, later)
  | inr r ↦ elim (Bool-cases (id == vu)) [
    | inl e ↦
        let absent = subst (λ v. has v rest ≡ false) ((==_iff id vu).0 e) fresh in
        let later = active_of-absent vu retiring rest absent in ground (arith, r, e, later)
    | inr e ↦
        let later = active_of-remove vu retiring rest d (ground (arith, h, r, e)) in
        ground (arith, r, e, later)
  ]
]

has-largest : (ids : List ℕ) → 0 < length ids → has (max_of ids) ids ≡ true
has-largest [] h = absurd (omega (arith, h))
has-largest (id ∷ rest) h = has-max_of id rest

length-shrink :
    (fuel target : ℕ) (retiring ids : List ℕ)
    → AreDistinct ids
    → length (active_of retiring ids) ≤ fuel
    → length (active_of (shrink fuel target (active_of retiring ids) retiring) ids)
      ≡ min target (length (active_of retiring ids))
unfolding shrink
length-shrink zero target retiring ids d h = ground (arith, h)
length-shrink (suc fuel) target retiring ids d h =
    let all_active = active_of retiring ids in
    let vu = max_of all_active in
    elim (Bool-cases (ltb target (length all_active))) [
      | inl more ↦
          let there =
            has-largest all_active (omega (arith, ltb→lt target (length all_active) more)) in
          let one_less = length-remove vu all_active there in
          let retired = active_of-remove vu retiring ids d there in
          let fewer : suc (length (active_of (vu ∷ retiring) ids)) ≡ length all_active =
            ap (λ vus. suc (length vus)) (sym retired) ∙ one_less in
          rw more (
            subst
              (λ vus.
                length (active_of (shrink fuel target vus (vu ∷ retiring)) ids)
                ≡ min target (length all_active))
              (sym retired)
              (length-shrink fuel target (vu ∷ retiring) ids d (omega (arith, fewer, h))
                ∙ ground (arith, fewer, more)))
      | inr more ↦ rw more ground (arith, more)
    ]

IsPopulation-pass_by : (e : ClosedEvent) (s : Closed) → IsPopulation s → IsPopulation (pass_by e s)
unfolding pass_by tick settle
IsPopulation-pass_by (ticked target) s h = IsPopulation-grow target target s h
IsPopulation-pass_by (iterated vu) s (d, b) = elim (Bool-cases (has vu s.retiring)) [
  | inl r ↦ rw r (AreDistinct-remove vu s.vu_tasks d, AreBelow-remove s.next_vu_id vu s.vu_tasks b)
  | inr r ↦ rw r (d, b)
]
IsPopulation-pass_by (ended vu) s (d, b) =
    (AreDistinct-remove vu s.vu_tasks d, AreBelow-remove s.next_vu_id vu s.vu_tasks b)

IsPopulation-new_closed : (slot : ℕ) → IsPopulation (new_closed slot)
unfolding new_closed
IsPopulation-new_closed slot = (tt, tt)

IsPopulation-lived :
    (es : List ClosedEvent) (s : Closed) → IsPopulation s → IsPopulation (lived es s)
unfolding lived
IsPopulation-lived [] s h = h
IsPopulation-lived (e ∷ rest) s h =
    IsPopulation-lived rest (pass_by e s) (IsPopulation-pass_by e s h)

-- What a turn at `target` makes of `s`.
abbrev pub IsTurn : ℕ → Closed → Closed → Type 0
IsTurn target s after =
    (length after.vu_tasks ≡ max target (length s.vu_tasks))
    × (length (active after) ≡ min target (length (active_of s.retiring after.vu_tasks)))
    × (length after.vu_tasks ≤ after.peak_vus)

tick-IsTurn : (target : ℕ) (s : Closed) → IsPopulation s → IsTurn target s (tick target s)
unfolding tick settle
tick-IsTurn target s h =
    let grown = grow target target s in
    let started = length-grow target target s (omega arith) in
    let kept = retiring-grow target target s in
    let distinct = (IsPopulation-grow target target s h).0 in
    (
      started,
      length-shrink (length (active grown)) target grown.retiring grown.vu_tasks distinct
            (omega arith)
          ∙ ap (λ vus. min target (length (active_of vus grown.vu_tasks))) kept,
      omega arith,
    )

-- Whatever turns, ends of iterations and ends of tasks came before, the tasks of the virtual users
-- have different numbers, and a turn of the closed model's loop at a target starts just the users that
-- are missing to the target, asks just those active above the target to retire, and notes the peak.
pub tick-IsTurn-lived :
    (slot target : ℕ) (es : List ClosedEvent)
    → AreDistinct (lived es (new_closed slot)).vu_tasks
      × IsTurn target (lived es (new_closed slot)) (tick target (lived es (new_closed slot)))
tick-IsTurn-lived slot target es =
    let h = IsPopulation-lived es (new_closed slot) (IsPopulation-new_closed slot) in
    (h.0, tick-IsTurn target (lived es (new_closed slot)) h)
