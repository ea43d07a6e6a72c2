-- ===== src/Scheduling/Population.antt =====
-- The numbers of the virtual users, and how the loop of the closed model starts more.
use Prim.Native.Nat.{max}
use regulator.Prelude.{
  ℕ, zero, suc, ◌+◌, ◌≡◌, ◌≤◌, ◌<◌, refl, ◌∙◌, arith, false, List, [], ◌∷◌, ◌++◌, ◌==◌, ltb, length,
  length-append, Bool-cases, ltb→lt, inl, inr,
}
use regulator.Scheduling.Closed.{Closed, has, remove, start_user, grow, active_of}

abbrev pub AreDistinct : List ℕ → Type 0
AreDistinct [] = Unit
AreDistinct (id ∷ rest) = (has id rest ≡ false) × AreDistinct rest

abbrev pub AreBelow : ℕ → List ℕ → Type 0
AreBelow next [] = Unit
AreBelow next (id ∷ rest) = (id < next) × AreBelow next rest

-- Everyone who is not asked to retire.
abbrev pub active : Closed → List ℕ
active s = active_of s.retiring s.vu_tasks

-- The users' numbers differ and are below the next one.
abbrev pub IsPopulation : Closed → Type 0
IsPopulation s = AreDistinct s.vu_tasks × AreBelow s.next_vu_id s.vu_tasks

has-remove : (id vu : ℕ) (ids : List ℕ) → has id ids ≡ false → has id (remove vu ids) ≡ false
unfolding has remove
has-remove id vu [] h = refl
has-remove id vu (other ∷ rest) h = elim (Bool-cases (other == vu)) [
  | inl e ↦ rw e ground (arith, h)
  | inr e ↦ rw e ground (arith, h, has-remove id vu rest)
]

pub AreDistinct-remove : (vu : ℕ) (ids : List ℕ) → AreDistinct ids → AreDistinct (remove vu ids)
unfolding remove
AreDistinct-remove vu [] d = tt
AreDistinct-remove vu (other ∷ rest) (h, d) = elim (Bool-cases (other == vu)) [
  | inl e ↦ rw e d
  | inr e ↦ rw e (has-remove other vu rest h, AreDistinct-remove vu rest d)
]

pub AreBelow-remove :
    (next vu : ℕ) (ids : List ℕ) → AreBelow next ids → AreBelow next (remove vu ids)
unfolding remove
AreBelow-remove next vu [] p = tt
AreBelow-remove next vu (other ∷ rest) (p, ps) = elim (Bool-cases (other == vu)) [
  | inl e ↦ rw e ps
  | inr e ↦ rw e (p, AreBelow-remove next vu rest ps)
]

-- The next number is new.
has-next : (next : ℕ) (ids : List ℕ) → AreBelow next ids → has next ids ≡ false
unfolding has
has-next next [] p = refl
has-next next (id ∷ rest) (p, ps) = ground (arith, p, has-next next rest ps)

has-append :
    (id next : ℕ) (ids : List ℕ)
    → id < next
    → has id ids ≡ false
    → has id (ids ++ (next ∷ [])) ≡ false
unfolding has
has-append id next [] p h = ground (arith, p)
has-append id next (other ∷ rest) p h = ground (arith, h, has-append id next rest p)

AreDistinct-append :
    (next : ℕ) (ids : List ℕ)
    → AreDistinct ids
    → AreBelow next ids
    → AreDistinct (ids ++ (next ∷ []))
AreDistinct-append next [] d p = (has-next next [] tt, tt)
AreDistinct-append next (id ∷ rest) (h, d) (p, ps) =
    (has-append id next rest p h, AreDistinct-append next rest d ps)

AreBelow-append :
    (next : ℕ) (ids : List ℕ) → AreBelow next ids → AreBelow (suc next) (ids ++ (next ∷ []))
AreBelow-append next [] p = (omega arith, tt)
AreBelow-append next (id ∷ rest) (p, ps) = (omega (arith, p), AreBelow-append next rest ps)

-- The loop reaches the target, starts no more, and leaves those who run in their places.
pub IsPopulation-grow :
    (fuel target : ℕ) (s : Closed) → IsPopulation s → IsPopulation (grow fuel target s)
unfolding grow start_user
IsPopulation-grow zero target s h = h
IsPopulation-grow (suc fuel) target s (d, b) = elim (Bool-cases (ltb (length s.vu_tasks) target)) [
  | inl few ↦ rw few (
      IsPopulation-grow fuel target (start_user s)
        (AreDistinct-append s.next_vu_id s.vu_tasks d b, AreBelow-append s.next_vu_id s.vu_tasks b))
  | inr few ↦ rw few (d, b)
]

pub length-grow :
    (fuel target : ℕ) (s : Closed)
    → target ≤ fuel + length s.vu_tasks
    → length (grow fuel target s).vu_tasks ≡ max target (length s.vu_tasks)
unfolding grow start_user
length-grow zero target s h = ground (arith, h)
length-grow (suc fuel) target s h =
    let more = length-append s.vu_tasks (s.next_vu_id ∷ []) in
    elim (Bool-cases (ltb (length s.vu_tasks) target)) [
      | inl few ↦ rw few (
          length-grow fuel target (start_user s) (omega (arith, h, more))
          ∙ ground (arith, more, ltb→lt (length s.vu_tasks) target few))
      | inr few ↦ rw few ground (arith, few)
    ]

pub retiring-grow : (fuel target : ℕ) (s : Closed) → (grow fuel target s).retiring ≡ s.retiring
unfolding grow start_user
retiring-grow zero target s = refl
retiring-grow (suc fuel) target s = elim (Bool-cases (ltb (length s.vu_tasks) target)) [
  | inl few ↦ rw few (retiring-grow fuel target (start_user s))
  | inr few ↦ rw few refl
]
