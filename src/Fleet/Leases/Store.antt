-- ===== src/Fleet/Leases/Store.antt =====
-- Reads after writes on the rows of the leases, and what every handler keeps.
use regulator.Prelude.{
  ℕ, ◌+◌, ◌≡◌, ◌≢◌, refl, ap, ◌∙◌, sym, true, false, Bool, none, some, List, [], ◌∷◌, arith, map,
  ◌==◌, some-eq, ==_iff, ne→==, inl, inr, Bool-cases,
}
use regulator.Fleet.Leases.{
  done, WorkerLease, Run, Session, find, update, write, lose, lose_pending, evaluate_release,
  may_release, can_release, releasing,
}

pub find-slot : (k : ℕ) (ls : List WorkerLease) (l : WorkerLease) → find k ls ≡ some l → l.slot ≡ k
unfolding find
find-slot k [] l e = cc
find-slot k (m ∷ ls) l e = elim (Bool-cases (m.slot == k)) [
  | inl here ↦ let same : m ≡ l = ground arith in ap (λ r. r.slot) (sym same) ∙ (==_iff _ _).0 here
  | inr there ↦ find-slot k ls l (rw there at e)
]

module _ (k : ℕ) (f : WorkerLease → WorkerLease) where
  pub find-update_self :
      (ls : List WorkerLease) (row : WorkerLease)
      → find k ls ≡ some row
      → (f row).slot ≡ row.slot
      → find k (update k f ls) ≡ some (f row)
  unfolding find update
  find-update_self [] row e s = cc
  find-update_self (m ∷ ls) row e s = elim (Bool-cases (m.slot == k)) [
    | inl here ↦
        let same : m ≡ row = ground arith in
        let at_k : (f m).slot ≡ k =
          ap (λ r. (f r).slot) same ∙ s ∙ ap (λ r. r.slot) (sym same) ∙ (==_iff _ _).0 here in
        rw (here, (==_iff _ _).1 at_k, same)
    | inr there ↦ rw (there, there) (find-update_self ls row (rw there at e) s)
  ]

  pub find-update_ne :
      (ls : List WorkerLease) (row : WorkerLease) (j : ℕ)
      → find k ls ≡ some row
      → (f row).slot ≡ row.slot
      → j ≢ k
      → find j (update k f ls) ≡ find j ls
  unfolding find update
  find-update_ne [] row j e s n = refl
  find-update_ne (m ∷ ls) row j e s n = elim (Bool-cases (m.slot == k)) [
    | inl here ↦
        let same : m ≡ row = ground arith in
        let at_k = (==_iff _ _).0 here in
        let old : (m.slot == j) ≡ false = ne→== _ _ (λ q. n (sym q ∙ at_k)) in
        let new : ((f m).slot == j) ≡ false =
          ne→== _ _
            (λ q. n (sym q ∙ ap (λ r. (f r).slot) same ∙ s ∙ ap (λ r. r.slot) (sym same) ∙ at_k)) in
        rw (here, old, new, find)
    | inr there ↦
        rw (there, find)
          (elim (Bool-cases (m.slot == j)) [
            | inl at_j ↦ rw at_j
            | inr past ↦ rw past (find-update_ne ls row j (rw there at e) s n)
          ])
  ]

  pub slots-update :
      (ls : List WorkerLease) (row : WorkerLease)
      → find k ls ≡ some row
      → (f row).slot ≡ row.slot
      → map (λ l. l.slot) (update k f ls) ≡ map (λ l. l.slot) ls
  unfolding find update
  slots-update [] row e s = refl
  slots-update (m ∷ ls) row e s = elim (Bool-cases (m.slot == k)) [
    | inl here ↦
        let same : m ≡ row = ground arith in
        rw here (ap (λ i. i ∷ map (λ l. l.slot) ls) (rw same s))
    | inr there ↦ rw there (ap (λ r. m.slot ∷ r) (slots-update ls row (rw there at e) s))
  ]

lose-slot : (l : WorkerLease) → (lose l).slot ≡ l.slot
unfolding lose
lose-slot l = ground arith

lose-done : (l : WorkerLease) → l.state ≡ done → lose l ≡ l
unfolding lose
lose-done l d = ground arith

pub find-lose_pending :
    (k : ℕ) (ls : List WorkerLease) (l : WorkerLease)
    → find k ls ≡ some l
    → find k (lose_pending ls) ≡ some (lose l)
unfolding find lose_pending lose
find-lose_pending k [] l e = cc
find-lose_pending k (m ∷ ls) l e = elim (Bool-cases (m.slot == k)) [
  | inl here ↦
      let same : m ≡ l = ground arith in rw (lose-slot m, here) (ap (λ r. some (lose r)) same)
  | inr there ↦ rw (lose-slot m, there) (find-lose_pending k ls l (rw there at e))
]

slots-lose_pending :
    (ls : List WorkerLease) → map (λ l. l.slot) (lose_pending ls) ≡ map (λ l. l.slot) ls
unfolding lose_pending
slots-lose_pending [] = refl
slots-lose_pending (m ∷ ls) = rw (lose-slot m, slots-lose_pending ls)

-- What no handler takes back: the slots of the fleet, a T0 once it is set, and the summary of a
-- worker that is done.
pub record Follows (s s' : Session) : Type 0 where
  pub slots : map (λ l. l.slot) s'.leases ≡ map (λ l. l.slot) s.leases
  pub t0_kept : (t : ℕ) → s.run.t0 ≡ some t → s'.run.t0 ≡ some t
  pub done_kept :
      (k : ℕ) (l : WorkerLease)
      → find k s.leases ≡ some l
      → l.state ≡ done
      → (l' : WorkerLease) × (find k s'.leases ≡ some l')
        × (l'.state ≡ done)
        × (l'.summary ≡ l.summary)

pub Follows-refl : (s : Session) → Follows s s
Follows-refl s = record { slots = refl; t0_kept = λ t e. e; done_kept = λ k l e d. (l, e, d, refl) }

pub Follows-trans : {s t u : Session} → Follows s t → Follows t u → Follows s u
Follows-trans p q = record {
  slots = q.slots ∙ p.slots;
  t0_kept = λ t e. q.t0_kept t (p.t0_kept t e);
  done_kept = λ k l e d.
      let (m, em, dm, sm) = p.done_kept k l e d in
      let (n, en, dn, sn) = q.done_kept k m em dm in (n, en, dn, sn ∙ sm);
}

-- A write to one row that leaves a worker that is done alone.
pub write-Follows :
    (k : ℕ) (f : WorkerLease → WorkerLease) (row : WorkerLease) (s : Session)
    → find k s.leases ≡ some row
    → (f row).slot ≡ row.slot
    → (row.state ≡ done → ((f row).state ≡ done) × ((f row).summary ≡ row.summary))
    → Follows s (write k f s)
write-Follows k f row s e slot keep = record {
  slots = slots-update k f s.leases row e slot;
  t0_kept = λ t h. h;
  done_kept = λ j l h d. elim (Bool-cases (j == k)) [
    | inl here ↦
        let q = (==_iff j k).0 here in
        let same : l ≡ row = some-eq (sym h ∙ ap (λ i. find i s.leases) q ∙ e) in
        let kept = keep (ap (λ r. r.state) (sym same) ∙ d) in
        (
          f row,
          ap (λ i. find i (update k f s.leases)) q ∙ find-update_self k f s.leases row e slot,
          kept.0,
          kept.1 ∙ ap (λ r. r.summary) (sym same),
        )
    | inr there ↦ (
      l,
      find-update_ne k f s.leases row j e slot (λ q. cc (there, (==_iff j k).1 q)) ∙ h,
      d,
      refl,
    )
  ];
}

pub may_release-t0 : (run : Run) → may_release run ≡ true → run.t0 ≡ none
may_release-t0 run h = ground arith

pub can_release-t0 : (force : Bool) (s : Session) → can_release force s ≡ true → s.run.t0 ≡ none
unfolding can_release
can_release-t0 force s h = may_release-t0 s.run (ground arith)

release-Follows :
    (now delay : ℕ) (s : Session)
    → s.run.t0 ≡ none
    → Follows s (record s {
      run = record s.run { t0 = some (now + delay); fleet_state = some releasing };
      leases = lose_pending s.leases;
    })
release-Follows now delay s h = record {
  slots = slots-lose_pending s.leases;
  t0_kept = λ t e. cc;
  done_kept = λ k l e d. (l, find-lose_pending k s.leases l e ∙ ap some (lose-done l d), d, refl);
}

pub evaluate_release-Follows :
    (force : Bool) (now delay : ℕ) (s : Session) → Follows s (evaluate_release force now delay s).0
unfolding evaluate_release
evaluate_release-Follows force now delay s = elim (Bool-cases (can_release force s)) [
  | inl goes ↦ rw goes (release-Follows now delay s (can_release-t0 force s goes))
  | inr stays ↦ rw stays (Follows-refl s)
]
