-- ===== src/Fleet/Leases/Claims.antt =====
-- `claim`: what a granted claim wrote, and why two claims never share a slot.
use mathlib.Core.Path.{subst}
use regulator.Prelude.{
  ℕ, ◌≡◌, ◌≢◌, ◌⊎◌, refl, ap, ◌∙◌, sym, true, Bool, ◌&&◌, ◌||◌, Option, none, some, List, [], ◌∷◌,
  arith, ==_iff, ne→==, inl, inr, Bool-cases, Option-cases, List-cases, some-eq, All,
}
use regulator.Fleet.Leases.{
  LeaseState, claimed, WorkerLease, Session, is_claimable, is_live, is_terminal, is_over, same,
  find, update,
}
use regulator.Fleet.Leases.Store.{find-slot, find-update_self}
use regulator.Fleet.Leases.Handlers.{
  Claim, granted, refused, claimable, held_by, taken, take_first, in_order, claim_from,
}

-- The slots of the leases differ, as `launch` seeds them.
abbrev pub Distinct : List WorkerLease → Type 0
Distinct [] = Unit
Distinct (l ∷ ls) = All (λ m. m.slot ≢ l.slot) ls × Distinct ls

-- A fresh grant: the row is in the store, under the new id and holder, and was free or lost.
abbrev pub Fresh : ℕ → ℕ → Session → Claim × Session → Type 0
Fresh holder token s (refused r, s') = Unit
Fresh holder token s (granted row, s') =
    (find row.slot s'.leases ≡ some row)
    × (row.state ≡ claimed)
    × (row.lease_id ≡ some token)
    × (row.holder ≡ some holder)
    × (old : WorkerLease) × (find row.slot s.leases ≡ some old)
    × (is_claimable old.state ≡ true)

take_first-Fresh :
    (now holder token : ℕ) (cs : List WorkerLease) (s : Session)
    → Fresh holder token s (take_first now holder token cs s)
unfolding take_first
take_first-Fresh now holder token [] s = tt
take_first-Fresh now holder token (c ∷ cs) s = elim (Option-cases (find c.slot s.leases)) [
  | inl absent ↦ rw (absent, take_first) (take_first-Fresh now holder token cs s)
  | inr (row, e) ↦ elim (Bool-cases (is_claimable row.state)) [
    | inl free ↦
        let at_c = find-slot c.slot s.leases row e in
        rw (e, take_first)
          (rw free (
            ap (λ i. find i (update c.slot (taken now holder token c) s.leases)) at_c
                ∙ find-update_self c.slot (taken now holder token c) s.leases row e refl,
            refl,
            refl,
            refl,
            row,
            ap (λ i. find i s.leases) at_c ∙ e,
            free,
          ))
    | inr held ↦ rw (e, take_first) (rw held (take_first-Fresh now holder token cs s))
  ]
]

-- A holder that has no live lease, as it sees the leases, is granted a fresh one or refused.
pub claim_from-Fresh :
    (seen : Session) (now holder token : ℕ) (hint engine : Option ℕ) (s : Session)
    → held_by holder seen.leases ≡ none
    → Fresh holder token s (claim_from seen now holder token hint engine s)
unfolding claim_from
claim_from-Fresh seen now holder token hint engine s new =
    elim (Bool-cases (is_over seen.run.fleet_state || is_terminal seen.run.state)) [
      | inl over ↦ rw over tt
      | inr accepting ↦ rw accepting (
          rw (new, claim_from)
            (elim (List-cases (claimable engine seen.leases)) [
              | inl nothing ↦ rw (nothing, claim_from) tt
              | inr (c, cs, e) ↦
                  rw (e, claim_from) (take_first-Fresh now holder token (in_order hint (c ∷ cs)) s)
            ]))
    ]

same-eq : (o : Option ℕ) (j : ℕ) → same o j ≡ true → o ≡ some j
same-eq o j h = ground arith

and_left : (a b : Bool) → (a && b) ≡ true → a ≡ true
and_left a b h = ground arith

and_right : (a b : Bool) → (a && b) ≡ true → b ≡ true
and_right a b h = ground arith

find-Distinct_ne :
    (k : ℕ) (ls : List WorkerLease) (l : WorkerLease)
    → All (λ m. m.slot ≢ k) ls
    → find k ls ≡ some l
    → ⊥
unfolding find
find-Distinct_ne k [] l a e = cc
find-Distinct_ne k (m ∷ ls) l a e = find-Distinct_ne k ls l a.1 (rw (ne→== _ _ a.0) at e)

-- The lease that `held_by` finds is live, held, and the row of its slot.
held_by-find :
    (holder : ℕ) (ls : List WorkerLease) (l : WorkerLease)
    → Distinct ls
    → held_by holder ls ≡ some l
    → (find l.slot ls ≡ some l) × (is_live l.state ≡ true) × (l.holder ≡ some holder)
unfolding held_by find
held_by-find holder [] l d e = cc
held_by-find holder (m ∷ ls) l d e = elim (Bool-cases (same m.holder holder && is_live m.state)) [
  | inl mine ↦
      let same_row : m ≡ l = some-eq (rw mine at e) in
      subst
        (λ r. (find r.slot (m ∷ ls) ≡ some r) × (is_live r.state ≡ true) × (r.holder ≡ some holder))
        same_row
        (
          rw ((==_iff m.slot m.slot).1 refl) refl,
          and_right _ _ mine,
          same-eq m.holder holder (and_left _ _ mine),
        )
  | inr other ↦
      let (f, v, h) = held_by-find holder ls l d.1 (rw other at e) in
      let apart =
        ne→== m.slot l.slot (λ q. find-Distinct_ne m.slot ls l d.0 (ap (λ i. find i ls) q ∙ f)) in
      (rw apart f, v, h)
]

-- What a granted claim leaves, fresh or repeated: the row is live in the store; and it was free or
-- lost, or the claimant's own.
abbrev Took : ℕ → Session → Claim × Session → Type 0
Took holder s (refused r, s') = Unit
Took holder s (granted row, s') =
    (now_row : WorkerLease) × (old : WorkerLease) × (find row.slot s'.leases ≡ some now_row)
    × (is_live now_row.state ≡ true)
    × (find row.slot s.leases ≡ some old)
    × ((is_claimable old.state ≡ true) ⊎ (old.holder ≡ some holder))
    × ((is_claimable old.state ≡ true) ⊎ (is_live old.state ≡ true))

Fresh-Took :
    (holder token : ℕ) (s : Session) (r : Claim × Session)
    → Fresh holder token s r
    → Took holder s r
Fresh-Took holder token s (refused x, s') h = tt
Fresh-Took holder token s (granted row, s') (f, c, i, o, old, e, free) =
    (row, old, f, ground arith, e, inl free, inl free)

-- A claim that saw the store as it is.
claim-Took :
    (now holder token : ℕ) (hint engine : Option ℕ) (s : Session)
    → Distinct s.leases
    → Took holder s (claim_from s now holder token hint engine s)
unfolding claim_from
claim-Took now holder token hint engine s d = elim (Option-cases (held_by holder s.leases)) [
  | inl new ↦ Fresh-Took holder token s _ (claim_from-Fresh s now holder token hint engine s new)
  | inr (mine, e) ↦ elim (Bool-cases (is_over s.run.fleet_state || is_terminal s.run.state)) [
    | inl over ↦ rw over tt
    | inr accepting ↦
        let (f, v, h) = held_by-find holder s.leases mine d e in
        let stamp : WorkerLease → WorkerLease = λ l. record l { last_heartbeat_at = some now } in
        rw accepting (
          rw (e, claim_from)
            (
              stamp mine,
              mine,
              find-update_self mine.slot stamp s.leases mine f refl,
              v,
              f,
              inr h,
              inr v,
            ))
  ]
]

live_not_claimable : (state : LeaseState) → is_live state ≡ true → is_claimable state ≡ true → ⊥
live_not_claimable state v c = ground arith

-- A repeated claim is answered with the lease that is held.
abbrev Held : WorkerLease → Claim × Session → Type 0
Held mine (refused r, s') = Unit
Held mine (granted row, s') = row ≡ mine

claim_from-Held :
    (seen : Session) (mine : WorkerLease) (now holder token : ℕ) (hint engine : Option ℕ)
    (s : Session)
    → held_by holder seen.leases ≡ some mine
    → Held mine (claim_from seen now holder token hint engine s)
unfolding claim_from
claim_from-Held seen mine now holder token hint engine s e =
    elim (Bool-cases (is_over seen.run.fleet_state || is_terminal seen.run.state)) [
      | inl over ↦ rw over tt
      | inr accepting ↦ rw accepting (rw (e, claim_from) refl)
    ]

-- Two workers that claim at the same instant, both having read the leases `s` before either wrote,
-- are never granted the same slot.
pub claim_from-exclusive :
    (s : Session) (now1 holder1 token1 now2 holder2 token2 : ℕ)
    (hint1 engine1 hint2 engine2 : Option ℕ) {row1 row2 : WorkerLease} {s1 s2 : Session}
    → Distinct s.leases
    → holder1 ≢ holder2
    → claim_from s now1 holder1 token1 hint1 engine1 s ≡ (granted row1, s1)
    → claim_from s now2 holder2 token2 hint2 engine2 s1 ≡ (granted row2, s2)
    → row1.slot ≢ row2.slot
claim_from-exclusive s now1 holder1 token1 now2 holder2 token2 hint1 engine1 hint2 engine2 {row1}
      {row2} {s1} {s2} d n e1 e2 q =
    let (r, o, fr, v, fo, own, was) =
      subst (Took holder1 s) e1 (claim-Took now1 holder1 token1 hint1 engine1 s d) in
    elim (Option-cases (held_by holder2 s.leases)) [
      | inl new ↦
          let (f, c, i, h, old, fold, free) =
            subst (Fresh holder2 token2 s1) e2
              (claim_from-Fresh s now2 holder2 token2 hint2 engine2 s1 new) in
          let clash : r ≡ old = some-eq (sym fr ∙ ap (λ i. find i s1.leases) q ∙ fold) in
          live_not_claimable old.state (ap (λ x. is_live x.state) (sym clash) ∙ v) free
      | inr (mine, e) ↦
          let again =
            subst (Held mine) e2 (claim_from-Held s mine now2 holder2 token2 hint2 engine2 s1 e) in
          let (f, live, h) = held_by-find holder2 s.leases mine d e in
          let slots = q ∙ ap (λ x. x.slot) again in
          let clash : o ≡ mine = some-eq (sym fo ∙ ap (λ i. find i s.leases) slots ∙ f) in
          elim own [
            | inl free ↦ live_not_claimable o.state (ap (λ x. is_live x.state) clash ∙ live) free
            | inr theirs ↦ n (some-eq (sym theirs ∙ ap (λ x. x.holder) clash ∙ h))
          ]
    ]
