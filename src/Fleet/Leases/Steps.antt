-- ===== src/Fleet/Leases/Steps.antt =====
-- Every request handler keeps the fleet's slots, a T0 once set, and a finished worker's summary.
use regulator.Prelude.{
  ℕ, ◌≡◌, refl, ap, ◌∙◌, false, ◌&&◌, ◌||◌, Option, none, some, List, [], ◌∷◌, arith, ◌==◌, inl,
  inr, Bool-cases, Option-cases, List-cases,
}
use regulator.Fleet.Leases.{
  LeaseState, Interval, WorkerLease, Session, is_claimable, is_done, is_terminal, is_over,
  is_ready_state, find, update, write, holder_ok,
}
use regulator.Fleet.Leases.Store.{
  Follows, Follows-refl, Follows-trans, write-Follows, evaluate_release-Follows, find-slot,
}
use regulator.Fleet.Leases.Handlers.{
  claimable, held_by, taken, take_first, in_order, claim_from, readied, ready_accepted, mark_ready,
  absorb, released, is_other, final,
}

update-none :
    (k : ℕ) (f : WorkerLease → WorkerLease) (ls : List WorkerLease)
    → find k ls ≡ none
    → update k f ls ≡ ls
unfolding find update
update-none k f [] e = refl
update-none k f (m ∷ ls) e = elim (Bool-cases (m.slot == k)) [
  | inl here ↦ let bad : some m ≡ none = rw here at e in cc
  | inr there ↦ rw there (ap (λ r. m ∷ r) (update-none k f ls (rw there at e)))
]

pub find-own :
    (k : ℕ) (ls : List WorkerLease) (l : WorkerLease) → find k ls ≡ some l → find l.slot ls ≡ some l
find-own k ls l e = ap (λ i. find i ls) (find-slot k ls l e) ∙ e

-- A write that every row survives, whether the slot is there or not.
stamp-Follows :
    (k now : ℕ) (s : Session)
    → Follows s (write k (λ l. record l { last_heartbeat_at = some now }) s)
stamp-Follows k now s = elim (Option-cases (find k s.leases)) [
  | inl absent ↦ rw (update-none k _ s.leases absent) (Follows-refl s)
  | inr (row, e) ↦ write-Follows k _ row s e refl (λ d. (d, refl))
]

take_first-Follows :
    (now holder token : ℕ) (cs : List WorkerLease) (s : Session)
    → Follows s (take_first now holder token cs s).1
unfolding take_first
take_first-Follows now holder token [] s = Follows-refl s
take_first-Follows now holder token (c ∷ cs) s = elim (Option-cases (find c.slot s.leases)) [
  | inl absent ↦ rw (absent, take_first) (take_first-Follows now holder token cs s)
  | inr (row, e) ↦ elim (Bool-cases (is_claimable row.state)) [
    | inl free ↦
        rw (e, take_first)
          (rw free
            (write-Follows c.slot (taken now holder token c) row s e refl (λ d. ground arith)))
    | inr held ↦ rw (e, take_first) (rw held (take_first-Follows now holder token cs s))
  ]
]

pub claim_from-Follows :
    (seen : Session) (now holder token : ℕ) (hint engine : Option ℕ) (s : Session)
    → Follows s (claim_from seen now holder token hint engine s).1
unfolding claim_from
claim_from-Follows seen now holder token hint engine s =
    elim (Bool-cases (is_over seen.run.fleet_state || is_terminal seen.run.state)) [
      | inl over ↦ rw over (Follows-refl s)
      | inr accepting ↦ rw accepting (elim (Option-cases (held_by holder seen.leases)) [
        | inl new ↦
            rw (new, claim_from)
              (elim (List-cases (claimable engine seen.leases)) [
                | inl nothing ↦ rw (nothing, claim_from) (Follows-refl s)
                | inr (c, cs, e) ↦
                    rw (e, claim_from)
                      (take_first-Follows now holder token (in_order hint (c ∷ cs)) s)
              ])
        | inr (mine, e) ↦ rw (e, claim_from) (stamp-Follows mine.slot now s)
      ])
    ]

ready_accepted-Follows :
    (now delay : ℕ) (lease : WorkerLease) (s : Session)
    → find lease.slot s.leases ≡ some lease
    → Follows s (ready_accepted now delay lease s)
unfolding ready_accepted
ready_accepted-Follows now delay lease s e =
    Follows-trans
      (write-Follows lease.slot
        (λ l. record l { last_heartbeat_at = some now; state = readied lease.state }) lease s e refl
        (λ d. (rw d, refl)))
      (evaluate_release-Follows false now delay _)

pub mark_ready-Follows :
    (now delay slot : ℕ) (lease_id : Option ℕ) (s : Session)
    → Follows s (mark_ready now delay slot lease_id s).1
unfolding mark_ready
mark_ready-Follows now delay slot lease_id s = elim (Option-cases (find slot s.leases)) [
  | inl absent ↦ rw (absent, mark_ready) (Follows-refl s)
  | inr (lease, e) ↦
      rw (e, mark_ready)
        (elim (Bool-cases (holder_ok lease lease_id)) [
          | inl holds ↦
              rw holds (ready_accepted-Follows now delay lease s (find-own slot s.leases lease e))
          | inr stale ↦ rw stale (Follows-refl s)
        ])
]

pub absorb-Follows :
    (slot : ℕ) (interval : Option Interval) (s : Session) → Follows s (absorb slot interval s)
unfolding absorb
absorb-Follows slot none s = Follows-refl s
absorb-Follows slot (some interval) s =
    elim (Bool-cases (interval.has_executions && s.supervised)) [
      | inl kept ↦
          rw kept
            (record { slots = refl; t0_kept = λ t e. e; done_kept = λ k l e d. (l, e, d, refl) })
      | inr ignored ↦ rw ignored (Follows-refl s)
    ]

pub absorb-leases :
    (slot : ℕ) (interval : Option Interval) (s : Session)
    → (absorb slot interval s).leases ≡ s.leases
unfolding absorb
absorb-leases slot interval s = ground arith

pub released-Follows :
    (now delay : ℕ) (state : LeaseState) (s : Session) → Follows s (released now delay state s)
unfolding released
released-Follows now delay state s = elim (Bool-cases (is_ready_state state)) [
  | inl goes ↦ rw goes (evaluate_release-Follows false now delay s)
  | inr stays ↦ rw stays (Follows-refl s)
]

pub final-Follows :
    (now slot : ℕ) (lease_id : Option ℕ) (summary : ℕ) (log_tail : List ℕ) (s : Session)
    → Follows s (final now slot lease_id summary log_tail s)
unfolding final
final-Follows now slot lease_id summary log_tail s = elim (Option-cases (find slot s.leases)) [
  | inl absent ↦ rw (absent, final) (Follows-refl s)
  | inr (lease, e) ↦
      rw (e, final)
        (elim (Bool-cases (is_other lease.lease_id lease_id)) [
          | inl other ↦ rw other (Follows-refl s)
          | inr mine ↦ rw mine (elim (Bool-cases (is_done lease.state)) [
            | inl over ↦ rw over (Follows-refl s)
            | inr going ↦ rw going (write-Follows slot _ lease s e refl (λ d. ground arith))
          ])
        ])
]

take_first-run :
    (now holder token : ℕ) (cs : List WorkerLease) (s : Session)
    → (take_first now holder token cs s).1.run ≡ s.run
unfolding take_first
take_first-run now holder token [] s = refl
take_first-run now holder token (c ∷ cs) s = ground (arith, take_first-run now holder token cs s)

pub claim_from-run :
    (seen : Session) (now holder token : ℕ) (hint engine : Option ℕ) (s : Session)
    → (claim_from seen now holder token hint engine s).1.run ≡ s.run
unfolding claim_from
claim_from-run seen now holder token hint engine s =
    elim (List-cases (claimable engine seen.leases)) [
      | inl nothing ↦ ground arith
      | inr (c, cs, e) ↦ ground (arith, take_first-run now holder token (in_order hint (c ∷ cs)) s)
    ]

pub final-run :
    (now slot : ℕ) (lease_id : Option ℕ) (summary : ℕ) (log_tail : List ℕ) (s : Session)
    → (final now slot lease_id summary log_tail s).run ≡ s.run
unfolding final
final-run now slot lease_id summary log_tail s = ground arith
