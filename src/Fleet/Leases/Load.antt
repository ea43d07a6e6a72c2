-- ===== src/Fleet/Leases/Load.antt =====
-- A live load change: `slot_load` deals the whole of a closed population over the group's slots.
use regulator.Prelude.{
  ℕ, zero, suc, ◌+◌, ◌≤◌, ◌<◌, ◌≡◌, ◌≢◌, refl, ap, ◌∙◌, sym, true, false, Option, some, List, [],
  ◌∷◌, arith, ◌==◌, ==_iff, ne→==, length, sum, map, All,
}
use regulator.Fleet.Plan.{closed, split_evenly}
use regulator.Fleet.Plan.Split.{split_evenly_lem}
use regulator.Fleet.Leases.{WorkerLease, Session}
use regulator.Fleet.Leases.Handlers.{
  SlotLoad, users, slot_load, group_of, index_of, nth, drop_first,
}
use regulator.Fleet.Leases.Claims.{Distinct}

abbrev pub users_of : Option SlotLoad → ℕ
users_of (some (users n)) = n
users_of _ = 0

nth-drop_first :
    (i : ℕ) (xs : List ℕ)
    → i < length xs
    → nth i xs + sum (drop_first (suc i) xs) ≡ sum (drop_first i xs)
unfolding nth drop_first
nth-drop_first i [] h = absurd (omega arith)
nth-drop_first zero (x ∷ xs) h = refl
nth-drop_first (suc i) (x ∷ xs) h = nth-drop_first i xs (omega arith)

drop_none : (xs : List ℕ) → drop_first 0 xs ≡ xs
unfolding drop_first
drop_none xs = refl

drop_first_all : (i : ℕ) (xs : List ℕ) → length xs ≤ i → sum (drop_first i xs) ≡ 0
unfolding drop_first
drop_first_all zero [] h = refl
drop_first_all zero (x ∷ xs) h = absurd (omega arith)
drop_first_all (suc i) [] h = refl
drop_first_all (suc i) (x ∷ xs) h = drop_first_all i xs (omega arith)

abbrev pub share_at : List ℕ → ℕ → List WorkerLease → WorkerLease → ℕ
share_at shares i peers l = nth (index_of l.slot i peers) shares

abbrev Apart : WorkerLease → List WorkerLease → Type 0
Apart m = All (λ l. l.slot ≢ m.slot)

-- The head's slot is none of the rest's, so the rest is counted from the next position.
skip_head :
    (shares : List ℕ) (i : ℕ) (m : WorkerLease) (peers ls : List WorkerLease)
    → Apart m ls
    → map (share_at shares i (m ∷ peers)) ls ≡ map (share_at shares (suc i) peers) ls
unfolding index_of
skip_head shares i m peers [] a = refl
skip_head shares i m peers (l ∷ ls) a =
    let apart : (m.slot == l.slot) ≡ false = ne→== _ _ (λ q. a.0 (sym q)) in
    rw (apart, skip_head shares i m peers ls a.1)

sum-share_at :
    (shares : List ℕ) (i : ℕ) (peers : List WorkerLease)
    → Distinct peers
    → length shares ≡ i + length peers
    → sum (map (share_at shares i peers) peers) ≡ sum (drop_first i shares)
unfolding index_of
sum-share_at shares i [] d e = sym (drop_first_all i shares (omega arith))
sum-share_at shares i (m ∷ peers) d e =
    let own : (m.slot == m.slot) ≡ true = (==_iff m.slot m.slot).1 refl in
    rw (own, skip_head shares i m peers peers d.0)
      (omega (arith, nth-drop_first i shares, sum-share_at shares (suc i) peers d.1 (omega arith)))

-- The leases of one group, all of the closed model.
abbrev pub IsClosedGroup : ℕ → List WorkerLease → Type 0
IsClosedGroup group = All (λ l. (l.group ≡ group) × (l.model ≡ closed))

slot_load-closed :
    (s : Session) (load : ℕ) (l : WorkerLease)
    → s.run.load_override ≡ some load
    → l.model ≡ closed
    → users_of (slot_load s l)
      ≡ share_at
          (split_evenly load (length (group_of l.group s.leases)))
          0
          (group_of l.group s.leases)
          l
unfolding slot_load
slot_load-closed s load l e m = rw (e, m, slot_load) refl

loads_of :
    (s : Session) (group load : ℕ) (ls : List WorkerLease)
    → s.run.load_override ≡ some load
    → IsClosedGroup group ls
    → map (λ l. users_of (slot_load s l)) ls
      ≡ map
          (share_at
            (split_evenly load (length (group_of group s.leases)))
            0
            (group_of group s.leases))
          ls
loads_of s group load [] e c = refl
loads_of s group load (l ∷ ls) e c =
    let shares : ℕ → ℕ =
      λ g. share_at (split_evenly load (length (group_of g s.leases))) 0 (group_of g s.leases) l in
    let own : users_of (slot_load s l) ≡ shares group =
      slot_load-closed s load l e c.0.1 ∙ ap shares c.0.0 in
    cc (own, loads_of s group load ls e c.1)

-- The users that the slots of a closed group are told to run, after a live change of the load, add
-- up to the new load.
pub sum-slot_load :
    (s : Session) (group load : ℕ)
    → s.run.load_override ≡ some load
    → 0 < length (group_of group s.leases)
    → Distinct (group_of group s.leases)
    → IsClosedGroup group (group_of group s.leases)
    → sum (map (λ l. users_of (slot_load s l)) (group_of group s.leases)) ≡ load
sum-slot_load s group load e pos d c =
    let peers = group_of group s.leases in
    let (long, whole, near) = split_evenly_lem load (length peers) pos in
    ap sum (loads_of s group load peers e c)
    ∙ sum-share_at (split_evenly load (length peers)) 0 peers d (omega arith)
    ∙ ap sum (drop_none (split_evenly load (length peers)))
    ∙ whole
