-- ===== src/Scheduling/Closed.antt =====
-- `_run_closed`: the population of virtual users that follows the ramp. A task is known by its user's
-- number; `target` is the rounded load. The lag of the loop and the guards, which a turn sees to as
-- well, touch none of this.
use Prim.Native.Nat.{max}
use regulator.Prelude.{
  ℕ, zero, suc, ◌*◌, Bool, List, [], ◌∷◌, ◌++◌, ◌==◌, ltb, any, if◌then◌else◌, length, max_of,
}

pub record Closed : Type 0 where
  pub next_vu_id : ℕ
  pub vu_tasks : List ℕ
  pub retiring : List ℕ
  pub peak_vus : ℕ

-- next_vu_id = slot * 1_000_000
unfoldable pub new_closed : ℕ → Closed
new_closed slot = record {
  next_vu_id = slot * 1_000_000;
  vu_tasks = [];
  retiring = [];
  peak_vus = 0;
}

unfoldable pub has : ℕ → List ℕ → Bool
has id ids = any (λ other. other == id) ids

-- list.remove and dict.pop(id, None): the first that is `id`
unfoldable pub remove : ℕ → List ℕ → List ℕ
remove id [] = []
remove id (other ∷ rest) = let kept = remove id rest in if other == id then rest else other ∷ kept

unfoldable pub start_user : Closed → Closed
start_user s = record s {
  next_vu_id = suc s.next_vu_id;
  vu_tasks = s.vu_tasks ++ (s.next_vu_id ∷ []);
}

-- The loop that grows the population, with at most `fuel` turns.
unfoldable pub grow : ℕ → ℕ → Closed → Closed
unfolding start_user
grow zero target s = s
grow (suc fuel) target s =
    let grown = grow fuel target (start_user s) in
    if ltb (length s.vu_tasks) target then grown else s

-- [vu for vu in self._vu_tasks if vu not in self._retiring]
unfoldable pub active_of : List ℕ → List ℕ → List ℕ
unfolding has
active_of retiring [] = []
active_of retiring (vu ∷ rest) =
    if has vu retiring then active_of retiring rest else vu ∷ active_of retiring rest

-- The loop that shrinks it: the active user with the largest number is asked to retire.
unfoldable pub shrink : ℕ → ℕ → List ℕ → List ℕ → List ℕ
unfolding remove max_of
shrink zero target active retiring = retiring
shrink (suc fuel) target active retiring =
    let shrunk = shrink fuel target (remove (max_of active) active) (max_of active ∷ retiring) in
    if ltb target (length active) then shrunk else retiring

unfoldable pub settle : ℕ → Closed → Closed
unfolding active_of shrink
settle target s =
    let active = active_of s.retiring s.vu_tasks in
    record s {
      peak_vus = max s.peak_vus (length s.vu_tasks);
      retiring = shrink (length active) target active s.retiring;
    }

-- One turn of the loop that is neither paused nor over.
unfoldable pub tick : ℕ → Closed → Closed
unfolding grow settle
tick target s = settle target (grow target target s)

pub data ClosedEvent : Type 0 where
  ticked : (target : ℕ) → ClosedEvent
  iterated ended : (vu : ℕ) → ClosedEvent

-- A turn; the end of an iteration, after which a user who was asked to retire is gone; the end of a
-- user's task for another reason.
unfoldable pub pass_by : ClosedEvent → Closed → Closed
unfolding tick has remove
pass_by (ticked target) s = tick target s
pass_by (iterated vu) s =
    if has vu s.retiring
    then record s { retiring = remove vu s.retiring; vu_tasks = remove vu s.vu_tasks }
    else s
pass_by (ended vu) s = record s { vu_tasks = remove vu s.vu_tasks }

unfoldable pub lived : List ClosedEvent → Closed → Closed
unfolding pass_by
lived [] s = s
lived (e ∷ rest) s = lived rest (pass_by e s)
