-- ===== src/Fleet/Plan/Split.antt =====
-- `_split_evenly` deals the whole load, as evenly as whole numbers allow.
use Prim.Native.Nat.{min}
use regulator.Prelude.{
  ℕ, zero, suc, ◌+◌, ◌-◌, ◌*◌, ◌/◌, ◌%◌, ◌≤◌, ◌<◌, ◌≡◌, refl, ap, arith, length, sum, All,
}
use native.Mathlib.Nat.{div-add-mod, mod-lt}
use regulator.Fleet.Plan.{split_from, split_evenly}

length-split_from : (b r i n : ℕ) → length (split_from b r i n) ≡ n
unfolding split_from
length-split_from b r i zero = refl
length-split_from b r i (suc n) = ap suc (length-split_from b r (suc i) n)

pub length-split_evenly : (total workers : ℕ) → length (split_evenly total workers) ≡ workers
unfolding split_evenly
length-split_evenly total workers = length-split_from (total / workers) (total % workers) 0 workers

sum-split_from : (b r i n : ℕ) → sum (split_from b r i n) ≡ n * b + min (r - i) n
unfolding split_from
sum-split_from b r i zero = omega arith
sum-split_from b r i (suc n) = ground (arith, sum-split_from b r (suc i) n)

abbrev Near : ℕ → ℕ → Type 0
Near b n = (b ≤ n) × (n ≤ b + 1)

split_from-Near : (b r i n : ℕ) → All (Near b) (split_from b r i n)
unfolding split_from
split_from-Near b r i zero = tt
split_from-Near b r i (suc n) = (ground arith, split_from-Near b r (suc i) n)

-- For at least one worker `_split_evenly` gives each worker a share, the shares add up to the total,
-- and each is the quotient or one more.
pub split_evenly_lem :
    (total workers : ℕ)
    → 0 < workers
    → (length (split_evenly total workers) ≡ workers)
      × (sum (split_evenly total workers) ≡ total)
      × All (λ n. (total / workers ≤ n) × (n ≤ total / workers + 1)) (split_evenly total workers)
unfolding split_evenly
split_evenly_lem total workers h = (
  length-split_from (total / workers) (total % workers) 0 workers,
  omega (
    arith,
    sum-split_from (total / workers) (total % workers) 0 workers,
    div-add-mod total workers,
    mod-lt total h,
  ),
  split_from-Near (total / workers) (total % workers) 0 workers,
)
