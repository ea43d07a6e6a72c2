-- ===== src/Worker/Backoff.antt =====
-- `_post_with_backoff` ends: the dead-man bounds its attempts.
use Prim.Native.Nat.{min}
use mathlib.Core.Path.{subst}
use regulator.Prelude.{
  ℕ, zero, suc, ◌+◌, ◌*◌, ◌/◌, ◌^◌, ◌≤◌, ◌<◌, ◌≡◌, refl, arith, some, leb, Bool-cases, inl, inr,
  leb→lt, leb→le, ◌⊎◌,
}
use native.Mathlib.Nat.{le-div_iff_mul-le, mul-le-mul}
use native.Mathlib.Decide.{dec_lt}
use regulator.Histogram.Layout.{two_pow-pos}
use regulator.Worker.{Answer, Posted, answered, fenced, failed}
use regulator.Worker.Client.{
  Attempt, Ended, replied, was_fenced, gave_up, delay, backoff_from, post_with_backoff, enough,
}

half_factor : (m j : ℕ) → 500 ≤ m → 500 ≤ j → 250 ≤ m * j / 1000
half_factor m j h k =
    let product : 500 * 500 ≤ m * j = mul-le-mul h k in
    (le-div_iff_mul-le {k = 1000} {x = 250} {y = m * j} (omega arith)).1 (omega (arith, product))

-- With a random factor of at least a half a delay is a quarter of a second or more.
delay-ge : (attempt jitter : ℕ) → 500 ≤ jitter → 250 ≤ delay attempt jitter
unfolding delay
delay-ge attempt jitter h =
    half_factor (min 20_000 (500 * 2 ^ attempt)) jitter (ground (arith, two_pow-pos attempt)) h

module _ (attempts : ℕ → Attempt) where
  -- The time from the start to the attempt `k`.
  unfoldable pub spent : ℕ → ℕ
  spent zero = 0
  spent (suc k) = spent k + (attempts k).took + delay k (attempts k).jitter

  -- All attempts before the `k`-th failed.
  abbrev pub HaveFailed : ℕ → Type 0
  HaveFailed k = (i : ℕ) → i < k → (attempts i).posted ≡ failed

  -- What an end means: the first attempt that did not fail was answered or fenced, or all failed until
  -- the dead-man's time was up.
  abbrev pub IsEnd : ℕ → Ended → Type 0
  IsEnd deadman (replied a) = (k : ℕ) × HaveFailed k × ((attempts k).posted ≡ answered a)
  IsEnd deadman was_fenced = (k : ℕ) × HaveFailed k × ((attempts k).posted ≡ fenced)
  IsEnd deadman gave_up = (k : ℕ) × HaveFailed (suc k) × (deadman ≤ spent k + (attempts k).took)

  HaveFailed-suc : (k : ℕ) → HaveFailed k → (attempts k).posted ≡ failed → HaveFailed (suc k)
  HaveFailed-suc k h e i lt = elim (dec_lt i k) [
    | yes below ↦ h i below
    | no not_below ↦ let same : i ≡ k = omega arith in rw same e
  ]

  Posted-cases : (p : Posted) → ((a : Answer) × (p ≡ answered a)) ⊎ ((p ≡ fenced) ⊎ (p ≡ failed))
  Posted-cases (answered a) = inl (a, refl)
  Posted-cases fenced = inr (inl refl)
  Posted-cases failed = inr (inr refl)

  module _ (deadman : ℕ) where
    abbrev Ends : ℕ → ℕ → Type 0
    Ends fuel k =
        (r : Ended) × (backoff_from fuel deadman attempts k (spent k) ≡ some r) × IsEnd deadman r

    -- One attempt, with what a retry after it comes to.
    attempt-Ends :
        (fuel k : ℕ)
        → HaveFailed k
        → ((attempts k).posted ≡ failed → spent k + (attempts k).took < deadman → Ends fuel (suc k))
        → Ends (suc fuel) k
    unfolding backoff_from spent
    attempt-Ends fuel k h more = elim (Posted-cases (attempts k).posted) [
      | inl (a, e) ↦ (replied a, rw (e, backoff_from) refl, (k, h, e))
      | inr (inl e) ↦ (was_fenced, rw (e, backoff_from) refl, (k, h, e))
      | inr (inr e) ↦ elim (Bool-cases (leb deadman (spent k + (attempts k).took))) [
        | inl up ↦
            (gave_up, rw (e, up, backoff_from) refl, (k, HaveFailed-suc k h e, leb→le _ _ up))
        | inr left ↦
            let (r, e', end) = more e (leb→lt _ _ left) in (r, rw (e, left, backoff_from) e', end)
      ]
    ]

    backoff_from-Ends :
        (fuel k : ℕ)
        → ((i : ℕ) → 500 ≤ (attempts i).jitter)
        → deadman ≤ spent k + 250 * fuel
        → HaveFailed k
        → Ends (suc fuel) k
    unfolding spent
    backoff_from-Ends zero k jitters bound h = attempt-Ends 0 k h (λ e left. absurd (omega arith))
    backoff_from-Ends (suc fuel) k jitters bound h = attempt-Ends (suc fuel) k h λ e left.
        backoff_from-Ends fuel (suc k) jitters
          (omega (arith, delay-ge k (attempts k).jitter (jitters k))) (HaveFailed-suc k h e)

-- Whatever the network does, with random factors of at least a half the loop of `_post_with_backoff`
-- ends within one attempt for each quarter of a second of the dead-man's time and two more, and its end
-- is right: the first attempt that did not fail was answered so, or fenced, or all attempts failed until
-- the dead-man's time was up.
pub post_with_backoff-IsEnd :
    (deadman : ℕ) (attempts : ℕ → Attempt)
    → ((i : ℕ) → 500 ≤ (attempts i).jitter)
    → (r : Ended) × (post_with_backoff deadman attempts ≡ some r) × IsEnd attempts deadman r
unfolding post_with_backoff spent
post_with_backoff-IsEnd deadman attempts jitters =
    let count : suc (deadman / 250 + 1) ≡ enough deadman = omega arith in
    let bound : deadman ≤ spent attempts 0 + 250 * (deadman / 250 + 1) = omega arith in
    subst (λ n. Ends attempts deadman n 0) count
      (backoff_from-Ends attempts deadman (deadman / 250 + 1) 0 jitters bound
        (λ i lt. absurd (omega arith)))
