-- ===== src/Histogram/Percentile.antt =====
-- `percentile_us`: it depends on the samples alone, however they were merged, and it answers with a
-- value of the bucket that holds the percentile.
use mathlib.Core.List.{Perm}
use regulator.Prelude.{
  ℕ, zero, suc, ◌+◌, ◌*◌, ◌≤◌, ◌<◌, ◌≡◌, refl, inl, inr, arith, lt→ltb, le→ltb, Bool-cases,
  Option-cases, leb, ltb, List, [], ◌∷◌, ◌++◌, some, if◌then◌else◌, ◌==◌, length, ap, ◌∙◌, sym,
}
use regulator.Histogram.{LatencyHistogram, bucket_index, bucket_lower_bound, lower, higher, merge}
use regulator.Histogram.Reading.{summary, find_bucket, sorted, percentile_us, at_bucket, or_zero}
use regulator.Histogram.Rank.{
  rank, find_bucket-IsFirst, IsFirst, find_bucket-none, total-sorted, find_bucket-alike,
}
use regulator.Histogram.Record.{IsSketch, IsSketch-merge, count_le, least, greatest}
use regulator.Histogram.Order.{IsSketch-Perm}
use regulator.Histogram.Layout.{
  bucket_index-in_bucket, lower_bound-suc, lower_bound_mono, lower_bound_zero,
}

mul_pos : (a b : ℕ) → 0 < a → 0 < b → 0 < a * b
mul_pos zero b p q = absurd (omega arith)
mul_pos (suc a) b p q = grind arith

alike_percentile :
    (p : ℕ) (h g : LatencyHistogram)
    → ((k : ℕ) → rank k h.buckets ≡ rank k g.buckets)
    → h.count ≡ g.count
    → h.minimum ≡ g.minimum
    → h.maximum ≡ g.maximum
    → percentile_us p h ≡ percentile_us p g
unfolding percentile_us
alike_percentile p h g same counts low high = elim (Bool-cases (h.count == 0)) [
  | inl empty ↦ ground arith
  | inr some_h ↦ elim (Bool-cases (p == 0)) [
    | inl lowest ↦ ground arith
    | inr positive ↦
        let t = mul_pos p h.count (ground arith) (ground arith) in
        ground (arith, find_bucket-alike (p * h.count) h.buckets g.buckets same t)
  ]
]

-- Two sketches of the same samples give the same percentiles.
pub percentile_us-agree :
    (p : ℕ) (xs : List ℕ) (h g : LatencyHistogram)
    → IsSketch xs h
    → IsSketch xs g
    → percentile_us p h ≡ percentile_us p g
percentile_us-agree p xs h g s t =
    alike_percentile p h g (λ k. s.ranks k ∙ sym (t.ranks k)) (s.counted ∙ sym t.counted)
      (s.low ∙ sym t.low) (s.high ∙ sym t.high)

-- And the same figures throughout.
pub summary-agree :
    (xs : List ℕ) (h g : LatencyHistogram) → IsSketch xs h → IsSketch xs g → summary h ≡ summary g
unfolding summary
summary-agree xs h g s t =
    let low = s.low ∙ sym t.low in
    let high = s.high ∙ sym t.high in
    let agree = λ (p : ℕ). percentile_us-agree p xs h g s t in
    ground (arith, s.counted, t.counted, low, high, agree 50, agree 90, agree 95, agree 99)

-- Percentiles over a merge are those over the whole: if `h` and `g` are sketches of two batches of
-- samples and `w` is a sketch of all of them, recorded in any order, then merging `h` and `g` gives
-- every percentile that `w` gives.
pub percentile_us-merge :
    (p : ℕ) (xs ys zs : List ℕ) (h g w : LatencyHistogram)
    → IsSketch xs h
    → IsSketch ys g
    → IsSketch zs w
    → Perm (ys ++ xs) zs
    → percentile_us p (merge h g) ≡ percentile_us p w
percentile_us-merge p xs ys zs h g w sh sg sw perm =
    percentile_us-agree p zs (merge h g) w (IsSketch-Perm perm (IsSketch-merge xs ys h g sh sg)) sw

-- How many samples lie below `b`.
abbrev pub count_below : ℕ → List ℕ → ℕ
count_below b [] = 0
count_below b (x ∷ xs) = (if ltb x b then 1 else 0) + count_below b xs

-- The buckets up to `k` hold just the values below the next bucket.
index_le_below : (x k : ℕ) → leb (bucket_index x) k ≡ ltb x (bucket_lower_bound (suc k))
index_le_below x k = elim (Bool-cases (leb (bucket_index x) k)) [
  | inl inside ↦
      let up = lower_bound_mono (suc (bucket_index x)) (suc k) (ground arith) in
      let (_, high, _) = bucket_index-in_bucket x in
      inside ∙ sym (lt→ltb _ _ (omega (arith, lower_bound-suc (bucket_index x))))
  | inr outside ↦
      let up = lower_bound_mono (suc k) (bucket_index x) (ground arith) in
      let (low, _, _) = bucket_index-in_bucket x in outside ∙ sym (le→ltb _ _ (omega arith))
]

count_le-eq_below :
    (k : ℕ) (xs : List ℕ) → count_le k xs ≡ count_below (bucket_lower_bound (suc k)) xs
count_le-eq_below k [] = refl
count_le-eq_below k (x ∷ xs) = rw (index_le_below x k, count_le-eq_below k xs)

least_below :
    (b : ℕ) (xs : List ℕ)
    → 0 < count_below b xs
    → (least xs ≡ some (or_zero (least xs))) × (or_zero (least xs) < b)
unfolding least lower or_zero
least_below b [] h = absurd (omega arith)
least_below b (x ∷ xs) h = ground (arith, least_below b xs)

greatest_above :
    (b : ℕ) (xs : List ℕ)
    → count_below b xs < length xs
    → (greatest xs ≡ some (or_zero (greatest xs))) × (b ≤ or_zero (greatest xs))
unfolding greatest higher or_zero
greatest_above b [] h = absurd (omega arith)
greatest_above b (x ∷ xs) h = ground (arith, greatest_above b xs)

count_below-le : (b : ℕ) (xs : List ℕ) → count_below b xs ≤ length xs
count_below-le b [] = omega arith
count_below-le b (x ∷ xs) = ground (arith, count_below-le b xs)

count_below_zero : (xs : List ℕ) → count_below 0 xs ≡ 0
count_below_zero [] = refl
count_below_zero (x ∷ xs) = ground (arith, count_below_zero xs)

-- Fewer samples than the percentile asks for lie below its bucket.
first_before :
    (t k : ℕ) (xs : List ℕ) (h : LatencyHistogram)
    → 0 < t
    → IsSketch xs h
    → IsFirst t h.buckets k
    → 100 * count_below (bucket_lower_bound k) xs < t
first_before t zero xs h p s first = rw lower_bound_zero (omega (arith, count_below_zero xs))
first_before t (suc j) xs h p s first =
    omega (arith, first.before j (omega arith), s.ranks j, count_le-eq_below j xs)

at_bucket-bounds :
    (k m n : ℕ) (h : LatencyHistogram)
    → h.minimum ≡ some m
    → h.maximum ≡ some n
    → m < bucket_lower_bound (suc k)
    → bucket_lower_bound k ≤ n
    → (2 * bucket_lower_bound k ≤ at_bucket h (some k))
      × (at_bucket h (some k) < 2 * bucket_lower_bound (suc k))
unfolding at_bucket
at_bucket-bounds k m n h low high p q =
    rw (low, high) (ground (arith, lower_bound-suc k), ground (arith, lower_bound-suc k))

percentile_us-eq :
    (p : ℕ) (h : LatencyHistogram)
    → 0 < p
    → p < 100
    → 0 < h.count
    → percentile_us p h ≡ at_bucket h (find_bucket (p * h.count) 0 (sorted h.buckets))
unfolding percentile_us
percentile_us-eq p h p0 p1 c0 = ground arith

percent_lt : (p n : ℕ) → p < 100 → 0 < n → p * n < 100 * n
percent_lt p n h k = grind arith

-- For samples that are there and a percentile p strictly between 0 and 100 there is a bucket such
-- that at least p per cent of the samples lie below its end and fewer than p per cent lie below its
-- start, and the answer lies in this bucket: so it is off by less than the bucket's width.
pub percentile_us-in_bucket :
    (p : ℕ) (xs : List ℕ) (h : LatencyHistogram)
    → 0 < p
    → p < 100
    → 0 < length xs
    → IsSketch xs h
    → (k : ℕ) × (p * length xs ≤ 100 * count_below (bucket_lower_bound (suc k)) xs)
      × (100 * count_below (bucket_lower_bound k) xs < p * length xs)
      × (2 * bucket_lower_bound k ≤ percentile_us p h)
      × (percentile_us p h < 2 * bucket_lower_bound (suc k))
percentile_us-in_bucket p xs h p0 p1 n0 s =
    let c0 : 0 < h.count = omega (arith, s.counted) in
    let t = mul_pos p h.count p0 c0 in
    let same : p * h.count ≡ p * length xs = ap (λ (c : ℕ). p * c) s.counted in
    let part = percent_lt p (length xs) p1 n0 in
    elim (Option-cases (find_bucket (p * h.count) 0 (sorted h.buckets))) [
      | inl e ↦ absurd (
          omega (
            arith,
            find_bucket-none (p * h.count) 0 (sorted h.buckets) t e,
            total-sorted h.buckets,
            s.whole,
          ))
      | inr (k, e) ↦
          let first = find_bucket-IsFirst (p * h.count) k h.buckets t e in
          let before = first_before (p * h.count) k xs h t s first in
          let reached : p * h.count ≤ 100 * count_below (bucket_lower_bound (suc k)) xs =
            omega (arith, first.reached, s.ranks k, count_le-eq_below k xs) in
          let (low, below) = least_below (bucket_lower_bound (suc k)) xs (omega arith) in
          let (high, above) = greatest_above (bucket_lower_bound k) xs (omega arith) in
          let (at_least, under) =
            at_bucket-bounds k _ _ h (s.low ∙ low) (s.high ∙ high) below above in
          let answer = percentile_us-eq p h p0 p1 c0 ∙ ap (at_bucket h) e in
          (k, omega arith, omega arith, omega arith, omega arith)
    ]
