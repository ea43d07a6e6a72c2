-- ===== src/Histogram/Reading.antt =====
-- How a histogram is read: `percentile_us` and `summary`.
use Prim.Native.Nat.{min, max}
use regulator.Prelude.{ℕ, ◌+◌, ◌*◌, Option, none, some, [], ◌∷◌, leb, ◌==◌, if◌then◌else◌}
use regulator.Histogram.{Buckets, LatencyHistogram, bucket_midpoint}

-- sorted(self._buckets.items()): the keys of a dictionary differ, so they alone decide the order.
unfoldable pub insert_sorted : ℕ → ℕ → Buckets → Buckets
insert_sorted i c [] = (i, c) ∷ []
insert_sorted i c ((j, d) ∷ rest) =
    if leb i j then (i, c) ∷ (j, d) ∷ rest else (j, d) ∷ insert_sorted i c rest

unfoldable pub sorted : Buckets → Buckets
unfolding insert_sorted
sorted [] = []
sorted ((i, c) ∷ rest) = insert_sorted i c (sorted rest)

-- The loop of `percentile_us`: the first bucket at which `seen` reaches p / 100 of the count. Both
-- sides are multiplied by 100.
unfoldable pub find_bucket : ℕ → ℕ → Buckets → Option ℕ
find_bucket target seen [] = none
find_bucket target seen ((i, c) ∷ rest) =
    if leb target (100 * (seen + c)) then some i else find_bucket target (seen + c) rest

unfoldable pub or_zero : Option ℕ → ℕ
or_zero none = 0
or_zero (some m) = m

-- `max(value, float(self._min))`, in half microseconds.
unfoldable pub raise_to : Option ℕ → ℕ → ℕ
raise_to none value = value
raise_to (some m) value = max value (2 * m)

unfoldable pub cut_to : Option ℕ → ℕ → ℕ
cut_to none value = value
cut_to (some m) value = min value (2 * m)

unfoldable pub at_bucket : LatencyHistogram → Option ℕ → ℕ
unfolding or_zero raise_to cut_to bucket_midpoint
at_bucket h none = 2 * or_zero h.maximum
at_bucket h (some i) = cut_to h.maximum (raise_to h.minimum (bucket_midpoint i))

unfoldable pub percentile_us : ℕ → LatencyHistogram → ℕ
unfolding or_zero sorted find_bucket at_bucket
percentile_us p h =
    if h.count == 0
    then 0
    else if p == 0
    then 2 * or_zero h.minimum
    else if leb 100 p
    then 2 * or_zero h.maximum
    else at_bucket h (find_bucket (p * h.count) 0 (sorted h.buckets))

-- `summary`, in half microseconds and without the rounding to three places. The mean is left out.
pub record Summary : Type 0 where
  pub count : ℕ
  pub low : Option ℕ
  pub p50 : Option ℕ
  pub p90 : Option ℕ
  pub p95 : Option ℕ
  pub p99 : Option ℕ
  pub high : Option ℕ

unfoldable pub summary : LatencyHistogram → Summary
unfolding percentile_us
summary h =
    if h.count == 0
    then record {
      count = 0;
      low = none;
      p50 = none;
      p90 = none;
      p95 = none;
      p99 = none;
      high = none;
    }
    else record {
      count = h.count;
      low = some (2 * or_zero h.minimum);
      p50 = some (percentile_us 50 h);
      p90 = some (percentile_us 90 h);
      p95 = some (percentile_us 95 h);
      p99 = some (percentile_us 99 h);
      high = some (2 * or_zero h.maximum);
    }
