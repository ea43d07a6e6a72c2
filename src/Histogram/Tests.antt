-- ===== src/Histogram/Tests.antt =====
-- Runs of the histogram at small inputs, and the theorems at concrete data.
use mathlib.Core.List.{Perm}
use mathlib.Core.List.Perm
use regulator.Prelude.{◌⊎◌, ℕ, suc, ◌*◌, ◌+◌, ◌≤◌, ◌<◌, ◌≡◌, refl, arith, List, [], ◌∷◌, map}
use regulator.Histogram.{
  LatencyHistogram, empty, bucket_index, bucket_lower_bound, bucket_width, record_us, merge,
}
use regulator.Histogram.Reading.{percentile_us}
use regulator.Histogram.Document.{parsed, to_dict, from_dict, merge_dicts}
use regulator.Histogram.Layout.{bucket_index-in_bucket}
use regulator.Histogram.Record.{IsSketch, IsSketch-empty, IsSketch-record_us}
use regulator.Histogram.Percentile.{percentile_us-merge, percentile_us-in_bucket, count_below}
use regulator.Histogram.Wire.{from_dict-to_dict, merge_dicts-to_dict, gather}

bucket_index_values :
    (bucket_index 63 ≡ 63)
    × (bucket_index 64 ≡ 64)
    × (bucket_index 129 ≡ 128)
    × (bucket_index 5_000_000 ≡ 1100)
unfolding bucket_index
bucket_index_values = (refl, refl, refl, refl)

abbrev fast : LatencyHistogram
fast = record_us 900 1 (record_us 5 3 empty)

abbrev slow : LatencyHistogram
slow = record_us 70_000 1 empty

fast-IsSketch : IsSketch (900 ∷ 5 ∷ 5 ∷ 5 ∷ []) fast
fast-IsSketch =
    IsSketch-record_us 900 1 (5 ∷ 5 ∷ 5 ∷ []) (record_us 5 3 empty)
      (IsSketch-record_us 5 3 [] empty IsSketch-empty)

slow-IsSketch : IsSketch (70_000 ∷ []) slow
slow-IsSketch = IsSketch-record_us 70_000 1 [] empty IsSketch-empty

percentiles :
    (percentile_us 50 (merge fast slow) ≡ 10)
    × (percentile_us 80 (merge fast slow) ≡ 1799)
    × (percentile_us 99 (merge fast slow) ≡ 140_000)
    × (percentile_us 95 empty ≡ 0)
unfolding record_us merge percentile_us
percentiles = (refl, refl, refl, refl)

bucket_index-in_bucket_example :
    (bucket_lower_bound (bucket_index 5_000_000) ≤ 5_000_000)
    × (5_000_000
        < bucket_lower_bound (bucket_index 5_000_000) + bucket_width (bucket_index 5_000_000))
    × ((bucket_width (bucket_index 5_000_000) ≡ 1)
        ⊎ (64 * bucket_width (bucket_index 5_000_000) ≤ 5_000_000))
bucket_index-in_bucket_example = bucket_index-in_bucket 5_000_000

-- The same samples, in another order.
abbrev whole : LatencyHistogram
whole = record_us 900 1 (record_us 70_000 1 (record_us 5 3 empty))

whole-IsSketch : IsSketch (900 ∷ 70_000 ∷ 5 ∷ 5 ∷ 5 ∷ []) whole
whole-IsSketch =
    IsSketch-record_us 900 1 (70_000 ∷ 5 ∷ 5 ∷ 5 ∷ []) (record_us 70_000 1 (record_us 5 3 empty)) (
      IsSketch-record_us 70_000 1 (5 ∷ 5 ∷ 5 ∷ []) (record_us 5 3 empty)
        (IsSketch-record_us 5 3 [] empty IsSketch-empty))

reordered : Perm {A = ℕ} (70_000 ∷ 900 ∷ 5 ∷ 5 ∷ 5 ∷ []) (900 ∷ 70_000 ∷ 5 ∷ 5 ∷ 5 ∷ [])
reordered = Perm.swap _ _ _

percentile_us-merge_example : percentile_us 80 (merge fast slow) ≡ percentile_us 80 whole
percentile_us-merge_example =
    percentile_us-merge 80 (900 ∷ 5 ∷ 5 ∷ 5 ∷ []) (70_000 ∷ []) (900 ∷ 70_000 ∷ 5 ∷ 5 ∷ 5 ∷ []) fast
      slow whole fast-IsSketch slow-IsSketch whole-IsSketch reordered

percentile_us-in_bucket_example :
    (k : ℕ) × (80 * 4 ≤ 100 * count_below (bucket_lower_bound (suc k)) (900 ∷ 5 ∷ 5 ∷ 5 ∷ []))
    × (100 * count_below (bucket_lower_bound k) (900 ∷ 5 ∷ 5 ∷ 5 ∷ []) < 80 * 4)
    × (2 * bucket_lower_bound k ≤ percentile_us 80 fast)
    × (percentile_us 80 fast < 2 * bucket_lower_bound (suc k))
percentile_us-in_bucket_example =
    percentile_us-in_bucket 80 (900 ∷ 5 ∷ 5 ∷ 5 ∷ []) fast (omega arith) (omega arith) (omega arith)
      fast-IsSketch

abbrev batches : List (List ℕ)
batches = (900 ∷ 5 ∷ 5 ∷ 5 ∷ []) ∷ (70_000 ∷ []) ∷ []

from_dict-to_dict_example :
    (g : LatencyHistogram) × (from_dict (to_dict fast) ≡ parsed g)
    × IsSketch (900 ∷ 5 ∷ 5 ∷ 5 ∷ []) g
from_dict-to_dict_example = from_dict-to_dict (900 ∷ 5 ∷ 5 ∷ 5 ∷ []) fast fast-IsSketch

merge_dicts-to_dict_example :
    (g : LatencyHistogram) × (merge_dicts (map to_dict (fast ∷ slow ∷ [])) ≡ parsed g)
    × IsSketch (gather [] batches) g
merge_dicts-to_dict_example =
    merge_dicts-to_dict batches (fast ∷ slow ∷ []) (fast-IsSketch, (slow-IsSketch, tt))
