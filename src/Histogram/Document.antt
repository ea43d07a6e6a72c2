-- ===== src/Histogram/Document.antt =====
-- The wire form of a histogram: `to_dict`, `from_dict` and `merge_dicts`.
use regulator.Prelude.{ℕ, Bool, true, false, Option, none, some, List, [], ◌∷◌, ◌==◌, if◌then◌else◌}
use regulator.Histogram.{Buckets, LatencyHistogram, empty, merge, sub_bits, schema_version}
use regulator.Histogram.Reading.{sorted, or_zero}

-- The document of `to_dict`; a key that is missing is `none`. The texts of the bucket keys are read
-- back by `int`, and are the numbers here.
pub record Document : Type 0 where
  pub v : Option ℕ
  pub bits : Option ℕ
  pub count : Option ℕ
  pub total : Option ℕ
  pub minimum : Option ℕ
  pub maximum : Option ℕ
  pub items : Option Buckets

-- The last is a value that int(), float() or dict() refuses.
pub data Parsed (A : Type 0) : Type 0 where
  parsed : A → Parsed A
  wrong_version : Parsed A
  wrong_layout : Parsed A
  wrong_value : Parsed A

-- An exception ends the call.
abbrev pub and_then : {A B : Type 0} → Parsed A → (A → Parsed B) → Parsed B
and_then (parsed a) f = f a
and_then wrong_version f = wrong_version
and_then wrong_layout f = wrong_layout
and_then wrong_value f = wrong_value

unfoldable pub to_dict : LatencyHistogram → Document
unfolding sorted
to_dict h = record {
  v = some schema_version;
  bits = some sub_bits;
  count = some h.count;
  total = some h.total_us;
  minimum = h.minimum;
  maximum = h.maximum;
  items = some (sorted h.buckets);
}

unfoldable pub is_version : Option ℕ → Bool
is_version none = false
is_version (some v) = v == schema_version

-- raw.get("sub_bits", SUB_BITS)
unfoldable pub is_layout : Option ℕ → Bool
is_layout none = true
is_layout (some bits) = bits == sub_bits

unfoldable pub or_empty : Option Buckets → Buckets
or_empty none = []
or_empty (some items) = items

unfoldable pub from_dict : Document → Parsed LatencyHistogram
unfolding is_version is_layout or_zero or_empty
from_dict raw =
    if is_version raw.v
    then if is_layout raw.bits
      then parsed (record {
        buckets = or_empty raw.items;
        count = or_zero raw.count;
        total_us = or_zero raw.total;
        minimum = raw.minimum;
        maximum = raw.maximum;
      })
      else wrong_layout
    else wrong_version

-- `merge_dicts`: the generator is read while the merge goes on, so the first refused document ends
-- the call.
unfoldable pub merge_dicts_from : LatencyHistogram → List Document → Parsed LatencyHistogram
merge_dicts_from merged [] = parsed merged
merge_dicts_from merged (d ∷ ds) =
    and_then (from_dict d) (λ h. merge_dicts_from (merge merged h) ds)

unfoldable pub merge_dicts : List Document → Parsed LatencyHistogram
unfolding merge_dicts_from
merge_dicts = merge_dicts_from empty
