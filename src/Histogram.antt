-- ===== src/Histogram.antt =====
-- worker/regulator_agent/histogram.py: the mergeable latency sketch. Values are whole
-- microseconds. A percentile is read at a whole number `p`, as every caller in the agent does, and
-- is returned in half microseconds, because a bucket's midpoint can end in .5.
-- The bucket dictionary is the list of its items in the order in which its keys came in.
mod Tests
pub mod Layout
pub mod Reading
pub mod Document
pub mod Record
pub mod Rank
pub mod Order
pub mod Percentile
pub mod Wire
use regulator.Prelude.{
  ℕ, zero, suc, ◌+◌, ◌-◌, ◌*◌, ◌/◌, ◌%◌, ◌^◌, Bool, true, false, Option, none, some, List, [], ◌∷◌,
  ltb, leb, ◌==◌, if◌then◌else◌,
}
use Prim.Native.Nat.{min, max}

abbrev pub sub_bits : ℕ
sub_bits = 6

abbrev pub sub : ℕ
sub = 64

abbrev pub schema_version : ℕ
schema_version = 1

-- Python's `int.bit_length`, by halving. The value itself is fuel enough.
pub bit_length_from : ℕ → ℕ → ℕ
bit_length_from zero n = 0
bit_length_from (suc fuel) n = elim (n == 0) [
  | true ↦ 0
  | false ↦ suc (bit_length_from fuel (n / 2))
]

pub bit_length : ℕ → ℕ
unfolding bit_length_from
bit_length n = bit_length_from n n

pub bucket_index : ℕ → ℕ
unfolding bit_length
bucket_index value =
    if ltb value sub
    then value
    else let shift = bit_length value - 1 - sub_bits in
      sub + shift * sub + (value / 2 ^ shift - sub)

pub bucket_lower_bound : ℕ → ℕ
bucket_lower_bound index =
    if ltb index sub then index else (sub + (index - sub) % sub) * 2 ^ ((index - sub) / sub)

pub bucket_width : ℕ → ℕ
bucket_width index = if ltb index sub then 1 else 2 ^ ((index - sub) / sub)

-- In half microseconds.
unfoldable pub bucket_midpoint : ℕ → ℕ
unfolding bucket_lower_bound bucket_width
bucket_midpoint index = 2 * bucket_lower_bound index + (bucket_width index - 1)

abbrev pub Buckets : Type 0
Buckets = List (ℕ × ℕ)

pub record LatencyHistogram : Type 0 where
  pub buckets : Buckets
  pub count : ℕ
  pub total_us : ℕ
  pub minimum : Option ℕ
  pub maximum : Option ℕ

abbrev pub empty : LatencyHistogram
empty = record { buckets = []; count = 0; total_us = 0; minimum = none; maximum = none }

-- buckets[index] = buckets.get(index, 0) + count
pub add_to : ℕ → ℕ → Buckets → Buckets
add_to index n [] = (index, n) ∷ []
add_to index n ((i, c) ∷ rest) =
    if i == index then (i, c + n) ∷ rest else (i, c) ∷ add_to index n rest

pub lower : Option ℕ → ℕ → Option ℕ
lower none value = some value
lower (some m) value = if ltb value m then some value else some m

pub higher : Option ℕ → ℕ → Option ℕ
higher none value = some value
higher (some m) value = if ltb m value then some value else some m

pub record_us : ℕ → ℕ → LatencyHistogram → LatencyHistogram
unfolding bucket_index add_to lower higher
record_us value zero h = h
record_us value (suc n) h = record {
  buckets = add_to (bucket_index value) (suc n) h.buckets;
  count = h.count + suc n;
  total_us = h.total_us + value * suc n;
  minimum = lower h.minimum value;
  maximum = higher h.maximum value;
}

pub add_all : Buckets → Buckets → Buckets
unfolding add_to
add_all [] bs = bs
add_all ((i, c) ∷ rest) bs = add_all rest (add_to i c bs)

-- `other._min` first, then `self._min`.
pub merge_min : Option ℕ → Option ℕ → Option ℕ
merge_min none mine = mine
merge_min (some other) none = some other
merge_min (some other) (some mine) = some (min mine other)

pub merge_max : Option ℕ → Option ℕ → Option ℕ
merge_max none mine = mine
merge_max (some other) none = some other
merge_max (some other) (some mine) = some (max mine other)

-- h.merge(other)
unfoldable pub merge : LatencyHistogram → LatencyHistogram → LatencyHistogram
unfolding add_all merge_min merge_max
merge h other = record {
  buckets = add_all other.buckets h.buckets;
  count = h.count + other.count;
  total_us = h.total_us + other.total_us;
  minimum = merge_min other.minimum h.minimum;
  maximum = merge_max other.maximum h.maximum;
}

pub copy : LatencyHistogram → LatencyHistogram
unfolding merge
copy h = merge empty h

pub reset : LatencyHistogram → LatencyHistogram
reset h = empty

pub merge_from : LatencyHistogram → List LatencyHistogram → LatencyHistogram
unfolding merge
merge_from merged [] = merged
merge_from merged (h ∷ hs) = merge_from (merge merged h) hs

pub merge_all : List LatencyHistogram → LatencyHistogram
unfolding merge_from
merge_all = merge_from empty
