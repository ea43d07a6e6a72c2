-- ===== src/Histogram/Layout.antt =====
-- The bucket layout: each value lies in its bucket, and buckets follow each other without a gap.
use native.Mathlib.Nat.{pow-succ', le-div_iff_mul-le, div-lt_iff_lt-mul, div-add-mod, mod-lt}
use mathlib.Core.Path.{subst}
use regulator.Prelude.{
  ℕ, zero, suc, ◌+◌, ◌-◌, ◌*◌, ◌/◌, ◌%◌, ◌^◌, ◌≤◌, ◌<◌, ◌≡◌, ◌⊎◌, refl, false, inl, inr, arith,
  Bool-cases, ltb, leb, ap, ◌==◌, ◌∙◌, sym,
}
use regulator.Histogram.{
  sub, bit_length_from, bit_length, bucket_index, bucket_lower_bound, bucket_width,
}

two_pow-suc : (n : ℕ) → 2 ^ suc n ≡ 2 * 2 ^ n
two_pow-suc n = pow-succ' 2 n

pub two_pow-pos : (n : ℕ) → 0 < 2 ^ n
two_pow-pos zero = omega arith
two_pow-pos (suc n) = omega (arith, two_pow-suc n, two_pow-pos n)

two_pow-add_six : (n : ℕ) → 2 ^ (n + 6) ≡ 64 * 2 ^ n
two_pow-add_six zero = refl
two_pow-add_six (suc n) =
    let e : suc n + 6 ≡ suc (n + 6) = omega arith in
    rw e (omega (arith, two_pow-suc n, two_pow-suc (n + 6), two_pow-add_six n))

bit_length_from_zero : (fuel : ℕ) → bit_length_from fuel 0 ≡ 0
unfolding bit_length_from
bit_length_from_zero zero = refl
bit_length_from_zero (suc fuel) = refl

bit_length_from_eq :
    (fuel n k : ℕ) → n ≤ fuel → 2 ^ k ≤ n → n < 2 ^ suc k → bit_length_from fuel n ≡ suc k
unfolding bit_length_from
bit_length_from_eq zero n k h p q = absurd (omega (arith, two_pow-pos k))
bit_length_from_eq (suc fuel) n zero h p q =
    let e : n ≡ 1 = omega (arith, two_pow-suc 0) in rw e (ap suc (bit_length_from_zero fuel))
bit_length_from_eq (suc fuel) n (suc k) h p q = elim (Bool-cases (n == 0)) [
  | inl z ↦ absurd (ground (arith, two_pow-pos (suc k)))
  | inr m ↦
      rw (m, bit_length_from)
        (ap suc (
          bit_length_from_eq fuel (n / 2) k (omega (arith, two_pow-pos (suc k)))
            (omega (arith, two_pow-suc k)) (omega (arith, two_pow-suc (suc k)))))
]

-- Each positive number stands between two powers.
log2_exists : (fuel n : ℕ) → n ≤ fuel → 0 < n → (k : ℕ) × (2 ^ k ≤ n) × (n < 2 ^ suc k)
log2_exists zero n h p = absurd (omega arith)
log2_exists (suc fuel) n h p = elim (Bool-cases (n / 2 == 0)) [
  | inl z ↦ (0, omega arith, ground arith)
  | inr m ↦
      let (k, lo, hi) = log2_exists fuel (n / 2) (omega arith) (ground arith) in
      (suc k, omega (arith, two_pow-suc k), omega (arith, two_pow-suc (suc k)))
]

-- A value of 64 or more is a mantissa of 64 to 127 and a rest below 2 ^ shift.
index_parts :
    (v s : ℕ)
    → 64 * 2 ^ s ≤ v
    → v < 128 * 2 ^ s
    → (64 ≤ v / 2 ^ s) × (v / 2 ^ s < 128) × (bucket_index v ≡ 64 + s * 64 + (v / 2 ^ s - 64))
unfolding bucket_index bit_length
index_parts v s p q =
    let big : 64 ≤ v = omega (arith, two_pow-pos s) in
    let up : v < 2 ^ suc (s + 6) = omega (arith, two_pow-suc (s + 6), two_pow-add_six s) in
    let e : bit_length_from v v ≡ suc (s + 6) =
      bit_length_from_eq v v (s + 6) (omega arith) (omega (arith, two_pow-add_six s)) up in
    let small : ltb v sub ≡ false = ground arith in
    let cut : suc (s + 6) - 1 - 6 ≡ s = omega arith in
    (
      (le-div_iff_mul-le (two_pow-pos s)).1 (omega arith),
      (div-lt_iff_lt-mul (two_pow-pos s)).1 (omega arith),
      rw (small, e, cut),
    )

index_small : (v : ℕ) → v < 64 → bucket_index v ≡ v
unfolding bucket_index
index_small v h = ground arith

bounds_small : (i : ℕ) → i < 64 → (bucket_lower_bound i ≡ i) × (bucket_width i ≡ 1)
unfolding bucket_lower_bound bucket_width
bounds_small i h = ground arith

bounds_large :
    (s m : ℕ)
    → m < 64
    → (bucket_lower_bound (64 + s * 64 + m) ≡ (64 + m) * 2 ^ s)
      × (bucket_width (64 + s * 64 + m) ≡ 2 ^ s)
unfolding bucket_lower_bound bucket_width
bounds_large s m h =
    let big : ltb (64 + s * 64 + m) 64 ≡ false = ground arith in
    let q : (64 + s * 64 + m - 64) / 64 ≡ s = omega arith in
    let r : (64 + s * 64 + m - 64) % 64 ≡ m = omega arith in (rw (big, q, r), rw (big, q))

-- The shift of a value that is not small.
shift_exists : (v : ℕ) → 64 ≤ v → (s : ℕ) × (64 * 2 ^ s ≤ v) × (v < 128 * 2 ^ s)
shift_exists v h =
    let (k, lo, hi) = log2_exists (v / 64) (v / 64) (omega arith) (omega arith) in
    (k, omega arith, omega (arith, two_pow-suc k))

-- An index that is not small is 64 + s * 64 + m.
abbrev IsSplit : ℕ → ℕ → ℕ → Type 0
IsSplit i s m = (m < 64) × (i ≡ 64 + s * 64 + m)

index-IsSplit : (i : ℕ) → 64 ≤ i → IsSplit i ((i - 64) / 64) ((i - 64) % 64)
index-IsSplit i h = (omega arith, omega arith)

module _ (v s : ℕ) (p : 64 * 2 ^ s ≤ v) (q : v < 128 * 2 ^ s) where
  in_bucket_large :
      (bucket_lower_bound (bucket_index v) ≤ v)
      × (v < bucket_lower_bound (bucket_index v) + bucket_width (bucket_index v))
      × (64 * bucket_width (bucket_index v) ≤ v)
  in_bucket_large =
      let (low, high, e) = index_parts v s p q in
      let (lo, wi) = bounds_large s (v / 2 ^ s - 64) (omega arith) in
      let mantissa : 64 + (v / 2 ^ s - 64) ≡ v / 2 ^ s = omega arith in
      let whole = div-add-mod v (2 ^ s) in
      let rest = mod-lt v (two_pow-pos s) in rw (e, lo, wi, mantissa) (grind arith, grind arith, p)

-- Every value lies in its own bucket, whose width is 1 or at most a 64th of the value.
pub bucket_index-in_bucket :
    (v : ℕ)
    → (bucket_lower_bound (bucket_index v) ≤ v)
      × (v < bucket_lower_bound (bucket_index v) + bucket_width (bucket_index v))
      × ((bucket_width (bucket_index v) ≡ 1) ⊎ (64 * bucket_width (bucket_index v) ≤ v))
bucket_index-in_bucket v = elim (Bool-cases (ltb v 64)) [
  | inl small ↦
      let e = index_small v (ground arith) in
      let (lo, wi) = bounds_small v (ground arith) in
      rw (e, lo, wi) (omega arith, omega arith, inl refl)
  | inr large ↦
      let (s, p, q) = shift_exists v (ground arith) in
      let (lo, hi, wi) = in_bucket_large v s p q in (lo, hi, inr wi)
]

bucket_index-eq_large :
    (s m v : ℕ)
    → m < 64
    → (64 + m) * 2 ^ s ≤ v
    → v < (64 + m) * 2 ^ s + 2 ^ s
    → bucket_index v ≡ 64 + s * 64 + m
bucket_index-eq_large s m v h p q =
    let (low, high, e) = index_parts v s (grind arith) (grind arith) in
    let at_least : 64 + m ≤ v / 2 ^ s = (le-div_iff_mul-le (two_pow-pos s)).1 p in
    let below : v / 2 ^ s < 65 + m = (div-lt_iff_lt-mul (two_pow-pos s)).1 (omega arith) in
    let d : v / 2 ^ s ≡ 64 + m = omega arith in rw (e, d) (omega arith)

-- A value is counted in the bucket whose interval holds it, and in no other. With the theorem above
-- the intervals [lower bound, lower bound + width) partition the numbers.
pub bucket_index_unique :
    (i v : ℕ)
    → bucket_lower_bound i ≤ v
    → v < bucket_lower_bound i + bucket_width i
    → bucket_index v ≡ i
bucket_index_unique i v p q = elim (Bool-cases (ltb i 64)) [
  | inl small ↦
      let (lo, wi) = bounds_small i (ground arith) in
      let e : v ≡ i = omega arith in rw e (index_small i (ground arith))
  | inr large ↦
      let (m, e) = index-IsSplit i (ground arith) in
      let (lo, wi) = bounds_large ((i - 64) / 64) ((i - 64) % 64) m in
      let lo' : bucket_lower_bound i ≡ (64 + (i - 64) % 64) * 2 ^ ((i - 64) / 64) =
        ap bucket_lower_bound e ∙ lo in
      let wi' : bucket_width i ≡ 2 ^ ((i - 64) / 64) = ap bucket_width e ∙ wi in
      bucket_index-eq_large ((i - 64) / 64) ((i - 64) % 64) v m (omega arith) (omega arith) ∙ sym e
]

bucket_width-pos : (i : ℕ) → 0 < bucket_width i
unfolding bucket_width
bucket_width-pos i = ground (arith, two_pow-pos ((i - 64) / 64))

lower_bound-suc_large :
    (s m : ℕ) → m < 64 → bucket_lower_bound (suc (64 + s * 64 + m)) ≡ (64 + m) * 2 ^ s + 2 ^ s
lower_bound-suc_large s m h = elim (Bool-cases (ltb m 63)) [
  | inl inside ↦
      let e : suc (64 + s * 64 + m) ≡ 64 + s * 64 + suc m = omega arith in
      rw e ((bounds_large s (suc m) (ground arith)).0 ∙ omega arith)
  | inr last ↦
      let m63 : m ≡ 63 = ground arith in
      let e : suc (64 + s * 64 + m) ≡ 64 + suc s * 64 + 0 = omega arith in
      rw e ((bounds_large (suc s) 0 (omega arith)).0 ∙ rw m63 (omega (arith, two_pow-suc s)))
]

-- A bucket ends where the next one begins.
pub lower_bound-suc : (i : ℕ) → bucket_lower_bound (suc i) ≡ bucket_lower_bound i + bucket_width i
lower_bound-suc i = elim (Bool-cases (ltb i 64)) [
  | inl small ↦
      let (lo, wi) = bounds_small i (ground arith) in
      rw (lo, wi)
        (elim (Bool-cases (ltb i 63)) [
          | inl inside ↦ (bounds_small (suc i) (ground arith)).0 ∙ omega arith
          | inr last ↦ let e : i ≡ 63 = ground arith in rw e ((bounds_large 0 0 (omega arith)).0)
        ])
  | inr large ↦
      let (m, e) = index-IsSplit i (ground arith) in
      let (lo, wi) = bounds_large ((i - 64) / 64) ((i - 64) % 64) m in
      let lo' : bucket_lower_bound i ≡ (64 + (i - 64) % 64) * 2 ^ ((i - 64) / 64) =
        ap bucket_lower_bound e ∙ lo in
      let wi' : bucket_width i ≡ 2 ^ ((i - 64) / 64) = ap bucket_width e ∙ wi in
      let next : bucket_lower_bound (suc i)
          ≡ (64 + (i - 64) % 64) * 2 ^ ((i - 64) / 64) + 2 ^ ((i - 64) / 64) =
        ap (λ j. bucket_lower_bound (suc j)) e
        ∙ lower_bound-suc_large ((i - 64) / 64) ((i - 64) % 64) m in
      omega arith
]

lower_bound-add : (i d : ℕ) → bucket_lower_bound i ≤ bucket_lower_bound (i + d)
lower_bound-add i zero = let e : i + 0 ≡ i = omega arith in rw e (omega arith)
lower_bound-add i (suc d) =
    let e : i + suc d ≡ suc (i + d) = omega arith in
    rw e (omega (arith, lower_bound-add i d, lower_bound-suc (i + d)))

pub lower_bound_mono : (i j : ℕ) → i ≤ j → bucket_lower_bound i ≤ bucket_lower_bound j
lower_bound_mono i j h =
    let e : i + (j - i) ≡ j = omega arith in
    subst (λ k. bucket_lower_bound i ≤ bucket_lower_bound k) e (lower_bound-add i (j - i))

pub lower_bound_zero : bucket_lower_bound 0 ≡ 0
lower_bound_zero = (bounds_small 0 (omega arith)).0

-- A larger value never lands in an earlier bucket.
pub bucket_index_mono : (u v : ℕ) → u ≤ v → bucket_index u ≤ bucket_index v
bucket_index_mono u v h = elim (Bool-cases (leb (bucket_index u) (bucket_index v))) [
  | inl below ↦ ground arith
  | inr above ↦
      let (low, _, _) = bucket_index-in_bucket u in
      let (_, high, _) = bucket_index-in_bucket v in
      let up = lower_bound_mono (suc (bucket_index v)) (bucket_index u) (ground arith) in
      absurd (omega (arith, lower_bound-suc (bucket_index v)))
]

-- The inverse at the lower bound.
pub bucket_index-lower_bound : (i : ℕ) → bucket_index (bucket_lower_bound i) ≡ i
bucket_index-lower_bound i =
    bucket_index_unique i (bucket_lower_bound i) (omega arith) (omega (arith, bucket_width-pos i))
