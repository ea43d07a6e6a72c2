-- ===== src/Histogram/Record.antt =====
-- What a histogram stands for: the samples that it counted, in any order.
use mathlib.Core.List.{Perm, Permᴰ}
use mathlib.Core.Logic.{∥∥₁_elim}
use native.Mathlib.Nat.{ℕ_set}
use regulator.Prelude.{
  ℕ, zero, suc, ◌+◌, ◌*◌, ◌≡◌, refl, arith, leb, List, [], ◌∷◌, ◌++◌, none, Option, if◌then◌else◌,
  length, sum, replicate, sum-append, length-append, ap, ◌∙◌, sym,
}
use regulator.Histogram.{
  LatencyHistogram, bucket_index, lower, higher, empty, record_us, merge, merge_min, merge_max,
}
use regulator.Histogram.Rank.{rank, rank-add_to, rank-add_all, total, total-add_to, total-add_all}

-- How many samples are counted in bucket `k` or below.
abbrev pub count_le : ℕ → List ℕ → ℕ
count_le k [] = 0
count_le k (x ∷ xs) = (if leb (bucket_index x) k then 1 else 0) + count_le k xs

unfoldable pub least : List ℕ → Option ℕ
least [] = none
least (x ∷ xs) = lower (least xs) x

unfoldable pub greatest : List ℕ → Option ℕ
greatest [] = none
greatest (x ∷ xs) = higher (greatest xs) x

-- `h` is a sketch of the samples `xs`: its exact figures are theirs, and so is every rank.
pub record IsSketch (xs : List ℕ) (h : LatencyHistogram) : Type 0 where
  pub ranks : (k : ℕ) → rank k h.buckets ≡ count_le k xs
  pub whole : total h.buckets ≡ length xs
  pub counted : h.count ≡ length xs
  pub summed : h.total_us ≡ sum xs
  pub low : h.minimum ≡ least xs
  pub high : h.maximum ≡ greatest xs

count_le-append : (k : ℕ) (xs ys : List ℕ) → count_le k (xs ++ ys) ≡ count_le k xs + count_le k ys
count_le-append k [] ys = omega arith
count_le-append k (x ∷ xs) ys = omega (arith, count_le-append k xs ys)

lower-merge_min : (a b : Option ℕ) (x : ℕ) → lower (merge_min a b) x ≡ merge_min (lower a x) b
unfolding lower merge_min
lower-merge_min a b x = ground arith

higher-merge_max : (a b : Option ℕ) (x : ℕ) → higher (merge_max a b) x ≡ merge_max (higher a x) b
unfolding higher merge_max
higher-merge_max a b x = ground arith

least-append : (xs ys : List ℕ) → least (xs ++ ys) ≡ merge_min (least xs) (least ys)
unfolding least merge_min
least-append [] ys = refl
least-append (x ∷ xs) ys = rw (least-append xs ys) (lower-merge_min (least xs) (least ys) x)

greatest-append : (xs ys : List ℕ) → greatest (xs ++ ys) ≡ merge_max (greatest xs) (greatest ys)
unfolding greatest merge_max
greatest-append [] ys = refl
greatest-append (x ∷ xs) ys =
    rw (greatest-append xs ys) (higher-merge_max (greatest xs) (greatest ys) x)

pub IsSketch-empty : IsSketch [] empty
unfolding rank total least greatest
IsSketch-empty = record {
  ranks = λ k. refl;
  whole = refl;
  counted = refl;
  summed = refl;
  low = refl;
  high = refl;
}

-- `merge`: the sketch of both batches of samples together.
pub IsSketch-merge :
    (xs ys : List ℕ) (h g : LatencyHistogram)
    → IsSketch xs h
    → IsSketch ys g
    → IsSketch (ys ++ xs) (merge h g)
unfolding merge
IsSketch-merge xs ys h g p q = record {
  ranks = λ k.
      omega
        (arith, rank-add_all k g.buckets h.buckets, p.ranks k, q.ranks k, count_le-append k ys xs);
  whole = omega (arith, total-add_all g.buckets h.buckets, p.whole, q.whole, length-append ys xs);
  counted = omega (arith, p.counted, q.counted, length-append ys xs);
  summed = omega (arith, p.summed, q.summed, sum-append ys xs);
  low = rw (p.low, q.low) (sym (least-append ys xs));
  high = rw (p.high, q.high) (sym (greatest-append ys xs));
}

count_le-replicate :
    (k n v : ℕ) (xs : List ℕ)
    → count_le k (replicate n v ++ xs) ≡ (if leb (bucket_index v) k then n else 0) + count_le k xs
count_le-replicate k zero v xs = ground arith
count_le-replicate k (suc n) v xs = ground (arith, count_le-replicate k n v xs)

sum-replicate : (n v : ℕ) (xs : List ℕ) → sum (replicate n v ++ xs) ≡ v * n + sum xs
sum-replicate zero v xs = omega arith
sum-replicate (suc n) v xs = grind (arith, sum-replicate n v xs)

length-replicate_append : (n v : ℕ) (xs : List ℕ) → length (replicate n v ++ xs) ≡ n + length xs
length-replicate_append zero v xs = omega arith
length-replicate_append (suc n) v xs = omega (arith, length-replicate_append n v xs)

lower_idem : (a : Option ℕ) (v : ℕ) → lower (lower a v) v ≡ lower a v
unfolding lower
lower_idem a v = ground arith

higher_idem : (a : Option ℕ) (v : ℕ) → higher (higher a v) v ≡ higher a v
unfolding higher
higher_idem a v = ground arith

least-replicate : (n v : ℕ) (xs : List ℕ) → least (replicate (suc n) v ++ xs) ≡ lower (least xs) v
unfolding least
least-replicate zero v xs = refl
least-replicate (suc n) v xs = rw (least-replicate n v xs) (lower_idem (least xs) v)

greatest-replicate :
    (n v : ℕ) (xs : List ℕ) → greatest (replicate (suc n) v ++ xs) ≡ higher (greatest xs) v
unfolding greatest
greatest-replicate zero v xs = refl
greatest-replicate (suc n) v xs = rw (greatest-replicate n v xs) (higher_idem (greatest xs) v)

-- `record_us` with a count of `n` stands for `n` more samples of the value, none if `n` is 0.
pub IsSketch-record_us :
    (v n : ℕ) (xs : List ℕ) (h : LatencyHistogram)
    → IsSketch xs h
    → IsSketch (replicate n v ++ xs) (record_us v n h)
unfolding record_us
IsSketch-record_us v zero xs h p = p
IsSketch-record_us v (suc n) xs h p = record {
  ranks = λ k. omega (
    arith,
    rank-add_to k (bucket_index v) (suc n) h.buckets,
    p.ranks k,
    count_le-replicate k (suc n) v xs,
  );
  whole = omega (
    arith,
    total-add_to (bucket_index v) (suc n) h.buckets,
    p.whole,
    length-replicate_append (suc n) v xs,
  );
  counted = omega (arith, p.counted, length-replicate_append (suc n) v xs);
  summed = omega (arith, p.summed, sum-replicate (suc n) v xs);
  low = rw p.low (sym (least-replicate n v xs));
  high = rw p.high (sym (greatest-replicate n v xs));
}

-- The figures of samples that do not depend on their order.
pub record IsAlike (xs ys : List ℕ) : Type 0 where
  pub ranks : (k : ℕ) → count_le k xs ≡ count_le k ys
  pub counts : length xs ≡ length ys
  pub low : least xs ≡ least ys
  pub high : greatest xs ≡ greatest ys

lower_comm : (a : Option ℕ) (x y : ℕ) → lower (lower a x) y ≡ lower (lower a y) x
unfolding lower
lower_comm a x y = ground arith

higher_comm : (a : Option ℕ) (x y : ℕ) → higher (higher a x) y ≡ higher (higher a y) x
unfolding higher
higher_comm a x y = ground arith

Permᴰ-IsAlike : {xs ys : List ℕ} → Permᴰ xs ys → IsAlike xs ys
unfolding least greatest
Permᴰ-IsAlike Permᴰ.nil = record { ranks = λ k. refl; counts = refl; low = refl; high = refl }
Permᴰ-IsAlike (Permᴰ.cons e p) =
    let ih = Permᴰ-IsAlike p in
    record {
      ranks = λ k. rw (e, ih.ranks k);
      counts = ap suc ih.counts;
      low = rw (e, ih.low);
      high = rw (e, ih.high);
    }
Permᴰ-IsAlike (Permᴰ.swap {a} {b} {a'} {b'} {l} e f) = record {
  ranks = λ k. rw (e, f) (omega arith);
  counts = refl;
  low = rw (e, f) (lower_comm (least l) _ _);
  high = rw (e, f) (higher_comm (greatest l) _ _);
}
Permᴰ-IsAlike (Permᴰ.trans p q) =
    let a = Permᴰ-IsAlike p in
    let b = Permᴰ-IsAlike q in
    record {
      ranks = λ k. a.ranks k ∙ b.ranks k;
      counts = a.counts ∙ b.counts;
      low = a.low ∙ b.low;
      high = a.high ∙ b.high;
    }

Option-set : IsSet (Option ℕ)
Option-set = hlevel

IsAlike-prop : (xs ys : List ℕ) → IsProp (IsAlike xs ys)
IsAlike-prop xs ys a b i = record {
  ranks = λ k. ℕ_set _ _ (a.ranks k) (b.ranks k) i;
  counts = ℕ_set _ _ a.counts b.counts i;
  low = Option-set _ _ a.low b.low i;
  high = Option-set _ _ a.high b.high i;
}

pub Perm-IsAlike : {xs ys : List ℕ} → Perm xs ys → IsAlike xs ys
Perm-IsAlike {xs} {ys} p = ∥∥₁_elim p (IsAlike-prop xs ys) Permᴰ-IsAlike
