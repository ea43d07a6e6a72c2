-- ===== src/Histogram/Rank.antt =====
-- The rank of a bucket, how many samples lie at or below it, and what the loop of `percentile_us`
-- finds in terms of it.
use regulator.Prelude.{
  ℕ, ◌+◌, ◌*◌, ◌≤◌, ◌<◌, ◌≡◌, refl, inl, inr, arith, Bool-cases, Option-cases, leb, sym, ap, ◌∙◌,
  [], ◌∷◌, none, some, if◌then◌else◌, All,
}
use regulator.Histogram.{Buckets, add_to, add_all}
use regulator.Histogram.Reading.{insert_sorted, sorted, find_bucket}

unfoldable pub rank : ℕ → Buckets → ℕ
rank k [] = 0
rank k ((i, c) ∷ rest) = (if leb i k then c else 0) + rank k rest

unfoldable pub total : Buckets → ℕ
total [] = 0
total ((i, c) ∷ rest) = c + total rest

pub rank-add_to :
    (k i n : ℕ) (bs : Buckets) → rank k (add_to i n bs) ≡ (if leb i k then n else 0) + rank k bs
unfolding rank add_to
rank-add_to k i n [] = refl
rank-add_to k i n ((j, c) ∷ rest) = ground (arith, rank-add_to k i n rest)

pub total-add_to : (i n : ℕ) (bs : Buckets) → total (add_to i n bs) ≡ n + total bs
unfolding total add_to
total-add_to i n [] = refl
total-add_to i n ((j, c) ∷ rest) = ground (arith, total-add_to i n rest)

pub rank-add_all : (k : ℕ) (cs bs : Buckets) → rank k (add_all cs bs) ≡ rank k cs + rank k bs
unfolding rank add_all
rank-add_all k [] bs = omega arith
rank-add_all k ((i, c) ∷ rest) bs =
    omega (arith, rank-add_all k rest (add_to i c bs), rank-add_to k i c bs)

pub total-add_all : (cs bs : Buckets) → total (add_all cs bs) ≡ total cs + total bs
unfolding total add_all
total-add_all [] bs = omega arith
total-add_all ((i, c) ∷ rest) bs =
    omega (arith, total-add_all rest (add_to i c bs), total-add_to i c bs)

rank-insert_sorted :
    (k i n : ℕ) (bs : Buckets)
    → rank k (insert_sorted i n bs) ≡ (if leb i k then n else 0) + rank k bs
unfolding rank insert_sorted
rank-insert_sorted k i n [] = refl
rank-insert_sorted k i n ((j, c) ∷ rest) = ground (arith, rank-insert_sorted k i n rest)

total-insert_sorted : (i n : ℕ) (bs : Buckets) → total (insert_sorted i n bs) ≡ n + total bs
unfolding total insert_sorted
total-insert_sorted i n [] = refl
total-insert_sorted i n ((j, c) ∷ rest) = ground (arith, total-insert_sorted i n rest)

pub rank-sorted : (k : ℕ) (bs : Buckets) → rank k (sorted bs) ≡ rank k bs
unfolding rank sorted
rank-sorted k [] = refl
rank-sorted k ((i, c) ∷ rest) =
    omega (arith, rank-insert_sorted k i c (sorted rest), rank-sorted k rest)

pub total-sorted : (bs : Buckets) → total (sorted bs) ≡ total bs
unfolding total sorted
total-sorted [] = refl
total-sorted ((i, c) ∷ rest) =
    omega (arith, total-insert_sorted i c (sorted rest), total-sorted rest)

abbrev pub From : ℕ → Buckets → Type 0
From i = All (λ e. i ≤ e.0)

abbrev pub IsSorted : Buckets → Type 0
IsSorted [] = Unit
IsSorted ((i, c) ∷ rest) = From i rest × IsSorted rest

From-mono : (i j : ℕ) (bs : Buckets) → i ≤ j → From j bs → From i bs
From-mono i j [] h f = tt
From-mono i j ((k, c) ∷ rest) h f = (omega arith, From-mono i j rest h f.1)

insert_sorted-From : (k i n : ℕ) (bs : Buckets) → k ≤ i → From k bs → From k (insert_sorted i n bs)
unfolding insert_sorted
insert_sorted-From k i n [] h f = (h, tt)
insert_sorted-From k i n ((j, c) ∷ rest) h f = elim (Bool-cases (leb i j)) [
  | inl before ↦ rw before (h, f)
  | inr after ↦ rw after (f.0, insert_sorted-From k i n rest h f.1)
]

insert_sorted-IsSorted : (i n : ℕ) (bs : Buckets) → IsSorted bs → IsSorted (insert_sorted i n bs)
unfolding insert_sorted
insert_sorted-IsSorted i n [] s = (tt, tt)
insert_sorted-IsSorted i n ((j, c) ∷ rest) s = elim (Bool-cases (leb i j)) [
  | inl before ↦ rw before ((ground arith, From-mono i j rest (ground arith) s.0), s)
  | inr after ↦
      rw after
        (insert_sorted-From j i n rest (ground arith) s.0, insert_sorted-IsSorted i n rest s.1)
]

pub sorted-IsSorted : (bs : Buckets) → IsSorted (sorted bs)
unfolding sorted
sorted-IsSorted [] = tt
sorted-IsSorted ((i, c) ∷ rest) = insert_sorted-IsSorted i c (sorted rest) (sorted-IsSorted rest)

rank-eq_zero : (i j : ℕ) (bs : Buckets) → j < i → From i bs → rank j bs ≡ 0
unfolding rank
rank-eq_zero i j [] h f = refl
rank-eq_zero i j ((k, c) ∷ rest) h f = ground (arith, rank-eq_zero i j rest h f.1)

find_bucket-From :
    (i t seen k : ℕ) (bs : Buckets) → From i bs → find_bucket t seen bs ≡ some k → i ≤ k
unfolding find_bucket
find_bucket-From i t seen k [] f e = ground arith
find_bucket-From i t seen k ((j, c) ∷ rest) f e =
    ground (arith, find_bucket-From i t (seen + c) k rest f.1)

-- `k` is the first bucket at which the samples seen reach a hundredth of `t`.
pub record IsFirst (t : ℕ) (bs : Buckets) (k : ℕ) : Type 0 where
  pub reached : t ≤ 100 * rank k bs
  pub before : (j : ℕ) → j < k → 100 * rank j bs < t

reached_from :
    (t seen k : ℕ) (bs : Buckets)
    → IsSorted bs
    → find_bucket t seen bs ≡ some k
    → t ≤ 100 * (seen + rank k bs)
unfolding find_bucket rank
reached_from t seen k [] s e = ground arith
reached_from t seen k ((i, c) ∷ rest) s e =
    ground (arith, reached_from t (seen + c) k rest s.1, find_bucket-From i t (seen + c) k rest s.0)

before_from :
    (t seen k j : ℕ) (bs : Buckets)
    → IsSorted bs
    → 100 * seen < t
    → find_bucket t seen bs ≡ some k
    → j < k
    → 100 * (seen + rank j bs) < t
unfolding find_bucket rank
before_from t seen k j [] s p e h = ground arith
before_from t seen k j ((i, c) ∷ rest) s p e h =
    ground (arith, before_from t (seen + c) k j rest s.1, rank-eq_zero i j rest)

pub find_bucket-none :
    (t seen : ℕ) (bs : Buckets)
    → 100 * seen < t
    → find_bucket t seen bs ≡ none
    → 100 * (seen + total bs) < t
unfolding find_bucket total
find_bucket-none t seen [] p e = omega arith
find_bucket-none t seen ((i, c) ∷ rest) p e = ground (arith, find_bucket-none t (seen + c) rest)

pub find_bucket-IsFirst :
    (t k : ℕ) (bs : Buckets) → 0 < t → find_bucket t 0 (sorted bs) ≡ some k → IsFirst t bs k
find_bucket-IsFirst t k bs p e = record {
  reached = omega (arith, reached_from t 0 k (sorted bs) (sorted-IsSorted bs) e, rank-sorted k bs);
  before = λ j h. omega (
    arith,
    before_from t 0 k j (sorted bs) (sorted-IsSorted bs) (omega arith) e h,
    rank-sorted j bs,
  );
}

pub IsFirst-unique :
    (t j k : ℕ) (cs bs : Buckets)
    → ((i : ℕ) → rank i cs ≡ rank i bs)
    → IsFirst t cs j
    → IsFirst t bs k
    → j ≡ k
IsFirst-unique t j k cs bs same p q = elim (Bool-cases (leb j k)) [
  | inl up ↦ elim (Bool-cases (leb k j)) [
    | inl down ↦ ground arith
    | inr under ↦ absurd (omega (arith, q.before j (ground arith), same j, p.reached))
  ]
  | inr over ↦ absurd (omega (arith, p.before k (ground arith), same k, q.reached))
]

rank-le-total : (k : ℕ) (bs : Buckets) → rank k bs ≤ total bs
unfolding rank total
rank-le-total k [] = omega arith
rank-le-total k ((i, c) ∷ rest) = ground (arith, rank-le-total k rest)

found_nowhere :
    (t k : ℕ) (cs bs : Buckets)
    → ((i : ℕ) → rank i cs ≡ rank i bs)
    → 0 < t
    → find_bucket t 0 (sorted cs) ≡ none
    → find_bucket t 0 (sorted bs) ≡ some k
    → ⊥
found_nowhere t k cs bs same p e f =
    let first = find_bucket-IsFirst t k bs p f in
    omega (
      arith,
      first.reached,
      find_bucket-none t 0 (sorted cs) p e,
      total-sorted cs,
      same k,
      rank-le-total k cs,
    )

-- The loop finds the same bucket in two dictionaries that have the same ranks.
pub find_bucket-alike :
    (t : ℕ) (cs bs : Buckets)
    → ((i : ℕ) → rank i cs ≡ rank i bs)
    → 0 < t
    → find_bucket t 0 (sorted cs) ≡ find_bucket t 0 (sorted bs)
find_bucket-alike t cs bs same p = elim (Option-cases (find_bucket t 0 (sorted cs))) [
  | inl e ↦ elim (Option-cases (find_bucket t 0 (sorted bs))) [
    | inl f ↦ e ∙ sym f
    | inr (k, f) ↦ absurd (found_nowhere t k cs bs same p e f)
  ]
  | inr (j, e) ↦ elim (Option-cases (find_bucket t 0 (sorted bs))) [
    | inl f ↦ absurd (found_nowhere t j bs cs (λ i. sym (same i)) p f e)
    | inr (k, f) ↦
        let first = find_bucket-IsFirst t j cs p e in
        let other = find_bucket-IsFirst t k bs p f in
        e ∙ ap some (IsFirst-unique t j k cs bs same first other) ∙ sym f
  ]
]
