-- ===== src/Histogram/Order.antt =====
-- A sketch forgets the order of its samples.
use mathlib.Core.List.{Perm, Permᴰ, append-nil, perm_append_comm}
use mathlib.Core.Logic.{∥∥₁_elim}
use native.Mathlib.Nat.{ℕ_set}
use regulator.Prelude.{
  ℕ, ◌≡◌, refl, arith, List, [], ◌∷◌, ◌++◌, sum, ◌∙◌, if◌then◌else◌, Bool, true, false,
}
use regulator.Histogram.{LatencyHistogram, record_us}
use regulator.Histogram.Record.{IsSketch, IsSketch-record_us, Perm-IsAlike}

Permᴰ-sum : {xs ys : List ℕ} → Permᴰ xs ys → sum xs ≡ sum ys
Permᴰ-sum Permᴰ.nil = refl
Permᴰ-sum (Permᴰ.cons e p) = omega (arith, e, Permᴰ-sum p)
Permᴰ-sum (Permᴰ.swap e f) = omega (arith, e, f)
Permᴰ-sum (Permᴰ.trans p q) = Permᴰ-sum p ∙ Permᴰ-sum q

pub Perm-sum : {xs ys : List ℕ} → Perm xs ys → sum xs ≡ sum ys
Perm-sum {xs} {ys} p = ∥∥₁_elim p (ℕ_set (sum xs) (sum ys)) Permᴰ-sum

pub IsSketch-Perm :
    {xs ys : List ℕ} {h : LatencyHistogram} → Perm xs ys → IsSketch xs h → IsSketch ys h
IsSketch-Perm p s =
    let a = Perm-IsAlike p in
    record {
      ranks = λ k. s.ranks k ∙ a.ranks k;
      whole = s.whole ∙ a.counts;
      counted = s.counted ∙ a.counts;
      summed = s.summed ∙ Perm-sum p;
      low = s.low ∙ a.low;
      high = s.high ∙ a.high;
    }

-- A sketch that one more sample is recorded in, or not.
pub IsSketch-record_if :
    (test : Bool) (v : ℕ) (xs : List ℕ) (h : LatencyHistogram)
    → IsSketch xs h
    → IsSketch (xs ++ (if test then v ∷ [] else [])) (if test then record_us v 1 h else h)
IsSketch-record_if true v xs h s =
    IsSketch-Perm (perm_append_comm (v ∷ []) xs) (IsSketch-record_us v 1 xs h s)
IsSketch-record_if false v xs h s = rw (append-nil xs) s
