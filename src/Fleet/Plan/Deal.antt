-- ===== src/Fleet/Plan/Deal.antt =====
-- `_deal` apportions the whole total: no user is lost or made up by the rounding.
use regulator.Prelude.{
  ℕ, zero, suc, ◌+◌, ◌-◌, ◌*◌, ◌/◌, ◌≤◌, ◌<◌, ◌≡◌, ◌⊎◌, inl, inr, refl, ap, arith, [], ◌∷◌, length,
  sum, All, Bool-cases, ◌==◌, ◌∙◌,
}
use native.Mathlib.Nat.{div-add-mod, mod-lt, le_of_mul-le-mul_left}
use regulator.Fleet.Plan.{
  Weights, values, weight_total, is_after, place, rank, give_one, give, floors, fractions, deal,
}

abbrev HasKey : ℕ → Weights → Type 0
HasKey k [] = ⊥
HasKey k ((j, n) ∷ rest) = (j ≡ k) ⊎ HasKey k rest

HasKey-give_one : (i k : ℕ) (l : Weights) → HasKey i l → HasKey i (give_one k l)
unfolding give_one
HasKey-give_one i k [] h = h
HasKey-give_one i k ((j, n) ∷ rest) h = elim (Bool-cases (j == k)) [
  | inl here ↦ rw here (elim h [ inl e ↦ inl e | inr t ↦ inr t ])
  | inr there ↦ rw there (elim h [ inl e ↦ inl e | inr t ↦ inr (HasKey-give_one i k rest t) ])
]

sum-give_one :
    (k : ℕ) (l : Weights) → HasKey k l → sum (values (give_one k l)) ≡ suc (sum (values l))
unfolding give_one
sum-give_one k [] h = absurd h
sum-give_one k ((j, n) ∷ rest) (inl e) = ground arith
sum-give_one k ((j, n) ∷ rest) (inr t) = ground (arith, sum-give_one k rest t)

abbrev AreKeys : Weights → Weights → Type 0
AreKeys shares = All (λ e. HasKey e.0 shares)

AreKeys-give_one :
    (k : ℕ) (keys shares : Weights) → AreKeys shares keys → AreKeys (give_one k shares) keys
AreKeys-give_one k [] shares h = tt
AreKeys-give_one k (e ∷ keys) shares h =
    (HasKey-give_one e.0 k shares h.0, AreKeys-give_one k keys shares h.1)

sum-give :
    (count : ℕ) (keys shares : Weights)
    → count ≤ length keys
    → AreKeys shares keys
    → sum (values (give count keys shares)) ≡ count + sum (values shares)
unfolding give
sum-give zero keys shares h a = omega arith
sum-give (suc count) [] shares h a = absurd (omega arith)
sum-give (suc count) ((k, f) ∷ keys) shares h a = omega (
  arith,
  sum-give count keys (give_one k shares) (omega arith) (AreKeys-give_one k keys shares a.1),
  sum-give_one k shares a.0,
)

place-AreKeys :
    (shares : Weights) (e : ℕ × ℕ) (l : Weights)
    → HasKey e.0 shares
    → AreKeys shares l
    → AreKeys shares (place e l)
unfolding place
place-AreKeys shares e [] h a = (h, tt)
place-AreKeys shares e (d ∷ rest) h a = elim (Bool-cases (is_after e d)) [
  | inl before ↦ rw before (h, a)
  | inr after ↦ rw after (a.0, place-AreKeys shares e rest h a.1)
]

rank-AreKeys : (shares l : Weights) → AreKeys shares l → AreKeys shares (rank l)
unfolding rank
rank-AreKeys shares [] a = tt
rank-AreKeys shares (e ∷ rest) a =
    place-AreKeys shares e (rank rest) a.0 (rank-AreKeys shares rest a.1)

length-place : (e : ℕ × ℕ) (l : Weights) → length (place e l) ≡ suc (length l)
unfolding place
length-place e [] = refl
length-place e (d ∷ rest) = elim (Bool-cases (is_after e d)) [
  | inl before ↦ rw before
  | inr after ↦ rw after (ap suc (length-place e rest))
]

length-rank : (l : Weights) → length (rank l) ≡ length l
unfolding rank
length-rank [] = refl
length-rank (e ∷ rest) = length-place e (rank rest) ∙ ap suc (length-rank rest)

AreKeys-cons : (e : ℕ × ℕ) (shares l : Weights) → AreKeys shares l → AreKeys (e ∷ shares) l
AreKeys-cons e shares [] a = tt
AreKeys-cons e shares (d ∷ l) a = (inr a.0, AreKeys-cons e shares l a.1)

fractions-AreKeys :
    (total whole : ℕ) (l : Weights) → AreKeys (floors total whole l) (fractions total whole l)
unfolding floors fractions
fractions-AreKeys total whole [] = tt
fractions-AreKeys total whole (e ∷ l) = (
  inl refl,
  AreKeys-cons (e.0, total * e.1 / whole) (floors total whole l) (fractions total whole l)
      (fractions-AreKeys total whole l),
)

length-fractions : (total whole : ℕ) (l : Weights) → length (fractions total whole l) ≡ length l
unfolding fractions
length-fractions total whole [] = refl
length-fractions total whole (e ∷ l) = ap suc (length-fractions total whole l)

-- Quotients and rests make up the total.
sum-floors :
    (total whole : ℕ) (l : Weights)
    → whole * sum (values (floors total whole l)) + sum (values (fractions total whole l))
      ≡ total * sum (values l)
unfolding floors fractions
sum-floors total whole [] = omega arith
sum-floors total whole (e ∷ l) =
    omega (arith, sum-floors total whole l, div-add-mod (total * e.1) whole)

sum-fractions-lt :
    (total whole : ℕ) (l : Weights)
    → 0 < whole
    → sum (values (fractions total whole l)) ≤ whole * length l
unfolding fractions
sum-fractions-lt total whole [] h = omega arith
sum-fractions-lt total whole (e ∷ l) h =
    omega (arith, sum-fractions-lt total whole l h, mod-lt (total * e.1) h)

rest_bound :
    (whole total s f n : ℕ)
    → 0 < whole
    → whole * s + f ≡ total * whole
    → f ≤ whole * n
    → (s ≤ total) × (total - s ≤ n)
rest_bound whole total s f n h e b =
    let below : s ≤ total = le_of_mul-le-mul_left {k = whole} (omega arith) h in
    let split : whole * total ≡ whole * (s + (total - s)) =
      ap (λ (x : ℕ). whole * x) (omega arith) in
    (below, le_of_mul-le-mul_left {k = whole} (omega arith) h)

-- Where some weight is positive, the shares of `_deal` add up to the total.
pub sum-deal :
    (total : ℕ) (weights : Weights)
    → 0 < sum (values weights)
    → sum (values (deal total weights)) ≡ total
unfolding deal weight_total
sum-deal total weights h =
    let whole = sum (values weights) in
    let shares = floors total whole weights in
    let fracs = fractions total whole weights in
    let (below, few) =
      rest_bound whole total (sum (values shares)) (sum (values fracs)) (length weights) h
        (sum-floors total whole weights) (sum-fractions-lt total whole weights h) in
    let e : weight_total weights ≡ whole = ground arith in
    let given =
      sum-give (total - sum (values shares)) (rank fracs) shares
        (omega (arith, length-rank fracs, length-fractions total whole weights))
        (rank-AreKeys shares fracs (fractions-AreKeys total whole weights)) in
    rw e (omega arith)
