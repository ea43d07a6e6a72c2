-- ===== src/Ceilings/Quota.antt =====
-- The account's quota: the largest of its roles, unless one of them is unlimited.
use Prim.Native.Nat.{max}
use mathlib.Core.Path.{subst}
use regulator.Prelude.{
  or_false, ℕ, ◌≤◌, ◌<◌, ◌≡◌, refl, ◌∙◌, sym, ◌⊎◌, inl, inr, true, false, none, some, List, [], ◌∷◌,
  All, any, arith, leb, ◌==◌, Bool-cases, some-eq,
}
use regulator.Ceilings.{largest, quota_from}

-- `x` is an element.
abbrev pub IsIn : ℕ → List ℕ → Type 0
IsIn x [] = ⊥
IsIn x (y ∷ ys) = (x ≡ y) ⊎ IsIn x ys

largest_above : (n : ℕ) (ms : List ℕ) → (n ≤ largest n ms) × All (λ m. m ≤ largest n ms) ms
unfolding largest
largest_above n [] = (omega arith, tt)
largest_above n (m ∷ ms) =
    let (top, rest) = largest_above (max n m) ms in
    (ground (arith, top), (ground (arith, top), rest))

max_either : (n m : ℕ) → (max n m ≡ n) ⊎ (max n m ≡ m)
max_either n m = elim (Bool-cases (leb m n)) [
  | inl low ↦ inl (ground (arith, low))
  | inr high ↦ inr (ground (arith, high))
]

largest-IsIn : (n : ℕ) (ms : List ℕ) → (largest n ms ≡ n) ⊎ IsIn (largest n ms) ms
unfolding largest
largest-IsIn n [] = inl refl
largest-IsIn n (m ∷ ms) = elim (largest-IsIn (max n m) ms) [
  | inr deep ↦ inr (inr deep)
  | inl top ↦ elim (max_either n m) [ inl e ↦ inl (top ∙ e) | inr e ↦ inr (inl (top ∙ e)) ]
]

none_zero : (ms : List ℕ) → any (λ n. n == 0) ms ≡ false → All (λ m. 0 < m) ms
none_zero [] h = tt
none_zero (m ∷ ms) h =
    let (a, b) = or_false (m == 0) (any (λ n. n == 0) ms) h in (ground (arith, a), none_zero ms b)

quota_zero : (q : ℕ) (qs : List ℕ) → any (λ n. n == 0) (q ∷ qs) ≡ true → quota_from (q ∷ qs) ≡ none
unfolding quota_from
quota_zero q qs h = rw h refl

quota_largest :
    (q : ℕ) (qs : List ℕ)
    → any (λ n. n == 0) (q ∷ qs) ≡ false
    → quota_from (q ∷ qs) ≡ some (largest q qs)
unfolding quota_from
quota_largest q qs h = rw h refl

quota_empty : quota_from [] ≡ none
unfolding quota_from
quota_empty = refl

-- A quota that limits is one of the quotas, none of which is larger, and all of which are positive: a
-- single unlimited role lifts the limit.
pub quota_from-IsIn :
    (qs : List ℕ) {quota : ℕ}
    → quota_from qs ≡ some quota
    → IsIn quota qs × All (λ q. q ≤ quota) qs × All (λ q. 0 < q) qs
quota_from-IsIn [] e = cc (quota_empty)
quota_from-IsIn (q ∷ qs) {quota} e = elim (Bool-cases (any (λ n. n == 0) (q ∷ qs))) [
  | inl unlimited ↦ cc (quota_zero q qs unlimited)
  | inr limited ↦
      let same : largest q qs ≡ quota = some-eq (sym (quota_largest q qs limited) ∙ e) in
      subst (λ x. IsIn x (q ∷ qs) × All (λ y. y ≤ x) (q ∷ qs) × All (λ y. 0 < y) (q ∷ qs)) same
        (largest-IsIn q qs, largest_above q qs, none_zero (q ∷ qs) limited)
]
