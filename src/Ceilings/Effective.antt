-- ===== src/Ceilings/Effective.antt =====
-- The limit that binds first is the least of those that are known.
use mathlib.Core.Path.{subst}
use regulator.Prelude.{
  ℕ, ◌*◌, ◌≤◌, ◌<◌, ◌≡◌, refl, ap, ◌∙◌, sym, ◌⊎◌, inl, inr, Option, none, some, List, [], ◌∷◌, All,
  arith, ltb, ◌==◌, Bool-cases, some-eq,
}
use regulator.Ceilings.{
  Members, spread, Account, quota_of, Kind, head_candidates, quota_candidates, lower_of, least,
  candidates, effective, lower, role_quota, head_kind,
}

abbrev IsBelow : List (Kind × ℕ) → Kind × ℕ → Type 0
IsBelow ds c = All (λ d. c.1 ≤ d.1) ds

lower_cases :
    (c d : Kind × ℕ)
    → ((lower c d).1 ≤ c.1)
      × ((lower c d).1 ≤ d.1)
      × (((lower c d).1 ≡ c.1) ⊎ ((lower c d).1 ≡ d.1))
unfolding lower
lower_cases c d = elim (Bool-cases (ltb d.1 c.1)) [
  | inl under ↦ rw under (ground (arith, under), omega arith, inr refl)
  | inr over ↦ rw over (omega arith, ground (arith, over), inl refl)
]

lower_of-IsBelow :
    (c : Kind × ℕ) (ds : List (Kind × ℕ)) → ((lower_of c ds).1 ≤ c.1) × IsBelow ds (lower_of c ds)
unfolding lower_of
lower_of-IsBelow c [] = (omega arith, tt)
lower_of-IsBelow c (d ∷ ds) =
    let (to_c, to_d, which) = lower_cases c d in
    let (top, rest) = lower_of-IsBelow (lower c d) ds in
    (omega (arith, top, to_c), (omega (arith, top, to_d), rest))

-- One of the values is `n`.
abbrev HasValue : ℕ → List (Kind × ℕ) → Type 0
HasValue n [] = ⊥
HasValue n (d ∷ ds) = (n ≡ d.1) ⊎ HasValue n ds

lower_of-HasValue : (c : Kind × ℕ) (ds : List (Kind × ℕ)) → HasValue (lower_of c ds).1 (c ∷ ds)
unfolding lower_of
lower_of-HasValue c [] = inl refl
lower_of-HasValue c (d ∷ ds) =
    let (to_c, to_d, which) = lower_cases c d in
    elim (lower_of-HasValue (lower c d) ds) [
      | inr deep ↦ inr (inr deep)
      | inl same ↦ elim which [ inl c_it ↦ inl (same ∙ c_it) | inr d_it ↦ inr (inl (same ∙ d_it)) ]
    ]

least_lem :
    (cs : List (Kind × ℕ)) {c : Kind × ℕ} → least cs ≡ some c → IsBelow cs c × HasValue c.1 cs
unfolding least
least_lem [] e = cc
least_lem (d ∷ ds) e =
    subst (λ x. IsBelow (d ∷ ds) x × HasValue x.1 (d ∷ ds)) (some-eq e)
      (lower_of-IsBelow d ds, lower_of-HasValue d ds)

abbrev pub IsLimit : ℕ → Option ℕ → Option ℕ → ℕ → Type 0
IsLimit over ad_hoc quota value =
    ((a : ℕ) × (ad_hoc ≡ some a) × (value ≡ a * over))
    ⊎ ((q : ℕ) × (quota ≡ some q) × (0 < q) × (value ≡ q * over))

-- No limit that is known is lower, and it is one of them.
abbrev pub IsFirst : ℕ → Option ℕ → Option ℕ → ℕ → Type 0
IsFirst over ad_hoc quota value =
    ((a : ℕ) → ad_hoc ≡ some a → value ≤ a * over)
    × ((q : ℕ) → quota ≡ some q → 0 < q → value ≤ q * over)
    × IsLimit over ad_hoc quota value

-- What the quota adds to the candidates.
quota_cases :
    (over : ℕ) (quota : Option ℕ)
    → ((quota_candidates over quota ≡ []) × ((q : ℕ) → quota ≡ some q → 0 < q → ⊥))
      ⊎ ((q : ℕ) × (quota ≡ some q)
          × (0 < q)
          × (quota_candidates over quota ≡ (role_quota, q * over) ∷ []))
unfolding quota_candidates
quota_cases over none = inl (refl, λ q e pos. cc)
quota_cases over (some n) = elim (Bool-cases (n == 0)) [
  | inl free ↦ inl (
    rw free refl,
    λ q e pos. let same : n ≡ q = some-eq e in absurd (ground (arith, free, same, pos)),
  )
  | inr limits ↦ inr (n, refl, ground (arith, limits), rw limits refl)
]

only_ad_hoc :
    (over a : ℕ) (quota : Option ℕ) (c : Kind × ℕ)
    → ((q : ℕ) → quota ≡ some q → 0 < q → ⊥)
    → least ((head_kind over, a * over) ∷ []) ≡ some c
    → IsFirst over (some a) quota c.1
only_ad_hoc over a quota c no_quota e =
    let ((below, u), one) = least_lem ((head_kind over, a * over) ∷ []) e in
    (
      (λ b p. subst (λ x. c.1 ≤ x * over) (some-eq p) below),
      (λ q p pos. absurd (no_quota q p pos)),
      elim one [ inl same ↦ inl (a, refl, same) | inr none_left ↦ absurd none_left ],
    )

only_quota :
    (over q : ℕ) (c : Kind × ℕ)
    → 0 < q
    → least ((role_quota, q * over) ∷ []) ≡ some c
    → IsFirst over none (some q) c.1
only_quota over q c pos e =
    let ((below, u), one) = least_lem ((role_quota, q * over) ∷ []) e in
    (
      (λ b p. cc),
      (λ r p pos'. subst (λ x. c.1 ≤ x * over) (some-eq p) below),
      elim one [ inl same ↦ inr (q, refl, pos, same) | inr none_left ↦ absurd none_left ],
    )

both_limits :
    (over a q : ℕ) (c : Kind × ℕ)
    → 0 < q
    → least ((head_kind over, a * over) ∷ (role_quota, q * over) ∷ []) ≡ some c
    → IsFirst over (some a) (some q) c.1
both_limits over a q c pos e =
    let ((below_a, (below_q, u)), one) =
      least_lem ((head_kind over, a * over) ∷ (role_quota, q * over) ∷ []) e in
    (
      (λ b p. subst (λ x. c.1 ≤ x * over) (some-eq p) below_a),
      (λ r p pos'. subst (λ x. c.1 ≤ x * over) (some-eq p) below_q),
      elim one [
        | inl same ↦ inl (a, refl, same)
        | inr other ↦ elim other [
          | inl same ↦ inr (q, refl, pos, same)
          | inr none_left ↦ absurd none_left
        ]
      ],
    )

limits-IsFirst :
    (over : ℕ) (ad_hoc quota : Option ℕ) (c : Kind × ℕ)
    → least (candidates over ad_hoc quota) ≡ some c
    → IsFirst over ad_hoc quota c.1
unfolding candidates head_candidates
limits-IsFirst over none quota c e = elim (quota_cases over quota) [
  | inl (empty, no_quota) ↦ absurd ((least_lem [] (ap least (sym empty) ∙ e)).1)
  | inr (q, is, pos, one) ↦
      subst (λ o. IsFirst over none o c.1) (sym is)
        (only_quota over q c pos (ap least (sym one) ∙ e))
]
limits-IsFirst over (some a) quota c e =
    let head : Kind × ℕ = (head_kind over, a * over) in
    elim (quota_cases over quota) [
      | inl (empty, no_quota) ↦
          only_ad_hoc over a quota c no_quota (ap (λ l. least (head ∷ l)) (sym empty) ∙ e)
      | inr (q, is, pos, one) ↦
          subst (λ o. IsFirst over (some a) o c.1) (sym is)
            (both_limits over a q c pos (ap (λ l. least (head ∷ l)) (sym one) ∙ e))
    ]

-- Where a limit is reported as effective: the head's ad hoc limit, if it is known, and the account's
-- quota, if it is not 0, times the members that the load is spread over are no lower, and the limit
-- is one of them.
pub effective-IsFirst :
    (ours : ℕ) (members : Members) (ad_hoc : Option ℕ) (account : Option Account) {c : Kind × ℕ}
    → effective ours members ad_hoc account ≡ some c
    → IsFirst (spread ours members) ad_hoc (quota_of account) c.1
unfolding effective
effective-IsFirst ours members ad_hoc account {c} e =
    limits-IsFirst (spread ours members) ad_hoc (quota_of account) c e
