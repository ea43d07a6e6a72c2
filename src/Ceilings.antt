-- ===== src/Ceilings.antt =====
-- worker/regulator_agent/ceilings.py: which concurrent-search limit a run hits first. What the client's
-- calls return is a parameter: the members, the roles' entries and the peers, none where a call failed.
-- Hosts, users and roles are texts that are only compared: numbers. Notes are left out.
pub mod Quota
pub mod Effective
pub mod Tests
use Prim.Native.Nat.{max}
use regulator.Prelude.{
  ℕ, ◌+◌, ◌*◌, ◌/◌, Bool, true, false, not, ◌&&◌, ◌||◌, Option, none, some, List, [], ◌∷◌, ◌++◌,
  any, all, length, ltb, leb, ◌==◌, if◌then◌else◌,
}

pub data Routing : Type 0 where
  single_instance direct load_balancer : Routing

-- A member's management address, if it gives one.
abbrev pub Members : Type 0
Members = List (Option ℕ)

unfoldable pub names : ℕ → Members → Bool
names ours [] = false
names ours (none ∷ ms) = names ours ms
names ours (some host ∷ ms) = (host == ours) || names ours ms

unfoldable pub routing_of : ℕ → Members → Routing
unfolding names
routing_of ours [] = single_instance
routing_of ours (m ∷ ms) = if names ours (m ∷ ms) then direct else load_balancer

-- How many members the load is spread over.
unfoldable pub spread : ℕ → Members → ℕ
unfolding routing_of
spread ours members = elim (routing_of ours members) [
  | load_balancer ↦ length members
  | direct ↦ 1
  | single_instance ↦ 1
]

pub record Role : Type 0 where
  pub srch_jobs_quota : Option ℕ
  pub imported_srch_jobs_quota : Option ℕ
  pub cumulative_srch_jobs_quota : Option ℕ

abbrev pub listed : Option ℕ → List ℕ
listed none = []
listed (some n) = n ∷ []

abbrev pub quotas_of : Option Role → List ℕ
quotas_of none = []
quotas_of (some role) = listed role.srch_jobs_quota ++ listed role.imported_srch_jobs_quota

-- The quotas of the roles that could be read, in order.
unfoldable pub quotas : (ℕ → Option Role) → List ℕ → List ℕ
quotas read [] = []
quotas read (role ∷ roles) = quotas_of (read role) ++ quotas read roles

abbrev pub cumulative_of : ℕ → Option Role → List (ℕ × ℕ)
cumulative_of name none = []
cumulative_of name (some role) = elim role.cumulative_srch_jobs_quota [
  | none ↦ []
  | some value ↦ if value == 0 then [] else (value, name) ∷ []
]

unfoldable pub cumulative : (ℕ → Option Role) → List ℕ → List (ℕ × ℕ)
cumulative read [] = []
cumulative read (role ∷ roles) = cumulative_of role (read role) ++ cumulative read roles

-- Python's `max` of a list that is not empty, and of pairs.
unfoldable pub largest : ℕ → List ℕ → ℕ
largest n [] = n
largest n (m ∷ ms) = largest (max n m) ms

pub larger : ℕ × ℕ → ℕ × ℕ → ℕ × ℕ
larger p q = if ltb p.0 q.0 || (p.0 == q.0 && ltb p.1 q.1) then q else p

pub largest_pair : ℕ × ℕ → List (ℕ × ℕ) → ℕ × ℕ
unfolding larger
largest_pair p [] = p
largest_pair p (q ∷ qs) = largest_pair (larger p q) qs

unfoldable pub some_largest_pair : List (ℕ × ℕ) → Option (ℕ × ℕ)
unfolding largest_pair
some_largest_pair [] = none
some_largest_pair (p ∷ ps) = some (largest_pair p ps)

-- 0 is "no limit"; otherwise the largest quota of any role.
unfoldable pub quota_from : List ℕ → Option ℕ
unfolding largest
quota_from [] = none
quota_from (q ∷ qs) = if any (λ n. n == 0) (q ∷ qs) then none else some (largest q qs)

pub record Account : Type 0 where
  pub srch_jobs_quota : Option ℕ
  pub cumulative_quota : Option (ℕ × ℕ)

abbrev pub no_quota : Account
no_quota = record { srch_jobs_quota = none; cumulative_quota = none }

-- `_account`, of the roles of the current context, which is none where it was not readable.
unfoldable pub account : (ℕ → Option Role) → Option (List ℕ) → Option Account
unfolding quotas cumulative quota_from some_largest_pair
account read none = none
account read (some roles) = elim (quotas read roles) [
  | [] ↦ some no_quota
  | q ∷ qs ↦ some (record {
    srch_jobs_quota = quota_from (q ∷ qs);
    cumulative_quota = some_largest_pair (cumulative read roles);
  })
]

pub data Kind : Type 0 where
  cluster_limit head_limit role_quota : Kind

abbrev pub quota_of : Option Account → Option ℕ
quota_of none = none
quota_of (some account) = account.srch_jobs_quota

abbrev pub head_kind : ℕ → Kind
head_kind over = if ltb 1 over then cluster_limit else head_limit

unfoldable pub head_candidates : ℕ → Option ℕ → List (Kind × ℕ)
head_candidates over none = []
head_candidates over (some ad_hoc) = (head_kind over, ad_hoc * over) ∷ []

-- A quota of 0 is no candidate.
unfoldable pub quota_candidates : ℕ → Option ℕ → List (Kind × ℕ)
quota_candidates over none = []
quota_candidates over (some quota) = if quota == 0 then [] else (role_quota, quota * over) ∷ []

unfoldable pub lower : Kind × ℕ → Kind × ℕ → Kind × ℕ
lower c d = if ltb d.1 c.1 then d else c

-- Python's `min` by the value: of equal ones the first.
unfoldable pub lower_of : Kind × ℕ → List (Kind × ℕ) → Kind × ℕ
unfolding lower
lower_of c [] = c
lower_of c (d ∷ ds) = lower_of (lower c d) ds

unfoldable pub least : List (Kind × ℕ) → Option (Kind × ℕ)
unfolding lower_of
least [] = none
least (c ∷ cs) = some (lower_of c cs)

unfoldable pub candidates : ℕ → Option ℕ → Option ℕ → List (Kind × ℕ)
unfolding head_candidates quota_candidates
candidates over ad_hoc quota = head_candidates over ad_hoc ++ quota_candidates over quota

-- `out["effective"]` of `search_ceilings`.
unfoldable pub effective : ℕ → Members → Option ℕ → Option Account → Option (Kind × ℕ)
unfolding spread candidates least
effective ours members ad_hoc account =
    least (candidates (spread ours members) ad_hoc (quota_of account))

-- int(ad_hoc * perc / 100)
unfoldable pub scheduler_share : Option ℕ → Option ℕ → Option ℕ
scheduler_share none perc = none
scheduler_share (some ad_hoc) none = none
scheduler_share (some ad_hoc) (some perc) = some (ad_hoc * perc / 100)

-- The total of the members, where the cluster has any.
unfoldable pub ad_hoc_total : Members → Option ℕ → Option ℕ
ad_hoc_total members none = none
ad_hoc_total members (some ad_hoc) = some (ad_hoc * length members)
