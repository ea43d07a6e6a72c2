-- ===== src/Ceilings/Tests.antt =====
-- A cluster behind a load balancer, and the theorems at it.
use regulator.Prelude.{◌==◌, if◌then◌else◌, ℕ, ◌≡◌, refl, Option, none, some, [], ◌∷◌}
use regulator.Ceilings.{
  Members, Role, role_quota, routing_of, names, load_balancer, spread, quotas, cumulative,
  quota_from, account, candidates, effective, quota_of, largest,
}
use regulator.Ceilings.Effective.{IsFirst, effective-IsFirst}

program : Unit {0}
unfolding names routing_of spread quotas cumulative quota_from largest account candidates effective
program = tt

abbrev members : Members
members = some 1 ∷ none ∷ some 3 ∷ []

abbrev roles : ℕ → Option Role
roles n =
    if n == 1
    then some (record {
      srch_jobs_quota = some 3;
      imported_srch_jobs_quota = some 8;
      cumulative_srch_jobs_quota = some 0;
    })
    else none

balanced : routing_of 9 members ≡ load_balancer
unfolding program
balanced = refl

-- Three members of 50 searches each, and a quota of 8 for each.
quota_binds :
    effective 9 members (some 50) (account roles (some (1 ∷ 2 ∷ []))) ≡ some (role_quota, 24)
unfolding program
quota_binds = refl

effective-IsFirst_example :
    IsFirst (spread 9 members) (some 50) (quota_of (account roles (some (1 ∷ 2 ∷ [])))) 24
effective-IsFirst_example =
    effective-IsFirst 9 members (some 50) (account roles (some (1 ∷ 2 ∷ []))) quota_binds

quota_value : quota_from (3 ∷ 8 ∷ []) ≡ some 8
unfolding program
quota_value = refl
