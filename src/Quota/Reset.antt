-- ===== src/Quota/Reset.antt =====
-- src/services/quota_service.ts: `reset` and `snapshot`, every counter of a tenant, and every limit of its plan.
use adonisjs_lasagna_saas_te.Prelude.{
  ℕ, String, Option, none, some, List, [], ◌∷◌, ◌++◌, str_append, truthy,
}
use adonisjs_lasagna_saas_te.Exceptions.{M, ◌>>=◌, pure}
use adonisjs_lasagna_saas_te.Store.{Store}
use adonisjs_lasagna_saas_te.Tenant.{Tenant}
use adonisjs_lasagna_saas_te.Quota.{Limit, TenantPlan, RedisServer, Env, World}
use adonisjs_lasagna_saas_te.Quota.Plans.{get_plan_for}
use adonisjs_lasagna_saas_te.Quota.Counters.{rolling_key, snapshot_key, redis_write, get_usage}

pub record QuotaStateSnapshot : Type 0 where
  pub plan : String
  pub limits : List (String × Limit)
  pub usage : List (String × ℕ)

-- The loop over the cursor: what every page holds.
collect : List (List String) → List String
collect [] = []
collect (page ∷ pages) = page ++ collect pages

module _ (R : RedisServer) where
  -- DEL of several keys
  unfoldable pub del_all : List String → R.State → R.State
  del_all [] s = s
  del_all (k ∷ ks) s = del_all ks (R.del k s)

  unfoldable pub reset_quota : String → String → String → R.State → R.State
  reset_quota today tenant quota s =
      R.del (snapshot_key tenant quota) (R.del (rolling_key tenant today quota) s)

  unfoldable pub reset_all : String → R.State → R.State
  unfolding collect del_all
  reset_all tenant s = del_all (collect (R.scan (str_append "quota:" (str_append tenant ":*")) s)) s

module _ {R : RedisServer} {T : Store TenantPlan} {C : Store (Option String)} (env : Env) where
  -- An empty quota name is no name.
  unfoldable pub reset : Tenant → Option String → M (World R T C) (Unit {0})
  unfolding reset_quota reset_all redis_write
  reset tenant quota = elim (truthy quota) [
    | some q ↦ redis_write env (reset_quota R env.today tenant.id q)
    | none ↦ redis_write env (reset_all R tenant.id)
  ]

  usages : Tenant → List (String × Limit) → M (World R T C) (List (String × ℕ))
  usages tenant [] = pure []
  usages tenant ((quota, _) ∷ limits) = do
    used ← get_usage env tenant quota
    rest ← usages tenant limits
    pure ((quota, used) ∷ rest)

  unfoldable pub snapshot : Tenant → M (World R T C) QuotaStateSnapshot
  unfolding usages
  snapshot tenant = do
    found ← get_plan_for env tenant
    used ← usages tenant found.1.limits
    pure (record { plan = found.0; limits = found.1.limits; usage = used })
