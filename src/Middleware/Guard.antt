-- ===== src/Middleware/Guard.antt =====
-- src/middleware/tenant_guard_middleware.ts and src/middleware/enforce_quota_middleware.ts.
use adonisjs_lasagna_saas_te.Prelude.{
  ℕ, String, Bool, true, false, not, ◌&&◌, ◌||◌, Option, none, some, List, str_append, str_eq, any,
  if◌then◌else◌, get_or, or_else, truthy,
}
use text.Mathlib.Text.{starts_with}
use adonisjs_lasagna_saas_te.Exceptions.{
  tenant_suspended, tenant_not_ready, tenant_maintenance, circuit_open, M, ◌>>=◌, raise,
}
use adonisjs_lasagna_saas_te.Store.{Store}
use adonisjs_lasagna_saas_te.Tenant.{Tenant}
use adonisjs_lasagna_saas_te.Quota.{RedisServer, TenantPlan}
use adonisjs_lasagna_saas_te.Quota
use adonisjs_lasagna_saas_te.Quota.Counters.{consume, track}

-- `config.maintenance`
pub record MaintenanceConfig : Type 0 where
  pub retry_after_seconds : Option ℕ
  pub default_message : Option String
  pub bypass_token : Option String
  pub bypass_header : Option String

-- What the guard reads besides the tenant: the configuration, the request, and the state of the
-- circuit breaker.
pub record GuardEnv : Type 0 where
  pub ignore_paths : List String
  pub maintenance : Option MaintenanceConfig
  pub path : String
  pub header : String → Option String
  pub is_open : String → Bool

-- `path === p || path.startsWith(`${p}/`)`, for some path of the configuration
unfoldable pub is_ignored : GuardEnv → Bool
is_ignored env =
    any (λ p. str_eq env.path p || starts_with env.path (str_append p "/")) env.ignore_paths

-- `#hasMaintenanceBypass`: the comparison in constant time is equality.
unfoldable pub presents : Option String → String → Bool
presents none token = false
presents (some presented) token = str_eq presented token

unfoldable pub bypass_of : GuardEnv → MaintenanceConfig → Bool
unfolding presents
bypass_of env cfg = elim (truthy cfg.bypass_token) [
  | none ↦ false
  | some token ↦
      presents (env.header (get_or cfg.bypass_header "x-tenant-bypass-maintenance")) token
]

unfoldable pub has_maintenance_bypass : GuardEnv → Bool
unfolding bypass_of
has_maintenance_bypass env = elim env.maintenance [ none ↦ false | some cfg ↦ bypass_of env cfg ]

abbrev retry_of : Option MaintenanceConfig → ℕ
retry_of none = 600
retry_of (some cfg) = get_or cfg.retry_after_seconds 600

abbrev message_of : Option MaintenanceConfig → Option String
message_of none = none
message_of (some cfg) = cfg.default_message

module _ {W A : Type 0} (env : GuardEnv) where
  -- The tests on the tenant, in the order of the source.
  unfoldable pub guard_tenant : Tenant → M W A → M W A
  guard_tenant tenant next =
      if tenant.is_suspended || tenant.is_deleted
      then raise tenant_suspended
      else if tenant.is_provisioning || tenant.is_failed
      then raise tenant_not_ready
      else if tenant.is_maintenance && not (has_maintenance_bypass env)
      then raise (
          tenant_maintenance (retry_of env.maintenance)
            (or_else tenant.maintenance_message (message_of env.maintenance)))
      else if env.is_open tenant.id
      then raise circuit_open
      else next

  -- `handle`, with `request.tenant()` and `next`.
  unfoldable pub guard : M W Tenant → M W A → M W A
  unfolding guard_tenant
  guard resolve next =
      if is_ignored env then next else do tenant ← resolve; guard_tenant tenant next

pub record EnforceQuotaOptions : Type 0 where
  pub amount : Option ℕ
  pub enforce : Option Bool

module _ {R : RedisServer} {T : Store TenantPlan} {C : Store (Option String)} {A : Type 0}
    (env : Quota.Env) where
  -- `enforceQuota`: an amount of 1 and enforcement where the options say nothing else.
  unfoldable pub enforce_quota :
      String
      → EnforceQuotaOptions
      → M (Quota.World R T C) Tenant
      → M (Quota.World R T C) A
      → M (Quota.World R T C) A
  enforce_quota quota options resolve next = do
    tenant ← resolve
    _ ←
        (if get_or options.enforce true
          then consume env tenant quota (get_or options.amount 1)
          else track env tenant quota (get_or options.amount 1))
    next
