-- ===== src/Quota/Plans.antt =====
-- src/services/quota_service.ts: which plan applies to a tenant, and how one is assigned.
use adonisjs_lasagna_saas_te.Prelude.{
  ℕ, String, Bool, true, false, ◌&&◌, Option, none, some, [], ◌∷◌, str_eq, ◌==◌, ltb, lookup,
  if◌then◌else◌, get_or, is_some, truthy,
}
use adonisjs_lasagna_saas_te.Exceptions.{error, ok, M, ◌>>=◌, pure, raise, modify}
use adonisjs_lasagna_saas_te.Store.{Store}
use adonisjs_lasagna_saas_te.Tenant.{Tenant}
use adonisjs_lasagna_saas_te.Quota.{
  Limit, infinite, PlanDefinition, StorageMode, config_only, tenant_plans, DeclaredStorage,
  declared, auto, PlansConfig, TenantPlan, RedisServer, Env, World,
}

-- `DEFAULT_FALLBACK`
abbrev pub default_fallback : PlansConfig
default_fallback = record {
  default_plan = "__default__";
  definitions = ("__default__", record { limits = [] }) ∷ [];
  get_plan = none;
  storage = auto;
  emit_tracked = false;
}

-- The answer of `to_regclass`, where a query that fails counts as no table.
abbrev from_table : Option Bool → StorageMode
from_table none = config_only
from_table (some true) = tenant_plans
from_table (some false) = config_only

abbrev from_declared : DeclaredStorage → Option Bool → StorageMode
from_declared (declared mode) table = mode
from_declared auto table = from_table table

-- What `resolveStorageMode` finds where nothing is memoised.
unfoldable pub probe_storage : Env → StorageMode
probe_storage env = elim env.plans [
  | none ↦ from_table env.table_exists
  | some cfg ↦ from_declared cfg.storage env.table_exists
]

-- `row.expiresAt && row.expiresAt < DateTime.utc()`
abbrev pub has_expired : Option ℕ → ℕ → Bool
has_expired none now = false
has_expired (some t) now = ltb t now

abbrev pub same_expiry : Option ℕ → Option ℕ → Bool
same_expiry none none = true
same_expiry none (some u) = false
same_expiry (some t) none = false
same_expiry (some t) (some u) = t == u

-- The plan that a row stands for at a time: an expired row counts as missing.
abbrev pub row_plan : ℕ → Option TenantPlan → Option String
row_plan now none = none
row_plan now (some row) = if has_expired row.expires_at now then none else some row.plan_name

-- The test under which `assignPlan` leaves an existing row alone.
abbrev pub is_unchanged : String → String → Option ℕ → Option TenantPlan → Bool
is_unchanged plan source expires none = false
is_unchanged plan source expires (some row) =
    str_eq row.plan_name plan && str_eq row.source source && same_expiry row.expires_at expires

-- `cfg && !cfg.definitions[planName]`, the other way round
abbrev pub is_declared : Option PlansConfig → String → Bool
is_declared none plan = true
is_declared (some cfg) plan = is_some (lookup plan cfg.definitions)

pub record AssignOptions : Type 0 where
  pub source : Option String
  pub expires_at : Option ℕ

abbrev pub undeclared_plan : {W A : Type 0} → String → M W A
undeclared_plan plan = raise (error "plan is not declared in config.plans.definitions")

-- The limit of a quota on a plan; a quota that the plan does not name is unlimited.
unfoldable pub limit_of : PlanDefinition → String → Limit
limit_of plan quota = get_or (lookup quota plan.limits) infinite

-- `await cfg.getPlan?.(tenant)`, where an empty name counts as none
host_plan : PlansConfig → Tenant → Option String
host_plan cfg tenant = elim cfg.get_plan [ none ↦ none | some f ↦ truthy (f tenant) ]

module _ {R : RedisServer} {T : Store TenantPlan} {C : Store (Option String)} (env : Env) where
  unfoldable pub resolve_storage_mode : M (World R T C) StorageMode
  resolve_storage_mode w = elim w.storage_probe [
    | some mode ↦ (ok mode, w)
    | none ↦ let mode = probe_storage env in (ok mode, record w { storage_probe = some mode })
  ]

  -- `getOrSet` of the cache, with the factory that reads the row.
  unfoldable pub get_or_set : String → M (World R T C) (Option String)
  get_or_set tenant w = elim (C.get tenant w.cache) [
    | some cached ↦ (ok cached, w)
    | none ↦
        let plan = row_plan env.now (T.get tenant w.plans) in
        (ok plan, record w { cache = C.put tenant plan w.cache })
  ]

  stored_plan : String → StorageMode → M (World R T C) (Option String)
  stored_plan tenant config_only = pure none
  stored_plan tenant tenant_plans = get_or_set tenant

  unfoldable pub get_assigned_plan : String → M (World R T C) (Option String)
  unfolding resolve_storage_mode get_or_set stored_plan
  get_assigned_plan tenant = do mode ← resolve_storage_mode; stored_plan tenant mode

  resolved_name : PlansConfig → Tenant → Option String → M (World R T C) String
  resolved_name cfg tenant (some name) = pure name
  resolved_name cfg tenant none = do
    stored ← get_assigned_plan tenant.id
    pure (get_or stored cfg.default_plan)

  named_plan : PlansConfig → String → M (World R T C) (String × PlanDefinition)
  named_plan cfg name = elim (lookup name cfg.definitions) [
    | none ↦ undeclared_plan name
    | some plan ↦ pure (name, plan)
  ]

  unfoldable pub get_plan_for : Tenant → M (World R T C) (String × PlanDefinition)
  unfolding host_plan resolved_name named_plan
  get_plan_for tenant = do
    let cfg = get_or env.plans default_fallback
    name ← resolved_name cfg tenant (host_plan cfg tenant)
    named_plan cfg name

  unfoldable pub get_limit : Tenant → String → M (World R T C) Limit
  unfolding limit_of
  get_limit tenant quota = do found ← get_plan_for tenant; pure (limit_of found.1 quota)

  -- The write of `assignPlan`: the row, then the cache entry.
  unfoldable pub write_plan : String → String → String → Option ℕ → World R T C → World R T C
  write_plan tenant plan source expires w = record w {
    plans =
        T.put tenant
          (record {
            plan_name = plan;
            source = source;
            assigned_at = env.now;
            expires_at = expires;
          })
          w.plans;
    cache = C.del tenant w.cache;
  }

  unfoldable pub assign_plan : String → String → AssignOptions → M (World R T C) (Unit {0})
  unfolding write_plan
  assign_plan tenant plan opts w =
      let source = get_or opts.source "manual" in
      if is_declared env.plans plan
      then if is_unchanged plan source opts.expires_at (T.get tenant w.plans)
        then (ok tt, w)
        else (ok tt, write_plan tenant plan source opts.expires_at w)
      else undeclared_plan plan w

  unfoldable pub clear_assigned_plan : String → M (World R T C) (Unit {0})
  clear_assigned_plan tenant =
      modify (λ w. record w { plans = T.del tenant w.plans; cache = C.del tenant w.cache })
