-- ===== src/Quota/Samples.antt =====
-- A tenant, its plans, and the state of the quota service at the start, for the tests.
use adonisjs_lasagna_saas_te.Prelude.{String, true, false, Option, none, some, [], ◌∷◌}
use adonisjs_lasagna_saas_te.Store.{Store}
use adonisjs_lasagna_saas_te.Store.Memory.{memory, nothing}
use adonisjs_lasagna_saas_te.Tenant.{Tenant}
use adonisjs_lasagna_saas_te.Quota.{
  TenantPlan, PlansConfig, finite, tenant_plans, auto, Link, Env, World,
}
use adonisjs_lasagna_saas_te.Quota.Memory.{redis_memory}

abbrev pub acme : Tenant
acme = record {
  id = "acme";
  custom_domain = none;
  is_suspended = false;
  is_provisioning = false;
  is_failed = false;
  is_deleted = false;
  is_maintenance = false;
  maintenance_message = none;
}

abbrev pub plans : PlansConfig
plans = record {
  default_plan = "free";
  definitions =
      ("free", record { limits = ("apiCalls", finite 3) ∷ [] })
      ∷ ("pro", record { limits = ("apiCalls", finite 100) ∷ [] })
      ∷ [];
  get_plan = none;
  storage = auto;
  emit_tracked = true;
}

abbrev pub env_at : Link → Env
env_at link = record {
  plans = some plans;
  policy = none;
  observe = none;
  link = link;
  table_exists = some true;
  now = 1000;
  today = "2026-01-01";
}

abbrev pub plan_rows : Store TenantPlan
plan_rows = memory TenantPlan

abbrev pub plan_cache : Store (Option String)
plan_cache = memory (Option String)

abbrev pub empty : World redis_memory plan_rows plan_cache
empty = record {
  redis = (nothing, nothing);
  plans = nothing;
  cache = nothing;
  storage_probe = some tenant_plans;
  events = [];
}
