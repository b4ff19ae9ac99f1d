-- ===== src/Middleware/Tests.antt =====
-- The middleware on a tenant in maintenance, and on a tenant near its quota.
use adonisjs_lasagna_saas_te.Prelude.{◌≡◌, ◌⊎◌, refl, String, true, false, none, some, [], ◌∷◌}
use adonisjs_lasagna_saas_te.Exceptions.{ok, M}
use adonisjs_lasagna_saas_te.Tenant.{Tenant}
use adonisjs_lasagna_saas_te.Quota.{up}
use adonisjs_lasagna_saas_te.Quota
use adonisjs_lasagna_saas_te.Quota.Samples.{acme, env_at, plan_rows, plan_cache, empty}
use adonisjs_lasagna_saas_te.Quota.Memory.{redis_memory}
use adonisjs_lasagna_saas_te.Quota.Plans.{get_limit, get_plan_for, get_assigned_plan}
use adonisjs_lasagna_saas_te.Quota.{finite}
use adonisjs_lasagna_saas_te.Prelude.{lookup}
use adonisjs_lasagna_saas_te.Middleware.Guard.{
  GuardEnv, is_ignored, guard, EnforceQuotaOptions, has_maintenance_bypass,
}
use adonisjs_lasagna_saas_te.Middleware.Admission.{IsAdmitted, failure, guard-IsAdmitted}

abbrev closed : Tenant
closed = record acme { is_maintenance = true }

abbrev env : GuardEnv
env = record {
  ignore_paths = "/health" ∷ [];
  maintenance = some (record {
    retry_after_seconds = none;
    default_message = none;
    bypass_token = some "secret";
    bypass_header = none;
  });
  path = "/healthy";
  header = λ name. some "guess";
  is_open = λ id. false;
}

-- A path is ignored with what lies below it, and not by its first letters alone.
followed : is_ignored env ≡ false
unfolding is_ignored
followed = refl

-- A request with the wrong token is not let through.
no_bypass : has_maintenance_bypass env ≡ false
unfolding has_maintenance_bypass
no_bypass = refl

abbrev resolve : M (Unit {0}) Tenant
resolve w = (ok closed, w)

abbrev next : {W : Type 0} → M W String
next w = (ok "handled", w)

guard-IsAdmitted_example :
    (IsAdmitted env closed × (guard env resolve next tt ≡ (ok "handled", tt)))
    ⊎ ((¬ IsAdmitted env closed)
        × ((guard env resolve next tt).1 ≡ tt)
        × ((failure (guard env resolve next tt).0 ≡ some 403)
            ⊎ (failure (guard env resolve next tt).0 ≡ some 503)))
guard-IsAdmitted_example = guard-IsAdmitted env resolve next closed tt tt followed refl

abbrev TestWorld : Type 0
TestWorld = Quota.World redis_memory plan_rows plan_cache

abbrev found : M TestWorld Tenant
found w = (ok acme, w)

abbrev options : EnforceQuotaOptions
options = record { amount = some 4; enforce = none }

three_calls : (get_limit (env_at up) acme "apiCalls" empty).0 ≡ ok (finite 3)
unfolding get_limit get_plan_for get_assigned_plan lookup
three_calls = refl
