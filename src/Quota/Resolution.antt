-- ===== src/Quota/Resolution.antt =====
-- `getPlanFor`, `consume`, `check` and `reset` of src/services/quota_service.ts as a whole.
use adonisjs_lasagna_saas_te.Prelude.{
  ℕ, ◌+◌, ◌≡◌, ◌⊎◌, ◌↔◌, String, true, Option, none, some, lookup, eq_refl, if◌then◌else◌, get_or,
  arith, leb, truthy,
}
use adonisjs_lasagna_saas_te.Exceptions.{Result, ok, throw, error, quota_exceeded}
use adonisjs_lasagna_saas_te.Store.{Store}
use adonisjs_lasagna_saas_te.Tenant.{Tenant}
use adonisjs_lasagna_saas_te.Quota.{
  PlanDefinition, PlansConfig, TenantPlan, RedisServer, Env, World, tenant_plans, config_only,
  StorageMode, up, finite,
}
use adonisjs_lasagna_saas_te.Quota.Plans.{
  row_plan, get_assigned_plan, get_plan_for, get_limit, default_fallback, probe_storage,
}
use adonisjs_lasagna_saas_te.Quota.Counters.{
  usage_in, QuotaCheckResult, check, consume, rolling_key, get_usage, snapshot_key,
}
use adonisjs_lasagna_saas_te.Quota.Reset.{reset}
use adonisjs_lasagna_saas_te.Quota.Enforcement.{counter}
use adonisjs_lasagna_saas_te.Quota.Consumption.{consume_under-up}
use adonisjs_lasagna_saas_te.Quota.Assignment.{IsCoherent}

abbrev pub host_choice : PlansConfig → Tenant → Option String
host_choice cfg tenant = elim cfg.get_plan [ none ↦ none | some f ↦ truthy (f tenant) ]

abbrev pub stored_choice : StorageMode → ℕ → Option TenantPlan → Option String
stored_choice config_only now row = none
stored_choice tenant_plans now row = row_plan now row

-- The order of precedence: the host's callback, the stored row, the default plan.
abbrev pub effective_plan : PlansConfig → Tenant → StorageMode → ℕ → Option TenantPlan → String
effective_plan cfg tenant mode now row =
    get_or (host_choice cfg tenant) (get_or (stored_choice mode now row) cfg.default_plan)

abbrev pub or_undeclared : String → Option PlanDefinition → Result (String × PlanDefinition)
or_undeclared name none = throw (error "plan is not declared in config.plans.definitions")
or_undeclared name (some plan) = ok (name, plan)

module _ {R : RedisServer} {T : Store TenantPlan} {C : Store (Option String)} (env : Env) where
  -- Where the cache agrees with the table, the plan of a tenant is the one of the highest precedence
  -- there is (the host's callback, the stored row that has not expired, the default plan), and an
  -- error where the configuration does not declare it.
  pub get_plan_for-effective_plan :
      (tenant : Tenant) (w : World R T C)
      → IsCoherent env w
      → let cfg = get_or env.plans default_fallback in
        let mode = get_or w.storage_probe (probe_storage env) in
        let name = effective_plan cfg tenant mode env.now (T.get tenant.id w.plans) in
        (get_plan_for env tenant w).0 ≡ or_undeclared name (lookup name cfg.definitions)
  unfolding get_plan_for get_assigned_plan
  get_plan_for-effective_plan tenant w h = ground (arith, h tenant.id)

  -- Looking a limit up leaves the counters alone.
  pub get_limit-redis :
      (tenant : Tenant) (quota : String) (w : World R T C)
      → ((get_limit env tenant quota w).1.redis ≡ w.redis)
        × ((get_limit env tenant quota w).1.plans ≡ w.plans)
        × ((get_limit env tenant quota w).1.events ≡ w.events)
  unfolding get_limit get_plan_for get_assigned_plan
  get_limit-redis tenant quota w = ground arith

  -- `consume` with Redis up, for a tenant whose plan sets a finite limit: the amount is granted in
  -- full, or the exception carries the counter as it stands and Redis is not written.
  pub consume-exact :
      (tenant : Tenant) (quota : String) (amount limit : ℕ) (w : World R T C)
      → env.link ≡ up
      → (get_limit env tenant quota w).0 ≡ ok (finite limit)
      → let key = rolling_key tenant.id env.today quota in
        let used = counter R key w.redis in
        let (r, w') = consume env tenant quota amount w in
        (r ≡ (
          if leb (used + amount) limit
          then ok (used + amount)
          else throw (quota_exceeded tenant.id quota limit used amount)))
        × (counter R key w'.redis ≡ (if leb (used + amount) limit then used + amount else used))
        × ((leb (used + amount) limit ≡ true) ⊎ (w'.redis ≡ w.redis))
  unfolding consume
  consume-exact tenant quota amount limit w h e = ground (
    arith,
    get_limit-redis tenant quota w,
    consume_under-up env tenant quota amount limit (get_limit env tenant quota w).1,
  )

  -- `check` foretells `consume`: with Redis up, a finite limit and a rolling counter, it reports the
  -- counter and the limit, and it allows exactly the amounts that `consume` then grants.
  pub check-consume :
      (tenant : Tenant) (quota : String) (amount limit current : ℕ) (w : World R T C)
      → env.link ≡ up
      → (get_limit env tenant quota w).0 ≡ ok (finite limit)
      → R.get (rolling_key tenant.id env.today quota) w.redis ≡ some current
      → let answer : QuotaCheckResult = record {
        allowed = leb (current + amount) limit;
        current = current;
        limit = finite limit;
        attempted = amount;
      } in
        ((check env tenant quota amount w).0 ≡ ok answer)
        × ((answer.allowed ≡ true)
            ↔ ((consume env tenant quota amount w).0 ≡ ok (current + amount)))
  unfolding check usage_in
  check-consume tenant quota amount limit current w h e there =
      ground (arith, get_limit-redis tenant quota w, consume-exact tenant quota amount limit w h e)

  -- With Redis up, after a reset of a named quota its usage reads 0.
  pub get_usage-reset :
      (tenant : Tenant) (quota : String) (w : World R T C)
      → env.link ≡ up
      → truthy (some quota) ≡ some quota
      → (get_usage env tenant quota (reset env tenant (some quota) w).1).0 ≡ ok 0
  unfolding get_usage reset
  get_usage-reset tenant quota w h q =
      let rolling = rolling_key tenant.id env.today quota in
      let snap = snapshot_key tenant.id quota in
      ground (
        arith,
        eq_refl rolling,
        eq_refl snap,
        R.get-del rolling snap (R.del rolling w.redis),
        R.get-del rolling rolling w.redis,
        R.get-del snap snap (R.del rolling w.redis),
      )
