-- ===== src/Quota/Consumption.antt =====
-- `consume` of src/services/quota_service.ts under a limit, with Redis up and down.
use adonisjs_lasagna_saas_te.Prelude.{
  ℕ, ◌+◌, ◌≡◌, ◌⊎◌, ◌≢◌, ◌↔◌, String, Bool, true, false, Option, some, List, [], ◌∷◌, ◌++◌, eq_iff,
  leb, if◌then◌else◌, get_or, arith, append-nil,
}
use adonisjs_lasagna_saas_te.Exceptions.{ok, throw, quota_exceeded, dependency_unavailable}
use adonisjs_lasagna_saas_te.Store.{Store}
use adonisjs_lasagna_saas_te.Tenant.{Tenant}
use adonisjs_lasagna_saas_te.Resilience.{fail_open, fail_closed, FailurePolicy}
use adonisjs_lasagna_saas_te.Quota.{
  TenantPlan, RedisServer, Env, World, finite, up, lost, tenant_quota_exceeded, dependency_degraded,
  quota_tracked, Event,
}
use adonisjs_lasagna_saas_te.Quota.Counters.{
  rolling_ttl_seconds, rolling_key, consume_under, emits_tracked, fits, usage_in,
}
use adonisjs_lasagna_saas_te.Quota.Enforcement.{
  counter, counter-quota_consume_lua, quota_consume_lua-reply, quota_consume_lua-refused,
}

abbrev is_fail_open : FailurePolicy → Bool
is_fail_open fail_open = true
is_fail_open fail_closed = false

module _ {R : RedisServer} {T : Store TenantPlan} {C : Store (Option String)} (env : Env)
    (tenant : Tenant) (quota : String) (amount limit : ℕ) (w : World R T C) where
  abbrev key : String
  key = rolling_key tenant.id env.today quota

  abbrev used : ℕ
  used = counter R key w.redis

  -- What `consume` tells the listeners.
  abbrev told : List Event
  told =
      if leb (used + amount) limit
      then if emits_tracked env
        then quota_tracked tenant.id quota amount (used + amount) ∷ []
        else []
      else tenant_quota_exceeded tenant.id quota limit used amount ∷ []

  -- With Redis up, consuming under a finite limit grants the amount where the counter and the
  -- amount stay within the limit, and then the counter is their sum; otherwise it throws with the
  -- counter as it stands, and Redis is not written. The stored plans and the cache do not change.
  pub consume_under-up :
      env.link ≡ up
      → let (r, w') = consume_under env tenant quota amount (finite limit) w in
        (r ≡ (
          if leb (used + amount) limit
          then ok (used + amount)
          else throw (quota_exceeded tenant.id quota limit used amount)))
        × (counter R key w'.redis ≡ (if leb (used + amount) limit then used + amount else used))
        × ((leb (used + amount) limit ≡ true) ⊎ (w'.redis ≡ w.redis))
        × (w'.plans ≡ w.plans)
        × (w'.cache ≡ w.cache)
  unfolding consume_under
  consume_under-up h = ground (
    arith,
    quota_consume_lua-reply R key limit amount rolling_ttl_seconds w.redis,
    counter-quota_consume_lua R key key limit amount rolling_ttl_seconds w.redis,
    quota_consume_lua-refused R key limit amount rolling_ttl_seconds w.redis,
    eq_iff key key,
  )

  -- With Redis up, the listeners hear of exactly one thing: the usage tracked, where the amount
  -- fits and the configuration asks for it, or the quota exceeded, where it does not fit.
  pub consume_under-events :
      env.link ≡ up
      → (consume_under env tenant quota amount (finite limit) w).1.events ≡ w.events ++ told
  unfolding consume_under
  consume_under-events h = ground (
    arith,
    append-nil w.events,
    quota_consume_lua-reply R key limit amount rolling_ttl_seconds w.redis,
  )

  -- With Redis out of reach the policy decides: the answer is 0, with no enforcement, or the error
  -- of an unavailable dependency. Redis changes only where the script ran and its answer was
  -- lost, and one event of degradation is sent, unless the configuration turns it off.
  pub consume_under-down :
      env.link ≢ up
      → let (r, w') = consume_under env tenant quota amount (finite limit) w in
        (r ≡ (
          if is_fail_open (get_or env.policy fail_open)
          then ok 0
          else throw (dependency_unavailable "redis" "quota.consume" (some tenant.id))))
        × ((env.link ≡ lost) ⊎ (w'.redis ≡ w.redis))
        × (w'.events
            ≡ w.events
              ++ (if get_or env.observe true
                  then dependency_degraded (record {
                    dependency = "redis";
                    operation = "quota.consume";
                    tenant_id = some tenant.id;
                    policy = get_or env.policy fail_open;
                  })
                    ∷ []
                  else []))
  unfolding consume_under
  consume_under-down h = ground (arith, append-nil w.events)

  -- `check` foretells `consume`: with Redis up and a rolling counter, it allows exactly the
  -- amounts that `consume` then grants.
  pub check-consume_under :
      {current : ℕ}
      → env.link ≡ up
      → R.get key w.redis ≡ some current
      → (fits (usage_in R env.today tenant.id quota w.redis + amount) (finite limit) ≡ true)
        ↔ ((consume_under env tenant quota amount (finite limit) w).0 ≡ ok (current + amount))
  unfolding consume_under usage_in
  check-consume_under h e =
      ground (arith, quota_consume_lua-reply R key limit amount rolling_ttl_seconds w.redis)
