-- ===== src/Quota/Usage.antt =====
-- `track`, `setUsage` and `getUsage` of src/services/quota_service.ts against each other.
use adonisjs_lasagna_saas_te.Prelude.{ℕ, ◌+◌, ◌≡◌, String, none, some, arith, eq_refl}
use adonisjs_lasagna_saas_te.Prelude.{Option}
use adonisjs_lasagna_saas_te.Prelude.Int.{ℤ, pos_part}
use adonisjs_lasagna_saas_te.Exceptions.{ok}
use adonisjs_lasagna_saas_te.Store.{Store}
use adonisjs_lasagna_saas_te.Tenant.{Tenant}
use adonisjs_lasagna_saas_te.Quota.{TenantPlan, RedisServer, Env, World, up}
use adonisjs_lasagna_saas_te.Quota.Counters.{
  track, set_usage, get_usage, rolling_key, snapshot_key, rolling_ttl_seconds,
}
use adonisjs_lasagna_saas_te.Quota.Enforcement.{counter}

module _ {R : RedisServer} {T : Store TenantPlan} {C : Store (Option String)} (env : Env)
    (tenant : Tenant) (quota : String) (w : World R T C) where
  abbrev rolling : String
  rolling = rolling_key tenant.id env.today quota

  -- With Redis up and no rolling counter for the day, the usage read after a value was reported is
  -- that value, or 0 for a negative one.
  pub get_usage-set_usage :
      (value : ℤ)
      → env.link ≡ up
      → R.get rolling w.redis ≡ none
      → (get_usage env tenant quota (set_usage env tenant quota value w).1).0 ≡ ok (pos_part value)
  unfolding get_usage set_usage
  get_usage-set_usage value h e = ground (
    arith,
    eq_refl (snapshot_key tenant.id quota),
    R.get-put rolling (snapshot_key tenant.id quota) (pos_part value) w.redis,
    R.get-put (snapshot_key tenant.id quota) (snapshot_key tenant.id quota) (pos_part value)
        w.redis,
  )

  -- With Redis up, tracking answers with the rolling counter raised by the amount, and this is the
  -- usage read next, whatever value was reported before; the counter lives two days from then.
  pub get_usage-track :
      (amount : ℕ)
      → env.link ≡ up
      → let (r, w') = track env tenant quota amount w in
        (r ≡ ok (counter R rolling w.redis + amount))
        × ((get_usage env tenant quota w').0 ≡ r)
        × (R.ttl rolling w'.redis ≡ some rolling_ttl_seconds)
  unfolding get_usage track
  get_usage-track amount h = ground (
    arith,
    eq_refl rolling,
    R.incrby-reply rolling amount w.redis,
    R.get-expire rolling rolling rolling_ttl_seconds (R.incrby rolling amount w.redis).1,
    R.get-incrby rolling rolling amount w.redis,
    R.ttl-expire rolling rolling rolling_ttl_seconds (R.incrby rolling amount w.redis).1,
  )
