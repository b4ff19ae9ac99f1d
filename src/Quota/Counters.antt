-- ===== src/Quota/Counters.antt =====
-- src/services/quota_service.ts: the script on the counters, and the operations over it.
use adonisjs_lasagna_saas_te.Prelude.{
  ℕ, ◌+◌, String, Bool, true, false, Option, none, some, [], ◌∷◌, ◌++◌, str_append, ltb, leb,
  if◌then◌else◌, get_or,
}
use adonisjs_lasagna_saas_te.Prelude.Int.{ℤ, pos_part}
use adonisjs_lasagna_saas_te.Exceptions.{
  quota_exceeded, error, ok, throw, M, ◌>>=◌, ◌>>◌, pure, raise, modify,
}
use adonisjs_lasagna_saas_te.Store.{Store}
use adonisjs_lasagna_saas_te.Tenant.{Tenant}
use adonisjs_lasagna_saas_te.Resilience.{FailurePolicy, fail_open, DependencyDegraded, RunOptions}
use adonisjs_lasagna_saas_te.Resilience
use adonisjs_lasagna_saas_te.Quota.{
  Limit, finite, infinite, TenantPlan, Event, tenant_quota_exceeded, quota_tracked,
  dependency_degraded, RedisServer, Link, absent, up, down, lost, Env, World,
}
use adonisjs_lasagna_saas_te.Quota.Plans.{get_limit}

-- `ROLLING_TTL_SECONDS`
abbrev pub rolling_ttl_seconds : ℕ
rolling_ttl_seconds = 172800

-- `#rollingKey` and `#snapshotKey`
unfoldable pub rolling_key : String → String → String → String
rolling_key tenant today quota =
    str_append "quota:"
      (str_append tenant (str_append ":" (str_append today (str_append ":" quota))))

unfoldable pub snapshot_key : String → String → String
snapshot_key tenant quota = str_append "quota:" (str_append tenant (str_append ":snap:" quota))

module _ (R : RedisServer) where
  -- `QUOTA_CONSUME_LUA`: whether the amount was granted, and the counter.
  unfoldable pub quota_consume_lua : String → ℕ → ℕ → ℕ → R.State → (Bool × ℕ) × R.State
  quota_consume_lua key limit amount seconds s =
      let current = get_or (R.get key s) 0 in
      let (value, s') = R.incrby key amount s in
      if ltb limit (current + amount)
      then ((false, current), s)
      else ((true, value), R.expire key seconds s')

  -- The rolling counter of the day, or the snapshot where there is none.
  unfoldable pub usage_in : String → String → String → R.State → ℕ
  usage_in today tenant quota s = elim (R.get (rolling_key tenant today quota) s) [
    | some rolling ↦ rolling
    | none ↦ get_or (R.get (snapshot_key tenant quota) s) 0
  ]

-- A Redis command under the state of the connection.
command : {S A : Type 0} → Link → (S → A × S) → M S A
command absent f s = (throw (error "@adonisjs/redis is not installed or not registered"), s)
command up f s = let (a, s') = f s in (ok a, s')
command down f s = (throw (error "Connection is closed."), s)
command lost f s = (throw (error "Connection is closed."), (f s).1)

-- The answer of `check`.
pub record QuotaCheckResult : Type 0 where
  pub allowed : Bool
  pub current : ℕ
  pub limit : Limit
  pub attempted : ℕ

-- `current + amount <= limit`
abbrev pub fits : ℕ → Limit → Bool
fits n infinite = true
fits n (finite limit) = leb n limit

abbrev pub emits_tracked : Env → Bool
emits_tracked env = elim env.plans [ none ↦ false | some cfg ↦ cfg.emit_tracked ]

module _ {R : RedisServer} {T : Store TenantPlan} {C : Store (Option String)} (env : Env) where
  dispatch : Event → World R T C → World R T C
  dispatch e w = record w { events = w.events ++ e ∷ [] }

  -- A dependency call on Redis, under the policy `config.resilience.redis.quota`.
  guarded : {A : Type 0} → String → String → A → (R.State → A × R.State) → M (World R T C) A
  unfolding dispatch command Resilience.run
  guarded operation tenant fallback f =
      Resilience.run (get_or env.observe true) (λ d. dispatch (dependency_degraded d))
        (record {
          dependency = "redis";
          operation = operation;
          policy = get_or env.policy fail_open;
          tenant_id = some tenant;
          fallback = fallback;
        })
        (λ w. let (r, s) = command env.link f w.redis in (r, record w { redis = s }))

  tracked : String → String → ℕ → ℕ → M (World R T C) ℕ
  unfolding dispatch
  tracked tenant quota amount total w = (
    ok total,
    if emits_tracked env then dispatch (quota_tracked tenant quota amount total) w else w,
  )

  -- A failure that the policy let pass counts nothing.
  after_track : String → String → ℕ → Option ℕ → M (World R T C) ℕ
  unfolding tracked
  after_track tenant quota amount none = pure 0
  after_track tenant quota amount (some total) = tracked tenant quota amount total

  unfoldable pub track : Tenant → String → ℕ → M (World R T C) ℕ
  unfolding guarded after_track
  track tenant quota amount = do
    let key = rolling_key tenant.id env.today quota
    counted ← guarded "quota.track" tenant.id none (λ s.
        let (next, s') = R.incrby key amount s in (some next, R.expire key rolling_ttl_seconds s'))
    after_track tenant.id quota amount counted

  after_consume : String → String → ℕ → ℕ → Option (Bool × ℕ) → M (World R T C) ℕ
  unfolding tracked dispatch
  after_consume tenant quota limit amount none = pure 0
  after_consume tenant quota limit amount (some (true, total)) = tracked tenant quota amount total
  after_consume tenant quota limit amount (some (false, current)) = do
    modify (dispatch (tenant_quota_exceeded tenant quota limit current amount))
    raise (quota_exceeded tenant quota limit current amount)

  unfoldable pub consume_under : Tenant → String → ℕ → Limit → M (World R T C) ℕ
  unfolding track guarded after_consume quota_consume_lua
  consume_under tenant quota amount infinite = track tenant quota amount
  consume_under tenant quota amount (finite limit) = do
    let key = rolling_key tenant.id env.today quota
    result ← guarded "quota.consume" tenant.id none (λ s.
        let (r, s') = quota_consume_lua R key limit amount rolling_ttl_seconds s in (some r, s'))
    after_consume tenant.id quota limit amount result

  unfoldable pub consume : Tenant → String → ℕ → M (World R T C) ℕ
  unfolding consume_under
  consume tenant quota amount = do
    limit ← get_limit env tenant quota
    consume_under tenant quota amount limit

  -- A read with no policy: 0 where the package is absent, and an error where the read fails.
  redis_read : {A : Type 0} → A → (R.State → A) → M (World R T C) A
  redis_read default f w = elim env.link [
    | absent ↦ (ok default, w)
    | up ↦ (ok (f w.redis), w)
    | _ ↦ (throw (error "Connection is closed."), w)
  ]

  unfoldable pub get_usage : Tenant → String → M (World R T C) ℕ
  unfolding redis_read usage_in
  get_usage tenant quota = redis_read 0 (usage_in R env.today tenant.id quota)

  -- A write with no policy: nothing where the package is absent.
  unfoldable pub redis_write : (R.State → R.State) → M (World R T C) (Unit {0})
  redis_write f w = elim env.link [
    | absent ↦ (ok tt, w)
    | up ↦ (ok tt, record w { redis = f w.redis })
    | down ↦ (throw (error "Connection is closed."), w)
    | lost ↦ (throw (error "Connection is closed."), record w { redis = f w.redis })
  ]

  unfoldable pub set_usage : Tenant → String → ℤ → M (World R T C) (Unit {0})
  unfolding redis_write
  set_usage tenant quota value = redis_write (R.put (snapshot_key tenant.id quota) (pos_part value))

  unfoldable pub check : Tenant → String → ℕ → M (World R T C) QuotaCheckResult
  unfolding get_usage
  check tenant quota amount = do
    limit ← get_limit env tenant quota
    current ← get_usage tenant quota
    pure (record {
      allowed = fits (current + amount) limit;
      current = current;
      limit = limit;
      attempted = amount;
    })
