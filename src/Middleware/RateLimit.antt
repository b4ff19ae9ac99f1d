-- ===== src/Middleware/RateLimit.antt =====
-- src/middleware/rate_limit_middleware.ts: a sliding window of requests in a sorted set of Redis.
pub mod Memory
pub mod Window
pub mod History
pub mod Tests
use adonisjs_lasagna_saas_te.Prelude.{
  ℕ, ◌+◌, ◌-◌, ◌*◌, ◌/◌, ◌≡◌, ◌⊎◌, String, Bool, true, false, not, ◌&&◌, Option, none, some, List,
  [], ◌∷◌, str_append, if◌then◌else◌, get_or, ltb, leb, ◌==◌,
}
use adonisjs_lasagna_saas_te.Exceptions.{
  error, too_many_requests, rate_limit_unavailable, Result, ok, throw, M, ◌>>=◌, raise,
}
use adonisjs_lasagna_saas_te.Prelude.Int.{ℤ, pos, negsuc}
use adonisjs_lasagna_saas_te.Store.{Store}
use adonisjs_lasagna_saas_te.Resilience.{DependencyDegraded, fail_open, fail_closed}
use adonisjs_lasagna_saas_te.Resolvers.{HttpRequest, ResolverConfig}
use adonisjs_lasagna_saas_te.Resolvers.Registry.{set_at}
use adonisjs_lasagna_saas_te.Request.{resolve_tenant_id}

-- The difference of two instants, which may be negative.
abbrev pub minus : ℕ → ℕ → ℤ
minus a b = if leb b a then pos (a - b) else negsuc (b - a - 1)

abbrev pub at_most : ℕ → ℤ → Bool
at_most score (pos n) = leb score n
at_most score (negsuc n) = false

-- The commands on sorted sets of Redis that the middleware uses, on the value of a key with its
-- expiry. `count p` is the number of members whose score and name are as `p` says; a name is the
-- text of an instant, and stands here as that instant. `visit` is what is left of a value at an
-- instant: nothing of it, once it has expired.
pub record SortedSets : Type 1 where
  pub Value : Type 0
  pub keyspace : Store Value
  pub missing : Value
  pub count : (ℕ → ℕ → Bool) → Value → ℕ
  pub expires_at : Value → Option ℕ
  pub visit : ℕ → Value → Value
  pub zremrangebyscore : ℤ → Value → Value
  pub zadd : ℕ → ℕ → Value → Value
  pub zcard : Value → ℕ
  -- the instant of the command, and the seconds
  pub expire : ℕ → ℕ → Value → Value
  pub zcard-count : (v : Value) → zcard v ≡ count (λ score name. true) v
  pub count-missing : (p : ℕ → ℕ → Bool) → count p missing ≡ 0
  pub count-zremrangebyscore :
      (p : ℕ → ℕ → Bool) (max : ℤ) (v : Value)
      → count p (zremrangebyscore max v)
        ≡ count (λ score name. not (at_most score max) && p score name) v
  pub count-zadd :
      (p : ℕ → ℕ → Bool) (score name : ℕ) (v : Value)
      → count p (zadd score name v)
        ≡ (if p score name then 1 else 0) + count (λ c n. not (n == name) && p c n) v
  pub count-expire :
      (p : ℕ → ℕ → Bool) (now seconds : ℕ) (v : Value) → count p (expire now seconds v) ≡ count p v
  pub expires_at-expire :
      (now seconds : ℕ) (v : Value)
      → expires_at (expire now seconds v) ≡ some (now + seconds * 1000)
  pub count-visit :
      (p : ℕ → ℕ → Bool) (now : ℕ) (v : Value)
      → (count p (visit now v) ≡ count p v)
        ⊎ ((e : ℕ) × (expires_at v ≡ some e) × (leb e now ≡ true) × (count p (visit now v) ≡ 0))

-- How Redis answers a pipeline: the package is absent, the commands work, each of them is answered
-- with an error (NOPERM), or the connection fails before them, or after (lost).
pub data PipelineLink : Type 0 where
  absent up refused down lost : PipelineLink

pub record RateLimitOptions : Type 0 where
  pub limit : ℕ
  pub window_seconds : ℕ
  pub prefix : Option String
  pub fail_open : Option Bool
  pub bypass_in_test_env : Option Bool

-- What the middleware reads: configuration and request, the clock, Redis, and whether this is a
-- run of tests.
pub record RateEnv : Type 0 where
  pub config : ResolverConfig
  pub request : HttpRequest
  pub ip : String
  pub now : ℕ
  pub link : PipelineLink
  pub in_test : Bool

pub record RateWorld (Z : SortedSets) : Type 0 where
  pub redis : Z.keyspace.State
  pub headers : List (String × ℕ)
  pub degraded : List DependencyDegraded

-- `${prefix}:${tenantId}:${ip}`
unfoldable pub tenant_of : RateEnv → String
tenant_of env = get_or (resolve_tenant_id env.config env.request) "global"

unfoldable pub rate_key : RateEnv → RateLimitOptions → String
unfolding tenant_of
rate_key env options =
    str_append (get_or options.prefix "rl")
      (str_append ":" (str_append (tenant_of env) (str_append ":" env.ip)))

module _ (Z : SortedSets) where
  -- The value of the key when `zcard` counts it.
  unfoldable pub logged : ℕ → ℕ → Z.Value → Z.Value
  logged now window_seconds v =
      Z.zadd now now (Z.zremrangebyscore (minus now (window_seconds * 1000)) (Z.visit now v))

  -- The four commands of the pipeline; the reply is that of `zcard`.
  unfoldable pub pipeline : String → ℕ → ℕ → Z.keyspace.State → ℕ × Z.keyspace.State
  unfolding logged
  pipeline key now window_seconds s =
      let v = logged now window_seconds (get_or (Z.keyspace.get key s) Z.missing) in
      (Z.zcard v, Z.keyspace.put key (Z.expire now window_seconds v) s)

-- `pipeline.exec()` and `results?.[2]?.[1] ?? 0`: errors of the commands are among the results, and
-- count 0.
unfoldable pub exec : {S : Type 0} → PipelineLink → (S → ℕ × S) → M S ℕ
exec up commands s = let (n, s') = commands s in (ok n, s')
exec refused commands s = (ok 0, s)
exec absent commands s = (throw (error "Cannot find package '@adonisjs/redis'"), s)
exec down commands s = (throw (error "Connection is closed."), s)
exec lost commands s = (throw (error "Connection is closed."), (commands s).1)

module _ {Z : SortedSets} where
  abbrev response_header : String → ℕ → RateWorld Z → RateWorld Z
  response_header name value w = record w { headers = set_at name value w.headers }

  abbrev pub rate_headers : RateEnv → RateLimitOptions → ℕ → RateWorld Z → RateWorld Z
  rate_headers env options count w =
      let w1 = response_header "X-RateLimit-Limit" options.limit w in
      let w2 = response_header "X-RateLimit-Remaining" (options.limit - count) w1 in
      let reset = (env.now + options.window_seconds * 1000 + 999) / 1000 in
      response_header "X-RateLimit-Reset" reset w2

  -- The headers of the answer, and the test of the count.
  unfoldable pub answer :
      {A : Type 0} → RateEnv → RateLimitOptions → M (RateWorld Z) A → ℕ → M (RateWorld Z) A
  answer env options next count w =
      let w' = rate_headers env options count w in
      if ltb options.limit count
      then (throw too_many_requests, response_header "Retry-After" options.window_seconds w')
      else next w'

  -- `emitRedisDegraded`
  unfoldable pub emit_redis_degraded : RateEnv → RateLimitOptions → RateWorld Z → RateWorld Z
  emit_redis_degraded env options w =
      let event : DependencyDegraded = record {
        dependency = "redis";
        operation = "rateLimit.check";
        tenant_id = some (tenant_of env);
        policy = if get_or options.fail_open false then fail_open else fail_closed;
      } in
      record w { degraded = event ∷ w.degraded }

  -- The `catch`: one event, then the policy of the route.
  unfoldable pub unavailable :
      {A : Type 0} → RateEnv → RateLimitOptions → M (RateWorld Z) A → M (RateWorld Z) A
  unfolding emit_redis_degraded
  unavailable env options next w =
      let w' = emit_redis_degraded env options w in
      if get_or options.fail_open false then next w' else (throw rate_limit_unavailable, w')

  unfoldable pub after_exec :
      {A : Type 0}
      → RateEnv
      → RateLimitOptions
      → M (RateWorld Z) A
      → Result ℕ × Z.keyspace.State
      → M (RateWorld Z) A
  unfolding answer unavailable
  after_exec env options next (ok count, s) w =
      answer env options next count (record w { redis = s })
  after_exec env options next (throw e, s) w = unavailable env options next (record w { redis = s })

  -- `handle`
  unfoldable pub rate_limit :
      {A : Type 0} → RateEnv → RateLimitOptions → M (RateWorld Z) A → M (RateWorld Z) A
  unfolding rate_key pipeline exec after_exec
  rate_limit env options next w =
      if env.in_test && not (get_or options.bypass_in_test_env false)
      then next w
      else after_exec env options next
          (exec env.link (pipeline Z (rate_key env options) env.now options.window_seconds) w.redis)
          w
