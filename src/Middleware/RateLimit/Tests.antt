-- ===== src/Middleware/RateLimit/Tests.antt =====
-- Two requests in a second, and two requests at one instant.
use adonisjs_lasagna_saas_te.Prelude.{
  ◌≡◌, ◌⊎◌, refl, ℕ, String, true, false, none, some, List, [], ◌∷◌, leb, arith,
}
use adonisjs_lasagna_saas_te.Exceptions.{ok, M}
use adonisjs_lasagna_saas_te.Store.Memory.{nothing}
use adonisjs_lasagna_saas_te.Request.{resolve_tenant_id, legacy_id, legacy_host, legacy_label}
use adonisjs_lasagna_saas_te.Resolvers.Builtins.{hostname_of, suffix_of}
use adonisjs_lasagna_saas_te.Request.Samples.{config, request_to}
use adonisjs_lasagna_saas_te.Middleware.Admission.{failure}
use adonisjs_lasagna_saas_te.Middleware.RateLimit.{
  PipelineLink, up, refused, RateEnv, RateLimitOptions, RateWorld, rate_limit, rate_key, tenant_of,
  pipeline, logged,
}
use adonisjs_lasagna_saas_te.Middleware.RateLimit.Memory.{sets_memory}
use adonisjs_lasagna_saas_te.Middleware.RateLimit.History.{after, rate_limit-window}

abbrev env : PipelineLink → ℕ → RateEnv
env link now = record {
  config = config;
  request = request_to "acme.app.test";
  ip = "10.0.0.1";
  now = now;
  link = link;
  in_test = false;
}

abbrev one_a_second : RateLimitOptions
one_a_second = record {
  limit = 1;
  window_seconds = 1;
  prefix = none;
  fail_open = none;
  bypass_in_test_env = none;
}

abbrev key : String
key = "rl:acme:10.0.0.1"

the_key : rate_key (env up 0) one_a_second ≡ key
unfolding rate_key tenant_of resolve_tenant_id legacy_id legacy_host legacy_label hostname_of
    suffix_of
the_key = refl

abbrev history : List (String × ℕ)
history = (key, 5000) ∷ ("rl:globex:10.0.0.2", 4990) ∷ (key, 3000) ∷ []

abbrev world : RateWorld sets_memory
world = record { redis = after sets_memory 1 history nothing; headers = []; degraded = [] }

abbrev next : M (RateWorld sets_memory) String
next w = (ok "handled", w)

-- At one instant, every request after the first is counted as that first one.
same_instant :
    (pipeline sets_memory key 7000 1
      (after sets_memory 1 ((key, 7000) ∷ (key, 7000) ∷ []) nothing)).0
    ≡ 1
unfolding pipeline logged
same_instant = refl

-- A request passes with a count of 0 where the commands are answered with errors.
refused_passes : (rate_limit (env refused 7000) one_a_second next world).0 ≡ ok "handled"
unfolding rate_limit
refused_passes = refl

rate_limit-window_example :
    ((leb 2 1 ≡ true)
      × ((w' : RateWorld sets_memory) × (rate_limit (env up 5500) one_a_second next world ≡ next w')
          × (w'.redis ≡ after sets_memory 1 ((key, 5500) ∷ history) nothing)
          × (w'.degraded ≡ [])))
    ⊎ ((leb 2 1 ≡ false)
        × (failure (rate_limit (env up 5500) one_a_second next world).0 ≡ some 429)
        × ((rate_limit (env up 5500) one_a_second next world).1.redis
            ≡ after sets_memory 1 ((key, 5500) ∷ history) nothing))
unfolding rate_key tenant_of resolve_tenant_id legacy_id legacy_host legacy_label hostname_of
    suffix_of
rate_limit-window_example =
    rate_limit-window (env up 5500) one_a_second next history nothing world refl refl (omega arith)
      refl refl (((omega arith), ((omega arith), tt)), (((omega arith), tt), (tt, tt)))
