-- ===== src/Quota/Tests.antt =====
-- The quota service on concrete tenants and plans.
use adonisjs_lasagna_saas_te.Prelude.{
  ◌+◌, ◌≤◌, ◌≡◌, ◌≢◌, ◌⊎◌, inl, inr, refl, String, true, false, none, some, List, [], ◌∷◌, arith,
  str_eq, if◌then◌else◌, lookup,
}
use adonisjs_lasagna_saas_te.Exceptions.{ok, throw, quota_exceeded}
use adonisjs_lasagna_saas_te.Store.Memory.{nothing}
use adonisjs_lasagna_saas_te.Quota.{finite, up, down, World}
use adonisjs_lasagna_saas_te.Quota.Plans.{
  get_limit, get_plan_for, get_assigned_plan, is_declared, AssignOptions,
}
use adonisjs_lasagna_saas_te.Quota.Counters.{quota_consume_lua, rolling_key, consume}
use adonisjs_lasagna_saas_te.Quota.Assignment.{
  IsCoherent, operate, assign, clear, read, operate-IsCoherent,
}
use adonisjs_lasagna_saas_te.Quota.Resolution.{consume-exact, get_plan_for-effective_plan}
use adonisjs_lasagna_saas_te.Quota.Memory.{redis_memory}
use adonisjs_lasagna_saas_te.Quota.Samples.{acme, plans, env_at, plan_rows, plan_cache, empty}
use adonisjs_lasagna_saas_te.Quota.Enforcement.{Request, counter, evals-no_overgrant, granted}

abbrev requests : List Request
requests =
    record { key = "q"; limit = 3; amount = 2 }
    ∷ record { key = "q"; limit = 3; amount = 2 }
    ∷ record { key = "r"; limit = 9; amount = 5 }
    ∷ record { key = "q"; limit = 2; amount = 1 }
    ∷ []

-- Of these requests the first is granted and no other under the key.
granted_two : granted redis_memory "q" requests (nothing, nothing) ≡ 2
unfolding granted quota_consume_lua
granted_two = refl

evals-no_overgrant_example : 0 + granted redis_memory "q" requests (nothing, nothing) ≤ 3
evals-no_overgrant_example =
    evals-no_overgrant redis_memory "q" 3 requests (nothing, nothing)
      (inr (omega arith), (inr (omega arith), (inl refl, (inr (omega arith), tt)))) (omega arith)

-- The free plan allows three calls.
get_limit-acme : (get_limit (env_at up) acme "apiCalls" empty).0 ≡ ok (finite 3)
unfolding get_limit get_plan_for get_assigned_plan lookup
get_limit-acme = refl

abbrev acme_key : String
acme_key = rolling_key "acme" "2026-01-01" "apiCalls"

abbrev second : World redis_memory plan_rows plan_cache
second = record empty { redis = (λ k. if str_eq acme_key k then some 2 else none, nothing) }

get_limit-second : (get_limit (env_at up) acme "apiCalls" second).0 ≡ ok (finite 3)
unfolding get_limit get_plan_for get_assigned_plan lookup
get_limit-second = refl

consume-exact_example :
    ((consume (env_at up) acme "apiCalls" 2 second).0
      ≡ throw (quota_exceeded "acme" "apiCalls" 3 2 2))
    × (counter redis_memory acme_key (consume (env_at up) acme "apiCalls" 2 second).1.redis ≡ 2)
    × ((false ≡ true) ⊎ ((consume (env_at up) acme "apiCalls" 2 second).1.redis ≡ second.redis))
unfolding rolling_key
consume-exact_example = consume-exact (env_at up) acme "apiCalls" 2 3 second refl get_limit-second

down_up : down ≢ up
down_up e = absurd cc

coherent : IsCoherent (env_at up) empty
coherent tenant = tt

abbrev monthly : AssignOptions
monthly = record { source = some "stripe"; expires_at = some 2000 }

operate-IsCoherent_example : IsCoherent (env_at up) (
    operate
      (env_at up)
      (read "acme" ∷ assign "acme" "pro" monthly ∷ read "acme" ∷ clear "acme" ∷ [])
      empty)
operate-IsCoherent_example =
    operate-IsCoherent (env_at up)
      (read "acme" ∷ assign "acme" "pro" monthly ∷ read "acme" ∷ clear "acme" ∷ []) empty coherent

pro_declared : is_declared (some plans) "pro" ≡ true
unfolding lookup
pro_declared = refl

gold_undeclared : is_declared (some plans) "gold" ≡ false
unfolding lookup
gold_undeclared = refl

get_plan_for-effective_plan_example :
    (get_plan_for (env_at up) acme empty).0
    ≡ ok ("free", record { limits = ("apiCalls", finite 3) ∷ [] })
unfolding lookup
get_plan_for-effective_plan_example = get_plan_for-effective_plan (env_at up) acme empty coherent
