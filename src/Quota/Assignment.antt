-- ===== src/Quota/Assignment.antt =====
-- `assignPlan` of src/services/quota_service.ts, with the table and the cache.
use adonisjs_lasagna_saas_te.Prelude.{
  ℕ, ◌≡◌, ◌≢◌, refl, ap, List, [], ◌∷◌, String, true, false, Option, none, some, eq_refl, eq_iff,
  get_or, arith, ==_iff,
}
use adonisjs_lasagna_saas_te.Exceptions.{ok}
use adonisjs_lasagna_saas_te.Store.{Store}
use adonisjs_lasagna_saas_te.Quota.{TenantPlan, RedisServer, Env, World, tenant_plans}
use adonisjs_lasagna_saas_te.Quota.Plans.{
  row_plan, is_declared, AssignOptions, assign_plan, clear_assigned_plan, get_assigned_plan,
  has_expired, same_expiry,
}

-- A cache entry, where there is one, is what the row says now.
abbrev pub Agrees : ℕ → Option (Option String) → Option TenantPlan → Type 0
Agrees now none row = Unit
Agrees now (some cached) row = cached ≡ row_plan now row

-- The row that an assignment writes.
abbrev assigned_row : Env → String → AssignOptions → TenantPlan
assigned_row env plan opts = record {
  plan_name = plan;
  source = get_or opts.source "manual";
  assigned_at = env.now;
  expires_at = opts.expires_at;
}

abbrev get_name : Option TenantPlan → String
get_name none = ""
get_name (some row) = row.plan_name

abbrev get_expiry : Option TenantPlan → Option ℕ
get_expiry none = none
get_expiry (some row) = row.expires_at

pub same_expiry_eq : (t u : Option ℕ) → same_expiry t u ≡ true → t ≡ u
same_expiry_eq none none h = refl
same_expiry_eq none (some u) h = cc
same_expiry_eq (some t) none h = cc
same_expiry_eq (some t) (some u) h = ap some ((==_iff t u).0 h)

same_expiry_refl : (t : Option ℕ) → same_expiry t t ≡ true
same_expiry_refl none = refl
same_expiry_refl (some t) = (==_iff t t).1 refl

-- The operations that write rows of plans or entries of the cache.
pub data Operation : Type 0 where
  assign : String → String → AssignOptions → Operation
  clear : String → Operation
  read : String → Operation

module _ {R : RedisServer} {T : Store TenantPlan} {C : Store (Option String)} (env : Env) where
  abbrev pub IsCoherent : World R T C → Type 0
  IsCoherent w = (tenant : String) → Agrees env.now (C.get tenant w.cache) (T.get tenant w.plans)

  pub assign_plan-IsCoherent :
      (tenant plan : String) (opts : AssignOptions) (w : World R T C)
      → IsCoherent w
      → IsCoherent (assign_plan env tenant plan opts w).1
  unfolding assign_plan
  assign_plan-IsCoherent tenant plan opts w h other = ground (
    arith,
    h other,
    C.get-del other tenant w.cache,
    T.get-put other tenant (assigned_row env plan opts) w.plans,
  )

  pub clear_assigned_plan-IsCoherent :
      (tenant : String) (w : World R T C)
      → IsCoherent w
      → IsCoherent (clear_assigned_plan env tenant w).1
  unfolding clear_assigned_plan
  clear_assigned_plan-IsCoherent tenant w h other =
      ground (arith, h other, C.get-del other tenant w.cache, T.get-del other tenant w.plans)

  pub get_assigned_plan-IsCoherent :
      (tenant : String) (w : World R T C)
      → IsCoherent w
      → IsCoherent (get_assigned_plan env tenant w).1
  unfolding get_assigned_plan
  get_assigned_plan-IsCoherent tenant w h other = ground (
    arith,
    h other,
    eq_iff tenant other,
    C.get-put other tenant (row_plan env.now (T.get tenant w.plans)) w.cache,
  )

  unfoldable pub operate : List Operation → World R T C → World R T C
  operate [] w = w
  operate (assign tenant plan opts ∷ rest) w = operate rest (assign_plan env tenant plan opts w).1
  operate (clear tenant ∷ rest) w = operate rest (clear_assigned_plan env tenant w).1
  operate (read tenant ∷ rest) w = operate rest (get_assigned_plan env tenant w).1

  -- Whatever is assigned, cleared and read, at one time and in any order, the cache never disagrees
  -- with the table: every entry of the cache is the plan that the row of its tenant stands for.
  pub operate-IsCoherent :
      (operations : List Operation) (w : World R T C)
      → IsCoherent w
      → IsCoherent (operate operations w)
  unfolding operate
  operate-IsCoherent [] w h = h
  operate-IsCoherent (assign tenant plan opts ∷ rest) w h =
      operate-IsCoherent rest (assign_plan env tenant plan opts w).1
        (assign_plan-IsCoherent tenant plan opts w h)
  operate-IsCoherent (clear tenant ∷ rest) w h =
      operate-IsCoherent rest (clear_assigned_plan env tenant w).1
        (clear_assigned_plan-IsCoherent tenant w h)
  operate-IsCoherent (read tenant ∷ rest) w h =
      operate-IsCoherent rest (get_assigned_plan env tenant w).1
        (get_assigned_plan-IsCoherent tenant w h)

  -- With a cache that agrees with the table and the table in use, a declared plan assigned with no
  -- expiry in the past is the plan that is read next.
  pub get_assigned_plan-assign_plan :
      (tenant plan : String) (opts : AssignOptions) (w : World R T C)
      → IsCoherent w
      → w.storage_probe ≡ some tenant_plans
      → is_declared env.plans plan ≡ true
      → has_expired opts.expires_at env.now ≡ false
      → (get_assigned_plan env tenant (assign_plan env tenant plan opts w).1).0 ≡ ok (some plan)
  unfolding assign_plan get_assigned_plan
  get_assigned_plan-assign_plan tenant plan opts w h stored known valid = ground (
    arith,
    h tenant,
    eq_refl tenant,
    C.get-del tenant tenant w.cache,
    eq_iff (get_name (T.get tenant w.plans)) plan,
    same_expiry_eq (get_expiry (T.get tenant w.plans)) opts.expires_at,
    T.get-put tenant tenant (assigned_row env plan opts) w.plans,
  )

  -- An assignment made twice leaves the state that one leaves: neither the row nor its time of
  -- assignment nor the cache changes again.
  pub assign_plan_idempotent :
      (tenant plan : String) (opts : AssignOptions) (w : World R T C)
      → let w' = (assign_plan env tenant plan opts w).1 in
        (assign_plan env tenant plan opts w').1 ≡ w'
  unfolding assign_plan
  assign_plan_idempotent tenant plan opts w = ground (
    arith,
    eq_refl tenant,
    eq_refl plan,
    eq_refl (get_or opts.source "manual"),
    same_expiry_refl opts.expires_at,
    T.get-put tenant tenant (assigned_row env plan opts) w.plans,
  )

  -- An assignment of a plan that the configuration does not declare throws and writes nothing.
  pub assign_plan-undeclared :
      (tenant plan : String) (opts : AssignOptions) (w : World R T C)
      → is_declared env.plans plan ≡ false
      → ((assign_plan env tenant plan opts w).0 ≢ ok tt)
        × ((assign_plan env tenant plan opts w).1 ≡ w)
  unfolding assign_plan
  assign_plan-undeclared tenant plan opts w h = ground arith
