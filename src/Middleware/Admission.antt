-- ===== src/Middleware/Admission.antt =====
-- Which requests the guard and the quota middleware of src/middleware let through.
use adonisjs_lasagna_saas_te.Prelude.{
  ◌+◌, ℕ, ◌≡◌, ◌≢◌, ◌⊎◌, ◌∙◌, refl, ap, inl, inr, truthy, eq_iff, eq_refl, Bool-cases, Option-cases,
  String, Option, none, some, Bool, true, false, not, ◌&&◌, ◌||◌, get_or, leb, arith,
}
use adonisjs_lasagna_saas_te.Exceptions.{Result, ok, throw, M, status}
use adonisjs_lasagna_saas_te.Store.{Store}
use adonisjs_lasagna_saas_te.Tenant.{Tenant}
use adonisjs_lasagna_saas_te.Quota.{RedisServer, TenantPlan, up, finite}
use adonisjs_lasagna_saas_te.Quota
use adonisjs_lasagna_saas_te.Quota.Plans.{get_limit}
use adonisjs_lasagna_saas_te.Quota.Counters.{consume, rolling_key}
use adonisjs_lasagna_saas_te.Quota.Enforcement.{counter}
use adonisjs_lasagna_saas_te.Quota.Resolution.{consume-exact}
use adonisjs_lasagna_saas_te.Middleware.Guard.{
  GuardEnv, MaintenanceConfig, presents, bypass_of, is_ignored, has_maintenance_bypass, guard,
  EnforceQuotaOptions, enforce_quota,
}

-- The status of the answer to a request that fails.
abbrev pub failure : {A : Type 0} → Result A → Option ℕ
failure (ok a) = none
failure (throw e) = some (status e)

-- A request that presents the token of the configuration, which is not empty, in the header of the
-- configuration, or in the default one.
abbrev pub Bypasses : GuardEnv → Type 0
Bypasses env =
    (cfg : MaintenanceConfig) × (token : String) × (env.maintenance ≡ some cfg)
    × (cfg.bypass_token ≡ some token)
    × (token ≢ "")
    × (env.header (get_or cfg.bypass_header "x-tenant-bypass-maintenance") ≡ some token)

-- The tests of the guard on a tenant, all at once.
abbrev is_admitted : GuardEnv → Tenant → Bool
is_admitted env tenant =
    not (tenant.is_suspended || tenant.is_deleted || tenant.is_provisioning || tenant.is_failed)
    && (not tenant.is_maintenance || has_maintenance_bypass env)
    && not (env.is_open tenant.id)

-- A tenant that is active, in no maintenance that applies to the request, with its circuit closed.
pub record IsAdmitted (env : GuardEnv) (tenant : Tenant) : Type 0 where
  pub active :
      (tenant.is_suspended || tenant.is_deleted || tenant.is_provisioning || tenant.is_failed)
      ≡ false
  pub available : (tenant.is_maintenance ≡ false) ⊎ Bypasses env
  pub closed_circuit : env.is_open tenant.id ≡ false

truthy-some :
    (o : Option String) (token : String) → truthy o ≡ some token → (o ≡ some token) × (token ≢ "")
truthy-some none token h = absurd (cc h)
truthy-some (some String.[]) token h = absurd (cc h)
truthy-some (some (String.◌∷◌ c s)) token h =
    (h, λ e. let filled : some (String.◌∷◌ c s) ≡ some "" = h ∙ ap some e in cc (ap truthy filled))

truthy-not_empty : (token : String) → token ≢ "" → truthy (some token) ≡ some token
truthy-not_empty String.[] h = absurd (h refl)
truthy-not_empty (String.◌∷◌ c s) h = refl

module _ (env : GuardEnv) where
  presents-some :
      (presented : Option String) (token : String)
      → presents presented token ≡ true
      → presented ≡ some token
  unfolding presents
  presents-some none token h = absurd (cc h)
  presents-some (some s) token h = ap some ((eq_iff s token).0 h)

  has_maintenance_bypass-Bypasses : has_maintenance_bypass env ≡ true → Bypasses env
  unfolding has_maintenance_bypass bypass_of
  has_maintenance_bypass-Bypasses h = elim (Option-cases env.maintenance) [
    | inl e ↦ absurd (cc (rw (has_maintenance_bypass, e) at h))
    | inr (cfg, e) ↦ elim (Option-cases (truthy cfg.bypass_token)) [
      | inl e' ↦ absurd (cc (rw (has_maintenance_bypass, e, bypass_of, e') at h))
      | inr (token, e') ↦
          let (set, filled) = truthy-some cfg.bypass_token token e' in
          let presented = rw (has_maintenance_bypass, e, bypass_of, e') at h in
          (cfg, token, e, set, filled, presents-some _ token presented)
    ]
  ]

  Bypasses-has_maintenance_bypass : Bypasses env → has_maintenance_bypass env ≡ true
  unfolding has_maintenance_bypass bypass_of presents
  Bypasses-has_maintenance_bypass (cfg, token, configured, set, filled, presented) =
      let named : truthy cfg.bypass_token ≡ some token = rw set (truthy-not_empty token filled) in
      simp (has_maintenance_bypass, configured, bypass_of, named, presented, eq_refl token)

  is_admitted-IsAdmitted : (tenant : Tenant) → is_admitted env tenant ≡ true → IsAdmitted env tenant
  is_admitted-IsAdmitted tenant h = record {
    active = ground arith;
    available = elim (Bool-cases tenant.is_maintenance) [
      | inl e ↦ inr (has_maintenance_bypass-Bypasses (ground (arith, e)))
      | inr e ↦ inl e
    ];
    closed_circuit = ground arith;
  }

  IsAdmitted-is_admitted : (tenant : Tenant) → IsAdmitted env tenant → is_admitted env tenant ≡ true
  IsAdmitted-is_admitted tenant v = elim v.available [
    | inl e ↦ ground (arith, v.active, e, v.closed_circuit)
    | inr b ↦ ground (arith, v.active, Bypasses-has_maintenance_bypass b, v.closed_circuit)
  ]

module _ {W A : Type 0} (env : GuardEnv) where
  guard-is_admitted :
      (resolve : M W Tenant) (next : M W A) (tenant : Tenant) (w w' : W)
      → is_ignored env ≡ false
      → resolve w ≡ (ok tenant, w')
      → ((is_admitted env tenant ≡ true) × (guard env resolve next w ≡ next w'))
        ⊎ ((is_admitted env tenant ≡ false)
            × ((guard env resolve next w).1 ≡ w')
            × ((failure (guard env resolve next w).0 ≡ some 403)
                ⊎ (failure (guard env resolve next w).0 ≡ some 503)))
  unfolding guard status
  guard-is_admitted resolve next tenant w w' followed found = ground arith

  -- On a path that is not ignored, for a request whose tenant is resolved: the handler runs exactly
  -- where the tenant is active, in no maintenance or bypassed by the token of the configuration, and
  -- with its circuit closed; otherwise the answer is 403 or 503, and nothing more changes.
  pub guard-IsAdmitted :
      (resolve : M W Tenant) (next : M W A) (tenant : Tenant) (w w' : W)
      → is_ignored env ≡ false
      → resolve w ≡ (ok tenant, w')
      → (IsAdmitted env tenant × (guard env resolve next w ≡ next w'))
        ⊎ ((¬ IsAdmitted env tenant)
            × ((guard env resolve next w).1 ≡ w')
            × ((failure (guard env resolve next w).0 ≡ some 403)
                ⊎ (failure (guard env resolve next w).0 ≡ some 503)))
  guard-IsAdmitted resolve next tenant w w' followed found =
      elim (guard-is_admitted resolve next tenant w w' followed found) [
        | inl (admitted, runs) ↦ inl (is_admitted-IsAdmitted env tenant admitted, runs)
        | inr (refused, kept, answer) ↦
            inr (λ v. cc (refused, IsAdmitted-is_admitted env tenant v), kept, answer)
      ]

module _ {R : RedisServer} {T : Store TenantPlan} {C : Store (Option String)} {A : Type 0}
    (env : Quota.Env) where
  -- With Redis up and a finite limit, an enforced quota lets a request through where its amount
  -- fits, with the counter raised by the amount, and answers 429 where it does not.
  pub enforce_quota-consume :
      (quota : String) (options : EnforceQuotaOptions) (resolve : M (Quota.World R T C) Tenant)
      (next : M (Quota.World R T C) A) (tenant : Tenant) (limit : ℕ) (w w' : Quota.World R T C)
      → env.link ≡ up
      → get_or options.enforce true ≡ true
      → resolve w ≡ (ok tenant, w')
      → (get_limit env tenant quota w').0 ≡ ok (finite limit)
      → let amount = get_or options.amount 1 in
        let key = rolling_key tenant.id env.today quota in
        let used = counter R key w'.redis in
        let w'' = (consume env tenant quota amount w').1 in
        ((leb (used + amount) limit ≡ true)
          × (enforce_quota env quota options resolve next w ≡ next w'')
          × (counter R key w''.redis ≡ used + amount))
        ⊎ ((leb (used + amount) limit ≡ false)
            × (failure (enforce_quota env quota options resolve next w).0 ≡ some 429)
            × ((enforce_quota env quota options resolve next w).1.redis ≡ w'.redis))
  unfolding enforce_quota status
  enforce_quota-consume quota options resolve next tenant limit w w' h enforced found e =
      ground (arith, consume-exact env tenant quota (get_or options.amount 1) limit w' h e)
