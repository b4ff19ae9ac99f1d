-- ===== src/Middleware/Domains.antt =====
-- The tenants that the middleware of src/middleware set on a request: universal, central and
-- custom domain routes.
use adonisjs_lasagna_saas_te.Prelude.{
  get_or, ap, ◌≡◌, ◌≢◌, ◌⊎◌, inl, inr, refl, String, true, false, Option, none, some, truthy,
  before, str_eq, arith, eq_refl, eq_iff, Bool-cases, Option-cases,
}
use mathlib.Core.Option
use adonisjs_lasagna_saas_te.Exceptions.{Result, ok, M, status}
use adonisjs_lasagna_saas_te.Tenant.{Tenant}
use adonisjs_lasagna_saas_te.Resolvers.{TenantResolveResult, by_id, HttpRequest, ResolverConfig}
use adonisjs_lasagna_saas_te.Resolvers.Builtins.{resolve_header}
use adonisjs_lasagna_saas_te.Request.{
  TenantRepository, RequestEnv, RequestState, resolve_tenant, request_tenant,
}
use adonisjs_lasagna_saas_te.Middleware.Admission.{failure}
use adonisjs_lasagna_saas_te.Middleware.Routes.{
  is_served, try_look_up, try_connect, try_resolve, universal, central_only, custom_domain, claim,
  set_header,
}

module _ {W : Type 0} (env : RequestEnv W) where
  try_look_up-is_served :
      (r : Result (Option TenantResolveResult)) (tenant : Tenant)
      → try_look_up env r ≡ some tenant
      → (is_served tenant ≡ true) × (env.connect tenant ≡ ok tt)
  unfolding try_look_up try_connect
  try_look_up-is_served r tenant e = ground arith

  -- A universal route runs its handler in every case; the middleware changes the tenant of the
  -- request only to a tenant that is active and connected, which `request.tenant()` then answers.
  pub universal-is_served :
      {A : Type 0} (next : M (RequestState W) A) (s : RequestState W)
      → (s' : RequestState W) × (universal env next s ≡ next s')
        × ((s'.memo ≡ s.memo)
            ⊎ ((tenant : Tenant) × (request_tenant env s' ≡ (ok tenant, s'))
                × (is_served tenant ≡ true)
                × (env.connect tenant ≡ ok tt)))
  unfolding universal try_resolve request_tenant
  universal-is_served next s =
      elim (Option-cases (try_look_up env (resolve_tenant env s.world).0)) [
        | inl e ↦
            (record s { world = (resolve_tenant env s.world).1 }, simp (universal, e), inl refl)
        | inr (tenant, e) ↦
            let connected = try_look_up-is_served (resolve_tenant env s.world).0 tenant e in
            (
              record { memo = some tenant; world = (resolve_tenant env s.world).1 },
              simp (universal, e),
              inr (tenant, refl, connected.0, connected.1),
            )
      ]

  -- A central route runs its handler exactly where no tenant is resolved; otherwise it fails, and
  -- only what the resolvers call is changed.
  pub central_only-resolve_tenant :
      {A : Type 0} (next : M (RequestState W) A) (s : RequestState W)
      → let s' = record s { world = (resolve_tenant env s.world).1 } in
        (((resolve_tenant env s.world).0 ≡ ok none) × (central_only env next s ≡ next s'))
        ⊎ (((resolve_tenant env s.world).0 ≢ ok none)
            × (failure (central_only env next s).0 ≢ none)
            × ((central_only env next s).1 ≡ s'))
  unfolding central_only status
  central_only-resolve_tenant next s = ground arith

some-ne : (a b : String) → str_eq a b ≡ false → some a ≢ some b
some-ne a b apart q =
    let same : a ≡ b = ap (λ o. get_or o a) q in absurd (cc (same, apart, eq_refl b))

module _ {W A : Type 0} (repo : TenantRepository) where
  -- Where the header of the tenant is configured as x-tenant-id, and a tenant with an id that is not empty claims the host: a strict custom domain route answers 400
  -- to a header that names another tenant, with no further effect; any other request reaches the
  -- handler with the header of the host's tenant, which the header strategy reads.
  pub custom_domain-strict :
      (next : HttpRequest → M W A) (request : HttpRequest) (host : String) (tenant : Tenant)
      (cfg : ResolverConfig) (w : W)
      → cfg.tenant_header_key ≡ "x-tenant-id"
      → truthy (some tenant.id) ≡ some tenant.id
      → truthy (Option.map (before b':') (request.header "host")) ≡ some host
      → repo.find_by_domain host ≡ ok (some tenant)
      → let given = truthy (request.header "x-tenant-id") in
        let request' = set_header "x-tenant-id" tenant.id request in
        let answer = custom_domain (some repo) true next request w in
        ((given ≢ none) × (given ≢ some tenant.id) × (failure answer.0 ≡ some 400) × (answer.1 ≡ w))
        ⊎ (((given ≡ none) ⊎ (given ≡ some tenant.id))
            × (answer ≡ next request' w)
            × (resolve_header cfg request' ≡ some (by_id tenant.id)))
  unfolding custom_domain claim resolve_header status
  custom_domain-strict next request host tenant cfg w key named e f =
      elim (Option-cases (truthy (request.header "x-tenant-id"))) [
        | inl g ↦
            inr (inl g, simp (custom_domain, claim, e, f, g), simp (resolve_header, key, named))
        | inr (id, g) ↦ elim (Bool-cases (str_eq id tenant.id)) [
          | inl same ↦ inr (
            inr (rw g (ap some ((eq_iff id tenant.id).0 same))),
            simp (custom_domain, claim, e, f, g, same),
            simp (resolve_header, key, named),
          )
          | inr apart ↦ inl (
            rw g (λ q. cc q),
            rw g (some-ne id tenant.id apart),
            simp (custom_domain, claim, e, f, g, apart),
            simp (custom_domain, claim, e, f, g, apart),
          )
        ]
      ]
