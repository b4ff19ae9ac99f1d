-- ===== src/Middleware/Routes.antt =====
-- src/middleware/universal_middleware.ts, central_only_middleware.ts and
-- custom_domain_middleware.ts.
use adonisjs_lasagna_saas_te.Prelude.{
  String, Bool, false, not, ◌&&◌, ◌||◌, Option, none, some, str_eq, if◌then◌else◌, truthy, before,
  is_some,
}
use mathlib.Core.Option
use adonisjs_lasagna_saas_te.Exceptions.{
  error, central_route_violation, tenant_header_domain_mismatch, Result, ok, throw, M, ◌>>=◌, raise,
}
use adonisjs_lasagna_saas_te.Tenant.{Tenant}
use adonisjs_lasagna_saas_te.Identifier.{is_uuid_v4}
use adonisjs_lasagna_saas_te.Resolvers.{TenantResolveResult, by_id, by_domain, HttpRequest}
use adonisjs_lasagna_saas_te.Request.{
  TenantRepository, RequestEnv, RequestState, resolve_tenant, on_world,
}

-- The lookup of a route that serves tenants and others: no deleted tenant is asked for.
unfoldable pub try_find : TenantRepository → TenantResolveResult → Result (Option Tenant)
try_find repo (by_id id) = if is_uuid_v4 id then repo.find_by_id id false else ok none
try_find repo (by_domain domain) = repo.find_by_domain domain

-- Neither suspended nor deleted, provisioned, and not failed.
abbrev pub is_served : Tenant → Bool
is_served tenant =
    not (tenant.is_suspended || tenant.is_deleted || (tenant.is_provisioning || tenant.is_failed))

-- A `catch` that logs and answers `null`
unfoldable pub swallow : Result (Option Tenant) → Option Tenant
swallow (ok found) = found
swallow (throw e) = none

-- `__setMemoizedTenant`, where there is a tenant
abbrev pub memoize : {W : Type 0} → Option Tenant → RequestState W → RequestState W
memoize none s = s
memoize (some tenant) s = record s { memo = some tenant }

reject_tenant : {W A : Type 0} → M W A → Option TenantResolveResult → M W A
reject_tenant next none = next
reject_tenant next (some hit) = raise central_route_violation

module _ {W : Type 0} (env : RequestEnv W) where
  -- The tests on the tenant that was found, and the connection.
  unfoldable pub try_connect : Option Tenant → Option Tenant
  try_connect none = none
  try_connect (some tenant) =
      if is_served tenant
      then elim (env.connect tenant) [ ok u ↦ some tenant | throw e ↦ none ]
      else none

  unfoldable pub try_look_up : Result (Option TenantResolveResult) → Option Tenant
  unfolding try_find swallow try_connect
  try_look_up (throw e) = none
  try_look_up (ok none) = none
  try_look_up (ok (some hit)) = elim env.repository [
    | none ↦ none
    | some repo ↦ try_connect (swallow (try_find repo hit))
  ]

  -- `#tryResolve`, for the request as it leaves it
  unfoldable pub try_resolve : RequestState W → RequestState W
  unfolding try_look_up
  try_resolve s = let (r, s') = on_world env (resolve_tenant env) s in memoize (try_look_up r) s'

  -- `UniversalMiddleware.handle`
  unfoldable pub universal : {A : Type 0} → M (RequestState W) A → M (RequestState W) A
  unfolding try_resolve
  universal next s = next (try_resolve s)

  -- `CentralOnlyMiddleware.handle`
  unfoldable pub central_only : {A : Type 0} → M (RequestState W) A → M (RequestState W) A
  unfolding reject_tenant
  central_only next = do result ← on_world env (resolve_tenant env); reject_tenant next result

-- `request.request.headers[name] = value`
abbrev pub set_header : String → String → HttpRequest → HttpRequest
set_header name value request = record request {
  header = λ key. if str_eq key name then some value else request.header key;
}

abbrev disagrees : Option String → String → Bool
disagrees none id = false
disagrees (some given) id = not (str_eq given id)

module _ {W A : Type 0} (repository : Option TenantRepository) (is_strict : Bool) where
  -- What follows the lookup of the host's domain.
  unfoldable pub claim : (HttpRequest → M W A) → HttpRequest → Result (Option Tenant) → M W A
  claim next request (throw e) = raise e
  claim next request (ok none) = next request
  claim next request (ok (some tenant)) =
      if is_strict && disagrees (truthy (request.header "x-tenant-id")) tenant.id
      then raise tenant_header_domain_mismatch
      else next (set_header "x-tenant-id" tenant.id request)

  -- `CustomDomainMiddleware.handle`, with the request that `next` then sees.
  unfoldable pub custom_domain : (HttpRequest → M W A) → HttpRequest → M W A
  unfolding claim
  custom_domain next request = elim (truthy (Option.map (before b':') (request.header "host"))) [
    | none ↦ next request
    | some host ↦
        if is_some (truthy (request.header "x-tenant-id")) && not is_strict
        then next request
        else elim repository [
          | none ↦ raise (error "the tenant repository is not bound")
          | some repo ↦ claim next request (repo.find_by_domain host)
        ]
  ]
