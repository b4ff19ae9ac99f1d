-- ===== src/Request.antt =====
-- src/extensions/request.ts: the tenant of a request, resolved once.
pub mod Memo
pub mod Samples
pub mod Tests
pub mod Legacy
use adonisjs_lasagna_saas_te.Prelude.{
  String, Bool, true, false, Option, none, some, List, [], ◌∷◌, str_eq, if◌then◌else◌, get_or,
  or_else, is_some, truthy, before, strip_suffix, any_char, is_code,
}
use mathlib.Core.Option
use adonisjs_lasagna_saas_te.Exceptions.{
  Exception, missing_tenant_header, tenant_not_found, error, Result, ok, throw, M, ◌>>=◌, pure,
  raise, continue,
}
use adonisjs_lasagna_saas_te.Tenant.{Tenant}
use adonisjs_lasagna_saas_te.Identifier.{is_uuid_v4}
use adonisjs_lasagna_saas_te.Resolvers.{
  TenantResolveResult, by_id, by_domain, HttpRequest, ResolverConfig, ResolverStrategy, header,
  subdomain, path, domain_or_subdomain, request_data, custom,
}
use adonisjs_lasagna_saas_te.Resolvers.Builtins.{hostname_of, suffix_of, first_segment}
use adonisjs_lasagna_saas_te.Resolvers.Registry.{TenantResolverRegistry, resolve}

-- `TenantRepositoryContract`, which the host implements, as far as it is used here. The flag of
-- `find_by_id` asks for deleted tenants too.
pub record TenantRepository : Type 0 where
  pub find_by_id : String → Bool → Result (Option Tenant)
  pub find_by_domain : String → Result (Option Tenant)

-- What a request meets: the configuration, the container and the active driver.
pub record RequestEnv (W : Type 0) : Type 0 where
  pub config : ResolverConfig
  pub registry : Option (TenantResolverRegistry W)
  pub repository : Option TenantRepository
  pub connect : Tenant → Result (Unit {0})
  pub request : HttpRequest

-- The memo on the request, and the state of what the resolvers call.
pub record RequestState (W : Type 0) : Type 0 where
  pub memo : Option Tenant
  pub world : W

-- `legacyResolveTenantId`, for the two strategies on the host
unfoldable pub legacy_label : String → Option String
legacy_label host = if any_char (is_code b'.') host then some (before b'.' host) else none

unfoldable pub legacy_host : String → String → Option String
unfolding suffix_of legacy_label
legacy_host base host = elim (strip_suffix (suffix_of base) host) [
  | some sub ↦ truthy (some sub)
  | none ↦ if str_eq host base then none else legacy_label host
]

-- `legacyResolveTenantId`; a strategy of the host's own is read as `header`.
unfoldable pub legacy_id : ResolverStrategy → ResolverConfig → HttpRequest → Option String
unfolding legacy_host hostname_of first_segment
legacy_id subdomain cfg request = legacy_host cfg.base_domain (hostname_of request)
legacy_id domain_or_subdomain cfg request = legacy_host cfg.base_domain (hostname_of request)
legacy_id path cfg request = truthy (first_segment request.url)
legacy_id request_data cfg request =
    or_else (truthy (request.qs "tenant_id")) (truthy (request.input "tenant_id"))
legacy_id header cfg request = request.header cfg.tenant_header_key
legacy_id (custom name) cfg request = request.header cfg.tenant_header_key

-- `resolveTenantId`
unfoldable pub resolve_tenant_id : ResolverConfig → HttpRequest → Option String
resolve_tenant_id cfg request = legacy_id cfg.resolver_strategy cfg request

abbrev is_empty : List String → Bool
is_empty [] = true
is_empty _ = false

module _ {W : Type 0} (env : RequestEnv W) where
  legacy : M W (Option TenantResolveResult)
  unfolding resolve_tenant_id
  legacy = pure (Option.map by_id (truthy (resolve_tenant_id env.config env.request)))

  unfoldable pub resolve_tenant : M W (Option TenantResolveResult)
  unfolding legacy
  resolve_tenant w = elim env.registry [
    | none ↦ legacy w
    | some reg ↦ if is_empty reg.chain then legacy w else resolve reg env.request w
  ]

  -- Resolution changes only what the resolvers call.
  abbrev pub on_world : {A : Type 0} → M W A → M (RequestState W) A
  on_world m s = let (r, w) = m s.world in (r, record s { world = w })

  -- The lookup of a resolved tenant; an id that is no UUID counts as missing.
  unfoldable pub look_up : TenantRepository → Option TenantResolveResult → Result (Option Tenant)
  look_up repo none = throw missing_tenant_header
  look_up repo (some (by_domain domain)) = repo.find_by_domain domain
  look_up repo (some (by_id id)) =
      if is_uuid_v4 id then repo.find_by_id id true else throw missing_tenant_header

  found : Option Tenant → Result Tenant
  found none = throw tenant_not_found
  found (some tenant) = ok tenant

  connected : Tenant → M (RequestState W) Tenant
  connected tenant s =
      continue (env.connect tenant, s) λ _ s. (ok tenant, record s { memo = some tenant })

  repository_of : M (RequestState W) TenantRepository
  repository_of s = elim env.repository [
    | none ↦ (throw (error "the tenant repository is not bound"), s)
    | some repo ↦ (ok repo, s)
  ]

  resolved_tenant : M (RequestState W) Tenant
  unfolding resolve_tenant look_up found connected repository_of
  resolved_tenant = do
    repo ← repository_of
    result ← on_world resolve_tenant
    row ← (λ s. (look_up repo result, s))
    tenant ← (λ s. (found row, s))
    connected tenant

  -- `request.tenant()`
  unfoldable pub request_tenant : M (RequestState W) Tenant
  unfolding resolved_tenant
  request_tenant s = elim s.memo [ some tenant ↦ (ok tenant, s) | none ↦ resolved_tenant s ]
