-- ===== src/Middleware/RouteTests.antt =====
-- The middleware on universal, central and custom domain routes, with one tenant.
use adonisjs_lasagna_saas_te.Prelude.{
  ◌≡◌, ◌≢◌, ◌⊎◌, refl, String, true, Option, none, some, str_eq, if◌then◌else◌,
}
use adonisjs_lasagna_saas_te.Exceptions.{ok, M, status}
use adonisjs_lasagna_saas_te.Tenant.{Tenant}
use adonisjs_lasagna_saas_te.Identifier.{is_uuid_v4, matches}
use adonisjs_lasagna_saas_te.Resolvers.{by_id, HttpRequest, ResolverConfig}
use adonisjs_lasagna_saas_te.Resolvers.Builtins.{resolve_header, hostname_of, suffix_of}
use adonisjs_lasagna_saas_te.Request.{
  TenantRepository, RequestState, resolve_tenant, request_tenant, legacy_id, legacy_host,
  legacy_label,
}
use adonisjs_lasagna_saas_te.Request.Samples.{uuid, tenant, config, request_to, env, fresh}
use adonisjs_lasagna_saas_te.Middleware.Admission.{failure}
use adonisjs_lasagna_saas_te.Middleware.Routes.{
  is_served, try_find, swallow, try_look_up, try_connect, try_resolve, universal, custom_domain,
  set_header,
}
use adonisjs_lasagna_saas_te.Middleware.Domains.{universal-is_served, custom_domain-strict}

abbrev next : M (RequestState (Unit {0})) String
next s = (ok "handled", s)

-- The tenant of the host is set on the request.
universal_memo : (universal env next fresh).1.memo ≡ some tenant
unfolding universal try_resolve try_look_up try_find swallow try_connect resolve_tenant legacy_id
    legacy_host legacy_label hostname_of suffix_of is_uuid_v4 matches
universal_memo = refl

universal-is_served_example :
    (s' : RequestState (Unit {0})) × (universal env next fresh ≡ next s')
    × ((s'.memo ≡ none)
        ⊎ ((t : Tenant) × (request_tenant env s' ≡ (ok t, s'))
            × (is_served t ≡ true)
            × (env.connect t ≡ ok tt)))
universal-is_served_example = universal-is_served env next fresh

-- The tenant's own domain, and a header that names another tenant.
abbrev domains : TenantRepository
domains = record {
  find_by_id = λ id deleted. ok none;
  find_by_domain = λ domain. ok (if str_eq domain "acme.com" then some tenant else none);
}

abbrev visit : Option String → HttpRequest
visit given = record (request_to "acme.com") {
  header = λ name.
      if str_eq name "host"
      then some "acme.com:443"
      else if str_eq name "x-tenant-id"
      then given
      else none;
}

abbrev headers : ResolverConfig
headers = record config { tenant_header_key = "x-tenant-id" }

abbrev echo : HttpRequest → M (Unit {0}) HttpRequest
echo request w = (ok request, w)

hop_refused :
    failure (custom_domain (some domains) true echo (visit (some "other")) tt).0 ≡ some 400
unfolding custom_domain status
hop_refused = refl

abbrev given : Option String
given = some "other"

custom_domain-strict_example :
    let answer = custom_domain (some domains) true echo (visit given) tt in
    let request' = set_header "x-tenant-id" uuid (visit given) in
    ((given ≢ none) × (given ≢ some uuid) × (failure answer.0 ≡ some 400) × (answer.1 ≡ tt))
    ⊎ (((given ≡ none) ⊎ (given ≡ some uuid))
        × (answer ≡ echo request' tt)
        × (resolve_header headers request' ≡ some (by_id uuid)))
custom_domain-strict_example =
    custom_domain-strict domains echo (visit given) "acme.com" tenant headers tt refl refl refl refl
