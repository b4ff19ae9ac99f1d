-- ===== src/Request/Tests.antt =====
-- Requests of a tenant with a UUID, by subdomain and in memory.
use adonisjs_lasagna_saas_te.Prelude.{◌≡◌, refl, String, true, false, some}
use adonisjs_lasagna_saas_te.Exceptions.{ok}
use adonisjs_lasagna_saas_te.Identifier.{is_uuid_v4, matches}
use adonisjs_lasagna_saas_te.Resolvers.{by_id}
use adonisjs_lasagna_saas_te.Resolvers.Builtins.{
  resolve_subdomain, resolve_domain_or_subdomain, first_segment, hostname_of, suffix_of,
}
use adonisjs_lasagna_saas_te.Resolvers.Hosts.{resolve_subdomain-tenant_host}
use adonisjs_lasagna_saas_te.Request.{
  request_tenant, resolve_tenant, legacy_id, legacy_host, legacy_label, look_up,
}
use adonisjs_lasagna_saas_te.Request.Memo.{Names, request_tenant-Names}
use adonisjs_lasagna_saas_te.Request.Samples.{uuid, tenant, config, request, env, fresh}

abbrev other_uuid : String
other_uuid = "3f2b8c1e-9d47-3a6b-8e21-0c5d7f9a1b2c"

is_uuid : is_uuid_v4 uuid ≡ true
unfolding is_uuid_v4 matches
is_uuid = refl

-- Another version of UUID is refused.
no_uuid : is_uuid_v4 other_uuid ≡ false
unfolding is_uuid_v4 matches
no_uuid = refl

answered : (request_tenant env fresh).0 ≡ ok tenant
unfolding request_tenant resolve_tenant legacy_id legacy_host legacy_label hostname_of suffix_of
    look_up is_uuid_v4 matches
answered = refl

request_tenant-Names_example :
    Names env.repository (resolve_tenant env tt).0 tenant
    × (env.connect tenant ≡ ok tt)
    × ((request_tenant env fresh).1.memo ≡ some tenant)
request_tenant-Names_example = request_tenant-Names env fresh tenant refl answered

resolve_subdomain-tenant_host_example :
    (resolve_subdomain config request ≡ some (by_id uuid))
    × (resolve_domain_or_subdomain config request ≡ some (by_id uuid))
resolve_subdomain-tenant_host_example =
    resolve_subdomain-tenant_host config request uuid ":3333" refl refl refl refl refl

first_of_path : first_segment "//users/1" ≡ some "users"
unfolding first_segment
first_of_path = refl
