-- ===== src/Request/Memo.antt =====
-- What `request.tenant()` of src/extensions/request.ts answers, the first time and after.
use adonisjs_lasagna_saas_te.Prelude.{◌≡◌, true, Option, none, some, arith}
use adonisjs_lasagna_saas_te.Exceptions.{Result, ok}
use adonisjs_lasagna_saas_te.Tenant.{Tenant}
use adonisjs_lasagna_saas_te.Identifier.{is_uuid_v4}
use adonisjs_lasagna_saas_te.Resolvers.{TenantResolveResult, by_id, by_domain}
use adonisjs_lasagna_saas_te.Request.{
  TenantRepository, RequestEnv, RequestState, resolve_tenant, look_up, request_tenant,
}

-- A repository answers with this tenant for what was resolved, a UUID or a domain.
abbrev pub Names : Option TenantRepository → Result (Option TenantResolveResult) → Tenant → Type 0
Names (some repo) (ok (some (by_id id))) tenant =
    (is_uuid_v4 id ≡ true) × (repo.find_by_id id true ≡ ok (some tenant))
Names (some repo) (ok (some (by_domain domain))) tenant =
    repo.find_by_domain domain ≡ ok (some tenant)
Names _ _ tenant = ⊥

module _ {W : Type 0} (env : RequestEnv W) where
  -- A tenant that `request.tenant()` has answered with is the answer of every later call on the
  -- request, whatever the configuration and the repository then are, and it changes nothing more.
  pub request_tenant-memo :
      (env' : RequestEnv W) (s : RequestState W) (tenant : Tenant)
      → (request_tenant env s).0 ≡ ok tenant
      → request_tenant env' (request_tenant env s).1 ≡ (ok tenant, (request_tenant env s).1)
  unfolding request_tenant
  request_tenant-memo env' s tenant e = ground arith

  -- The tenant of a request with no memo is the one that the repository has under the UUID or the
  -- domain that was resolved, the driver is connected to it, and the request remembers it.
  pub request_tenant-Names :
      (s : RequestState W) (tenant : Tenant)
      → s.memo ≡ none
      → (request_tenant env s).0 ≡ ok tenant
      → Names env.repository (resolve_tenant env s.world).0 tenant
        × (env.connect tenant ≡ ok tt)
        × ((request_tenant env s).1.memo ≡ some tenant)
  unfolding request_tenant look_up
  request_tenant-Names s tenant m e = ground arith
