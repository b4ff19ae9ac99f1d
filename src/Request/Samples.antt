-- ===== src/Request/Samples.antt =====
-- A tenant with a UUID, the repository that knows it, and requests to its host.
use adonisjs_lasagna_saas_te.Prelude.{String, false, none, some, [], str_eq, if◌then◌else◌}
use adonisjs_lasagna_saas_te.Exceptions.{ok}
use adonisjs_lasagna_saas_te.Tenant.{Tenant}
use adonisjs_lasagna_saas_te.Resolvers.{HttpRequest, ResolverConfig, subdomain}
use adonisjs_lasagna_saas_te.Request.{TenantRepository, RequestEnv, RequestState}

abbrev pub uuid : String
uuid = "3f2b8c1e-9d47-4a6b-8e21-0c5d7f9a1b2c"

abbrev pub tenant : Tenant
tenant = record {
  id = uuid;
  custom_domain = none;
  is_suspended = false;
  is_provisioning = false;
  is_failed = false;
  is_deleted = false;
  is_maintenance = false;
  maintenance_message = none;
}

abbrev pub config : ResolverConfig
config = record {
  resolver_strategy = subdomain;
  tenant_header_key = "x-tenant-id";
  base_domain = "app.test";
  ignore_paths = [];
  query_key = none;
  body_key = none;
}

abbrev pub request_to : String → HttpRequest
request_to host = record {
  hostname = some host;
  url = "/users";
  header = λ name. none;
  qs = λ key. none;
  input = λ key. none;
}

abbrev pub request : HttpRequest
request = request_to "3f2b8c1e-9d47-4a6b-8e21-0c5d7f9a1b2c.app.test:3333"

abbrev pub one_tenant : TenantRepository
one_tenant = record {
  find_by_id = λ id deleted. ok (if str_eq id uuid then some tenant else none);
  find_by_domain = λ domain. ok none;
}

abbrev pub env : RequestEnv (Unit {0})
env = record {
  config = config;
  registry = none;
  repository = some one_tenant;
  connect = λ tenant. ok tt;
  request = request;
}

-- The same request where no tenant is known any more.
abbrev pub later : RequestEnv (Unit {0})
later = record env { repository = none }

abbrev pub fresh : RequestState (Unit {0})
fresh = record { memo = none; world = tt }
