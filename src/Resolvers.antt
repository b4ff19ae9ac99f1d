-- ===== src/Resolvers.antt =====
-- src/services/resolvers: how the tenant of a request is found.
pub mod Builtins
pub mod Registry
pub mod Hosts
use adonisjs_lasagna_saas_te.Prelude.{String, Option, none, some, List}

-- `TenantResolveResult`, less `undefined`
pub data TenantResolveResult : Type 0 where
  by_id by_domain : String → TenantResolveResult

-- What a resolver reads of a request: the host and the path, headers, and the parameters of the
-- query and the body that are texts.
pub record HttpRequest : Type 0 where
  pub hostname : Option String
  pub url : String
  pub header : String → Option String
  pub qs : String → Option String
  pub input : String → Option String

pub data ResolverStrategy : Type 0 where
  header subdomain path domain_or_subdomain request_data : ResolverStrategy
  custom : String → ResolverStrategy

-- The part of the configuration that resolution reads.
pub record ResolverConfig : Type 0 where
  pub resolver_strategy : ResolverStrategy
  pub tenant_header_key : String
  pub base_domain : String
  pub ignore_paths : List String
  pub query_key : Option String
  pub body_key : Option String
