-- ===== src/Resolvers/Builtins.antt =====
-- src/services/resolvers/builtins.ts
use adonisjs_lasagna_saas_te.Prelude.{
  String, Option, none, some, str_append, str_eq, if◌then◌else◌, get_or, or_else, truthy, any,
  any_char, is_code, before, strip_suffix,
}
use mathlib.Core.Option
use text.Mathlib.Text.{starts_with}
use adonisjs_lasagna_saas_te.Resolvers.{
  TenantResolveResult, by_id, by_domain, HttpRequest, ResolverConfig,
}

-- `hostnameOf`
unfoldable pub hostname_of : HttpRequest → String
hostname_of request = before b':' (get_or request.hostname "")

unfoldable pub suffix_of : String → String
suffix_of base = if starts_with base "." then base else str_append "." base

abbrev pub id_hit : Option String → Option TenantResolveResult
id_hit id = Option.map by_id (truthy id)

-- The leftmost label, where there is more than one.
unfoldable pub first_label : String → Option TenantResolveResult
first_label host = if any_char (is_code b'.') host then some (by_id (before b'.' host)) else none

-- `url.split('/').find(Boolean)`
unfoldable pub first_segment : String → Option String
first_segment String.[] = none
first_segment (String.◌∷◌ c s) =
    let rest = first_segment s in
    if is_code b'/' c then rest else some (String.◌∷◌ c (before b'/' s))

module _ (cfg : ResolverConfig) (request : HttpRequest) where
  unfoldable pub resolve_header : Option TenantResolveResult
  resolve_header = id_hit (request.header cfg.tenant_header_key)

  unfoldable pub subdomain_of_host : String → Option TenantResolveResult
  unfolding suffix_of first_label
  subdomain_of_host host = elim (strip_suffix (suffix_of cfg.base_domain) host) [
    | some sub ↦ id_hit (some sub)
    | none ↦ first_label host
  ]

  unfoldable pub resolve_subdomain : Option TenantResolveResult
  unfolding hostname_of subdomain_of_host
  resolve_subdomain =
      let host = hostname_of request in
      if str_eq host ""
      then none
      else if str_eq host cfg.base_domain
      then none
      else subdomain_of_host host

  unfoldable pub resolve_path : Option TenantResolveResult
  unfolding first_segment
  resolve_path =
      if any (λ p. starts_with request.url p) cfg.ignore_paths
      then none
      else id_hit (first_segment request.url)

  -- A host that is no subdomain of the base domain is a custom domain.
  unfoldable pub domain_of_host : String → Option TenantResolveResult
  domain_of_host host = if str_eq host cfg.base_domain then none else some (by_domain host)

  unfoldable pub domain_or_sub : String → Option TenantResolveResult
  unfolding suffix_of domain_of_host
  domain_or_sub host =
      if str_eq host cfg.base_domain
      then none
      else or_else (id_hit (strip_suffix (suffix_of cfg.base_domain) host)) (domain_of_host host)

  unfoldable pub resolve_domain_or_subdomain : Option TenantResolveResult
  unfolding hostname_of domain_or_sub
  resolve_domain_or_subdomain =
      let host = hostname_of request in if str_eq host "" then none else domain_or_sub host

  unfoldable pub resolve_request_data : Option TenantResolveResult
  resolve_request_data =
      or_else (id_hit (request.qs (get_or cfg.query_key "tenant_id")))
        (id_hit (request.input (get_or cfg.body_key "tenant_id")))
