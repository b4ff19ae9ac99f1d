-- ===== src/Resolvers/Hosts.antt =====
-- The tenant's own host `<id>.<base domain>`, as the resolvers of
-- src/services/resolvers/builtins.ts read it.
use adonisjs_lasagna_saas_te.Prelude.{
  ◌<◌, ◌≡◌, refl, String, false, some, str_append, truthy, any_char, is_code, before,
  strip_suffix-append, before-append, longer-ne, text_length, text_length-append, arith,
}
use text.Mathlib.Text.{starts_with}
use adonisjs_lasagna_saas_te.Resolvers.{by_id, HttpRequest, ResolverConfig}
use adonisjs_lasagna_saas_te.Resolvers.Builtins.{
  hostname_of, suffix_of, subdomain_of_host, resolve_subdomain, domain_or_sub,
  resolve_domain_or_subdomain,
}

abbrev pub tenant_host : String → String → String
tenant_host sub base = str_append sub (str_append "." base)

tenant_host-longer : (sub base : String) → text_length base < text_length (tenant_host sub base)
tenant_host-longer sub base =
    omega (arith, text_length-append sub (str_append "." base), text_length-append "." base)

hostname_of-port :
    (request : HttpRequest) (host port : String)
    → any_char (is_code b':') host ≡ false
    → before b':' port ≡ ""
    → request.hostname ≡ some (str_append host port)
    → hostname_of request ≡ host
unfolding hostname_of
hostname_of-port request host port h p e = rw e (before-append b':' host port h p)

module _ (cfg : ResolverConfig) (request : HttpRequest) where
  subdomain_of_host-tenant_host :
      (sub : String)
      → starts_with cfg.base_domain "." ≡ false
      → truthy (some sub) ≡ some sub
      → subdomain_of_host cfg request (tenant_host sub cfg.base_domain) ≡ some (by_id sub)
  unfolding subdomain_of_host suffix_of
  subdomain_of_host-tenant_host sub dotless named = simp (
    subdomain_of_host,
    suffix_of,
    dotless,
    strip_suffix-append sub (str_append "." cfg.base_domain),
    named,
  )

  -- The host `<id>.<base domain>` of a tenant, with or without a port, resolves to the id under
  -- the subdomain strategy and under the combined one.
  pub resolve_subdomain-tenant_host :
      (sub port : String)
      → starts_with cfg.base_domain "." ≡ false
      → truthy (some sub) ≡ some sub
      → any_char (is_code b':') (tenant_host sub cfg.base_domain) ≡ false
      → before b':' port ≡ ""
      → request.hostname ≡ some (str_append (tenant_host sub cfg.base_domain) port)
      → (resolve_subdomain cfg request ≡ some (by_id sub))
        × (resolve_domain_or_subdomain cfg request ≡ some (by_id sub))
  unfolding resolve_subdomain resolve_domain_or_subdomain domain_or_sub suffix_of
  resolve_subdomain-tenant_host sub port dotless named plain ported e =
      let host = hostname_of-port request (tenant_host sub cfg.base_domain) port plain ported e in
      let apart =
        longer-ne (tenant_host sub cfg.base_domain) cfg.base_domain
          (tenant_host-longer sub cfg.base_domain) in
      let present : text_length "" < text_length (tenant_host sub cfg.base_domain) =
        omega (arith, tenant_host-longer sub cfg.base_domain) in
      let nonempty = longer-ne (tenant_host sub cfg.base_domain) "" present in
      let stripped = strip_suffix-append sub (str_append "." cfg.base_domain) in
      simp (host, apart, nonempty, dotless, stripped, named)
        (subdomain_of_host-tenant_host sub dotless named, refl)
