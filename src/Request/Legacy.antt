-- ===== src/Request/Legacy.antt =====
-- The synchronous resolution of src/extensions/request.ts beside the resolvers of the registry.
use adonisjs_lasagna_saas_te.Prelude.{
  ◌≡◌, refl, String, false, Option, none, some, str_append, str_eq, truthy, any_char, is_code,
  before, strip_suffix, strip_suffix_self, strip_suffix-longer, ◌⊎◌, text_length-append, arith, inl,
  inr, Bool-cases, Option-cases, eq_iff, eq_refl, longer-ne,
}
use mathlib.Core.Option
use text.Mathlib.Text.{starts_with}
use adonisjs_lasagna_saas_te.Resolvers.{by_id, HttpRequest, ResolverConfig, subdomain}
use adonisjs_lasagna_saas_te.Resolvers.Builtins.{
  hostname_of, suffix_of, first_label, subdomain_of_host, resolve_subdomain,
}
use adonisjs_lasagna_saas_te.Request.{legacy_id, legacy_host, legacy_label}

base_of_itself :
    (base : String)
    → (strip_suffix (suffix_of base) base ≡ some "") ⊎ (strip_suffix (suffix_of base) base ≡ none)
unfolding suffix_of
base_of_itself base = elim (Bool-cases (starts_with base ".")) [
  | inl e ↦ inl (simp (e, strip_suffix_self base))
  | inr e ↦ inr (
      simp (
        e,
        strip_suffix-longer base (str_append "." base) (omega (arith, text_length-append "." base)),
      ))
]

truthy-truthy : (o : Option String) → truthy (truthy o) ≡ truthy o
truthy-truthy none = refl
truthy-truthy (some String.[]) = refl
truthy-truthy (some (String.◌∷◌ c s)) = refl

legacy_host-base : (base : String) → Option.map by_id (truthy (legacy_host base base)) ≡ none
unfolding legacy_host
legacy_host-base base = elim (base_of_itself base) [
  | inl e ↦ simp (legacy_host, e)
  | inr e ↦ simp (legacy_host, e, eq_refl base)
]

-- The two ways to read a host that is not the base domain and has a first label.
subdomain_of_host-legacy :
    (cfg : ResolverConfig) (request : HttpRequest) (host : String)
    → str_eq host cfg.base_domain ≡ false
    → truthy (some (before b'.' host)) ≡ some (before b'.' host)
    → Option.map by_id (truthy (legacy_host cfg.base_domain host))
      ≡ subdomain_of_host cfg request host
unfolding legacy_host legacy_label subdomain_of_host first_label
subdomain_of_host-legacy cfg request host apart h =
    elim (Option-cases (strip_suffix (suffix_of cfg.base_domain) host)) [
      | inl e ↦ elim (Bool-cases (any_char (is_code b'.') host)) [
        | inl d ↦ simp (legacy_host, legacy_label, subdomain_of_host, first_label, e, d, apart, h)
        | inr d ↦ simp (legacy_host, legacy_label, subdomain_of_host, first_label, e, d, apart)
      ]
      | inr (sub, e) ↦ simp (legacy_host, subdomain_of_host, e, truthy-truthy (some sub))
    ]

labelled-nonempty :
    (host : String)
    → truthy (some (before b'.' host)) ≡ some (before b'.' host)
    → str_eq host "" ≡ false
labelled-nonempty String.[] h = cc h
labelled-nonempty (String.◌∷◌ c s) h = longer-ne (String.◌∷◌ c s) "" (omega arith)

-- For a host that has a first label, the synchronous reading of the subdomain strategy finds what
-- the resolver of the registry finds, whatever the base domain is.
pub legacy_id-resolve_subdomain :
    (cfg : ResolverConfig) (request : HttpRequest)
    → truthy (some (before b'.' (hostname_of request))) ≡ some (before b'.' (hostname_of request))
    → Option.map by_id (truthy (legacy_id subdomain cfg request)) ≡ resolve_subdomain cfg request
unfolding legacy_id resolve_subdomain
legacy_id-resolve_subdomain cfg request h =
    let named = labelled-nonempty (hostname_of request) h in
    elim (Bool-cases (str_eq (hostname_of request) cfg.base_domain)) [
      | inl e ↦
          let same : hostname_of request ≡ cfg.base_domain =
            (eq_iff (hostname_of request) cfg.base_domain).0 e in
          simp (
            legacy_id,
            resolve_subdomain,
            same,
            rw same at named,
            eq_refl cfg.base_domain,
            legacy_host-base cfg.base_domain,
          )
      | inr e ↦ simp (
        resolve_subdomain,
        named,
        e,
        subdomain_of_host-legacy cfg request (hostname_of request) e h,
      )
    ]
