-- ===== src/Sso.antt =====
-- src/services/sso_service.ts: sign-in of a tenant's users through its OpenID provider.
pub mod Callback
pub mod Tests
use adonisjs_lasagna_saas_te.Prelude.{
  ℕ, ◌+◌, String, Bool, true, false, not, Option, none, some, List, [], ◌∷◌, if◌then◌else◌, ltb,
  get_or, str_eq, str_append, strip_suffix, truthy, is_some, ◌&&◌, filter,
}
use adonisjs_lasagna_saas_te.Store.{Store}
use adonisjs_lasagna_saas_te.Exceptions.{
  Exception, error, Result, ok, throw, M, continue, ◌>>=◌, ◌>>◌, pure, raise,
}

-- `STATE_TTL_SECONDS`
abbrev pub state_ttl_seconds : ℕ
state_ttl_seconds = 600

pub record TenantSsoConfig : Type 0 where
  pub tenant_id : String
  pub client_id : String
  pub client_secret : String
  pub issuer_url : String
  pub redirect_uri : String
  pub scopes : List String
  pub enabled : Bool

pub record OidcDiscovery : Type 0 where
  pub issuer : String
  pub authorization_endpoint : String
  pub token_endpoint : String
  pub jwks_uri : String

-- The document as it was answered, where each field may be missing.
pub record DiscoveryDocument : Type 0 where
  pub issuer : Option String
  pub authorization_endpoint : Option String
  pub token_endpoint : Option String
  pub jwks_uri : Option String

pub record IdTokenClaims : Type 0 where
  pub sub : String
  pub nonce : Option String

-- The value of `sso:state:<state>` with the second in which it expires; a text that is no JSON is
-- corrupted.
pub data StoredState : Type 0 where
  stored : (tenant_id nonce : String) (expires_at : ℕ) → StoredState
  corrupted : (expires_at : ℕ) → StoredState

-- What the token endpoint answers: a refusal, or tokens that may lack an id token.
pub data TokenAnswer : Type 0 where
  token_refused : TokenAnswer
  tokens : (id_token : Option String) → TokenAnswer

-- The states in Redis, and the discovery documents in the cache.
pub record World (R : Store StoredState) (C : Store OidcDiscovery) : Type 0 where
  pub states : R.State
  pub cache : C.State

-- What the environment decides: the clock in seconds, the rows of the configurations in the order
-- of the database, the random texts, `URLSearchParams` as a text, the answer of the discovery URL,
-- what is wrong with a URL (the test of src/admin/controllers/helpers.ts) and whether a URL is of
-- the loopback, the answer of the token endpoint for a code, and `jwtVerify` of a token for an
-- issuer, an audience and the keys' URL.
pub record Env : Type 0 where
  pub now : ℕ
  pub configs : List TenantSsoConfig
  pub random_state : String
  pub random_nonce : String
  pub search_params : List (String × String) → String
  pub discovery_document : String → Option DiscoveryDocument
  pub url_error : String → Option String
  pub is_loopback : String → Bool
  pub exchange : String → String → TenantSsoConfig → TokenAnswer
  pub jwt_verify : String → String → String → String → Result IdTokenClaims

abbrev pub expiry_of : StoredState → ℕ
expiry_of (stored tenant_id nonce expires_at) = expires_at
expiry_of (corrupted expires_at) = expires_at

-- `replace(/\/$/, '')`
unfoldable pub without_slash : String → String
without_slash url = get_or (strip_suffix "/" url) url

abbrev pub state_key : String → String
state_key state = str_append "sso:state:" state

-- `scopes.join(' ')`
unfoldable pub join_scopes : List String → String
join_scopes [] = ""
join_scopes (scope ∷ []) = scope
join_scopes (scope ∷ (next ∷ scopes)) =
    str_append scope (str_append " " (join_scopes (next ∷ scopes)))

-- The conditions of `getConfig`.
abbrev pub is_enabled_for : String → TenantSsoConfig → Bool
is_enabled_for tenant_id config = str_eq config.tenant_id tenant_id && config.enabled

abbrev pub first : List TenantSsoConfig → Option TenantSsoConfig
first [] = none
first (config ∷ configs) = some config

-- `getConfig`
unfoldable pub get_config : List TenantSsoConfig → String → Option TenantSsoConfig
get_config configs tenant_id = first (filter (is_enabled_for tenant_id) configs)

-- The parameters of the authorization request.
abbrev pub auth_params : TenantSsoConfig → String → String → List (String × String)
auth_params config state nonce =
    ("response_type", "code")
    ∷ ("client_id", config.client_id)
    ∷ ("redirect_uri", config.redirect_uri)
    ∷ ("scope", join_scopes config.scopes)
    ∷ ("state", state)
    ∷ ("nonce", nonce)
    ∷ []

module _ (E : Env) where
  -- The three tests of a document that has its fields.
  unfoldable pub trust : String → OidcDiscovery → Result OidcDiscovery
  unfolding without_slash
  trust issuer_url doc =
      let checked : Result OidcDiscovery = elim (E.url_error doc.token_endpoint) [
        | some e ↦ throw (error "OIDC discovery returned an unsafe token_endpoint.")
        | none ↦ elim (E.url_error doc.jwks_uri) [
          | some e ↦ throw (error "OIDC discovery returned an unsafe jwks_uri.")
          | none ↦ ok doc
        ]
      ] in
      if not (str_eq (without_slash doc.issuer) (without_slash issuer_url))
      then throw (error "OIDC discovery returned a mismatched issuer.")
      else if E.is_loopback issuer_url
      then ok doc
      else checked

  abbrev required : DiscoveryDocument → Option OidcDiscovery
  required doc = elim (truthy doc.issuer) [
    | none ↦ none
    | some issuer ↦ elim (truthy doc.authorization_endpoint) [
      | none ↦ none
      | some authorization_endpoint ↦ elim (truthy doc.token_endpoint) [
        | none ↦ none
        | some token_endpoint ↦ elim (truthy doc.jwks_uri) [
          | none ↦ none
          | some jwks_uri ↦ some (record {
            issuer = issuer;
            authorization_endpoint = authorization_endpoint;
            token_endpoint = token_endpoint;
            jwks_uri = jwks_uri;
          })
        ]
      ]
    ]
  ]

  -- The factory of the cache.
  unfoldable pub fetch_discovery : String → Result OidcDiscovery
  unfolding trust
  fetch_discovery issuer_url = elim (E.discovery_document issuer_url) [
    | none ↦ throw (error "OIDC discovery failed.")
    | some doc ↦ elim (required doc) [
      | none ↦ throw (error "OIDC discovery is missing required fields.")
      | some discovery ↦ trust issuer_url discovery
    ]
  ]

module _ {R : Store StoredState} {C : Store OidcDiscovery} (E : Env) where
  abbrev cache_fetched :
      String → Result OidcDiscovery → World R C → Result OidcDiscovery × World R C
  cache_fetched issuer_url (throw e) w = (throw e, w)
  cache_fetched issuer_url (ok doc) w = (ok doc, record w { cache = C.put issuer_url doc w.cache })

  -- `getOrSet`
  unfoldable pub discover : String → M (World R C) OidcDiscovery
  unfolding fetch_discovery
  discover issuer_url w = elim (C.get issuer_url w.cache) [
    | some doc ↦ (ok doc, w)
    | none ↦ cache_fetched issuer_url (fetch_discovery E issuer_url) w
  ]

  unfoldable pub build_auth_url : TenantSsoConfig → M (World R C) String
  unfolding discover
  build_auth_url config = discover config.issuer_url >>= λ discovery w. (
    ok (
        str_append discovery.authorization_endpoint
          (str_append "?" (E.search_params (auth_params config E.random_state E.random_nonce)))),
    record w {
      states =
          R.put (state_key E.random_state)
            (stored config.tenant_id E.random_nonce (E.now + state_ttl_seconds)) w.states;
    },
  )

  -- `GETDEL`, which finds nothing that has expired
  unfoldable pub get_del : String → M (World R C) (Option StoredState)
  get_del state w =
      let fresh : Option StoredState = elim (R.get (state_key state) w.states) [
        | none ↦ none
        | some value ↦ if ltb E.now (expiry_of value) then some value else none
      ] in
      (ok fresh, record w { states = R.del (state_key state) w.states })

  abbrev verify_nonce : String → IdTokenClaims → M (World R C) IdTokenClaims
  verify_nonce nonce claims =
      if str_eq (get_or claims.nonce "") nonce && is_some claims.nonce
      then pure claims
      else raise (error "id_token nonce mismatch")

  -- `#verifyIdToken`
  unfoldable pub verify_id_token :
      String → String → TenantSsoConfig → OidcDiscovery → M (World R C) IdTokenClaims
  verify_id_token id_token nonce config discovery =
      elim (E.jwt_verify id_token discovery.issuer config.client_id discovery.jwks_uri) [
        | throw e ↦ raise e
        | ok claims ↦ verify_nonce nonce claims
      ]

  abbrev redeem :
      TokenAnswer → String → TenantSsoConfig → OidcDiscovery → M (World R C) IdTokenClaims
  redeem token_refused nonce config discovery = raise (error "Token exchange failed")
  redeem (tokens id_token) nonce config discovery = elim (truthy id_token) [
    | none ↦ raise (error "OIDC token response missing required id_token")
    | some token ↦ verify_id_token token nonce config discovery
  ]

  -- What follows once the state is read.
  unfoldable pub sign_in : String → String → String → M (World R C) (String × IdTokenClaims)
  unfolding discover verify_id_token get_config
  sign_in code tenant_id nonce = elim (get_config E.configs tenant_id) [
    | none ↦ raise (error "SSO not configured for this tenant")
    | some config ↦ discover config.issuer_url >>= λ discovery.
        redeem (E.exchange discovery.token_endpoint code config) nonce config discovery
        >>= λ claims. pure (tenant_id, claims)
  ]

  abbrev with_state : String → Option StoredState → M (World R C) (String × IdTokenClaims)
  with_state code none = raise (error "Invalid or expired SSO state")
  with_state code (some (corrupted expires_at)) = raise (error "Corrupted SSO state payload")
  with_state code (some (stored tenant_id nonce expires_at)) = sign_in code tenant_id nonce

  unfoldable pub handle_callback : String → String → M (World R C) (String × IdTokenClaims)
  unfolding get_del sign_in
  handle_callback state code = get_del state >>= with_state code
