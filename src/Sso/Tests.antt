-- ===== src/Sso/Tests.antt =====
-- A sign-in and its replay.
use adonisjs_lasagna_saas_te.Prelude.{ℕ, ◌≡◌, ◌<◌, refl, String, true, false, none, some, [], ◌∷◌}
use adonisjs_lasagna_saas_te.Store.{Store}
use adonisjs_lasagna_saas_te.Store.Memory.{memory, nothing}
use adonisjs_lasagna_saas_te.Exceptions.{error, ok, throw}
use adonisjs_lasagna_saas_te.Sso.{
  StoredState, stored, TenantSsoConfig, OidcDiscovery, DiscoveryDocument, IdTokenClaims, tokens,
  World, Env, state_key, build_auth_url, handle_callback, fetch_discovery,
}
use adonisjs_lasagna_saas_te.Sso.Callback.{
  IsSignedIn, handle_callback-once, handle_callback-IsSignedIn,
}

abbrev states : Store StoredState
states = memory StoredState

abbrev cache : Store OidcDiscovery
cache = memory OidcDiscovery

abbrev config : TenantSsoConfig
config = record {
  tenant_id = "acme";
  client_id = "client";
  client_secret = "secret";
  issuer_url = "https://idp.example/";
  redirect_uri = "https://acme.example/cb";
  scopes = "openid" ∷ [];
  enabled = true;
}

abbrev document : DiscoveryDocument
document = record {
  issuer = some "https://idp.example";
  authorization_endpoint = some "https://idp.example/auth";
  token_endpoint = some "https://idp.example/token";
  jwks_uri = some "https://idp.example/keys";
}

abbrev claims : IdTokenClaims
claims = record { sub = "u1"; nonce = some "n1" }

abbrev env : Env
env = record {
  now = 100;
  configs = record config { enabled = false } ∷ config ∷ [];
  random_state = "s1";
  random_nonce = "n1";
  search_params = λ ps. "";
  discovery_document = λ url. some document;
  url_error = λ url. none;
  is_loopback = λ url. false;
  exchange = λ url code c. tokens (some "token");
  jwt_verify = λ token issuer audience keys. ok claims;
}

abbrev fresh : World states cache
fresh = record { states = nothing; cache = nothing }

abbrev asked : World states cache
asked = (build_auth_url env config fresh).1

signed_in : (handle_callback env "s1" "code" asked).0 ≡ ok ("acme", claims)
unfolding handle_callback build_auth_url
signed_in = refl

handle_callback-once_example :
    (handle_callback env "s1" "code" (handle_callback env "s1" "code" asked).1).0
    ≡ throw (error "Invalid or expired SSO state")
handle_callback-once_example = handle_callback-once env env "s1" "code" "code" asked

handle_callback-IsSignedIn_example :
    (nonce : String) × (expires_at : ℕ) × (states.get (state_key "s1") asked.states
      ≡ some (stored "acme" nonce expires_at))
    × (env.now < expires_at)
    × IsSignedIn env "acme" nonce claims asked
handle_callback-IsSignedIn_example =
    handle_callback-IsSignedIn env "s1" "code" "acme" claims asked signed_in

abbrev another_issuer : Env
another_issuer = record env {
  discovery_document = λ url. some (record document { issuer = some "https://evil.example" });
}

mismatched :
    fetch_discovery another_issuer "https://idp.example/"
    ≡ throw (error "OIDC discovery returned a mismatched issuer.")
unfolding fetch_discovery
mismatched = refl
