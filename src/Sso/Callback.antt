-- ===== src/Sso/Callback.antt =====
-- What a callback of src/services/sso_service.ts lets in.
use adonisjs_lasagna_saas_te.Prelude.{
  ℕ, ◌≡◌, ◌<◌, refl, sym, ap, ◌∙◌, inl, inr, ◌⊎◌, String, true, false, ◌&&◌, Option, none, some,
  ltb, ltb→lt, get_or, str_eq, eq_iff, eq_refl, truthy, is_some, Bool-cases, Option-cases, and_left,
  and_right, List, [], subst, ◌∷◌,
}
use mathlib.Core.List.{Mem, mem-cons_self, mem-cons_of_mem}
use adonisjs_lasagna_saas_te.Store.{Store}
use adonisjs_lasagna_saas_te.Exceptions.{
  error, Result, Result-cases, ok, throw, M, continue, ◌>>=◌, pure,
}
use adonisjs_lasagna_saas_te.Sso.{
  StoredState, stored, corrupted, TenantSsoConfig, OidcDiscovery, IdTokenClaims, TokenAnswer,
  token_refused, tokens, World, Env, state_key, expiry_of, fetch_discovery, discover, get_del,
  verify_nonce, verify_id_token, get_config, is_enabled_for, redeem, sign_in, with_state,
  handle_callback,
}

module _ {R : Store StoredState} {C : Store OidcDiscovery} (E : Env) where
  discover-states :
      (issuer_url : String) (w : World R C) → (discover E issuer_url w).1.states ≡ w.states
  unfolding discover
  discover-states issuer_url w = elim (Option-cases (C.get issuer_url w.cache)) [
    | inr (doc, e) ↦ rw (discover, e) refl
    | inl e ↦ elim (Result-cases (fetch_discovery E issuer_url)) [
      | inl (x, e') ↦ rw (discover, e, e') refl
      | inr (doc, e') ↦ rw (discover, e, e') refl
    ]
  ]

  verify_id_token-world :
      (token nonce : String) (config : TenantSsoConfig) (doc : OidcDiscovery) (w : World R C)
      → (verify_id_token E token nonce config doc w).1 ≡ w
  unfolding verify_id_token
  verify_id_token-world token nonce config doc w =
      elim (Result-cases (E.jwt_verify token doc.issuer config.client_id doc.jwks_uri)) [
        | inl (x, e) ↦ rw (verify_id_token, e) refl
        | inr (claims, e) ↦
            elim (Bool-cases (str_eq (get_or claims.nonce "") nonce && is_some claims.nonce)) [
              | inl e' ↦ rw (verify_id_token, e, verify_nonce, e') refl
              | inr e' ↦ rw (verify_id_token, e, verify_nonce, e') refl
            ]
      ]

  redeem-world :
      (a : TokenAnswer) (nonce : String) (config : TenantSsoConfig) (doc : OidcDiscovery)
      (w : World R C)
      → (redeem E a nonce config doc w).1 ≡ w
  redeem-world token_refused nonce config doc w = refl
  redeem-world (tokens id_token) nonce config doc w = elim (Option-cases (truthy id_token)) [
    | inl e ↦ rw (redeem, e) refl
    | inr (token, e) ↦ rw (redeem, e) (verify_id_token-world token nonce config doc w)
  ]

  continue-world :
      {A B : Type 0} (r : Result A × World R C) (f : A → M (World R C) B)
      → ((a : A) (w : World R C) → (f a w).1.states ≡ w.states)
      → (continue r f).1.states ≡ r.1.states
  continue-world (ok a, w) f h = h a w
  continue-world (throw e, w) f h = refl

  sign_in-states :
      (code tenant_id nonce : String) (w : World R C)
      → (sign_in E code tenant_id nonce w).1.states ≡ w.states
  unfolding sign_in
  sign_in-states code tenant_id nonce w = elim (Option-cases (get_config E.configs tenant_id)) [
    | inl e ↦ rw (sign_in, e) refl
    | inr (config, e) ↦
        rw (sign_in, e)
          (continue-world (discover E config.issuer_url w) _ (λ doc w'.
              continue-world
                (redeem E (E.exchange doc.token_endpoint code config) nonce config doc w') _
                (λ claims w''. refl)
              ∙ ap (λ (v : World R C). v.states)
                  (redeem-world (E.exchange doc.token_endpoint code config) nonce config doc w'))
            ∙ discover-states config.issuer_url w)
  ]

  with_state-states :
      (code : String) (o : Option StoredState) (w : World R C)
      → (with_state E code o w).1.states ≡ w.states
  with_state-states code none w = refl
  with_state-states code (some (corrupted expires_at)) w = refl
  with_state-states code (some (stored tenant_id nonce expires_at)) w =
      sign_in-states code tenant_id nonce w

  handle_callback-states :
      (state code : String) (w : World R C)
      → (handle_callback E state code w).1.states ≡ R.del (state_key state) w.states
  unfolding handle_callback get_del
  handle_callback-states state code w = with_state-states code _ _

  handle_callback-absent :
      (state code : String) (w : World R C)
      → R.get (state_key state) w.states ≡ none
      → (handle_callback E state code w).0 ≡ throw (error "Invalid or expired SSO state")
  unfolding handle_callback get_del
  handle_callback-absent state code w e = rw (handle_callback, get_del, e) refl

-- A state is good for one callback: after a callback, whatever it ended in, another one with the
-- same state throws, at any time, for any code, and whatever the provider then answers.
pub handle_callback-once :
    {R : Store StoredState} {C : Store OidcDiscovery} (E E' : Env) (state code code' : String)
    (w : World R C)
    → (handle_callback E' state code' (handle_callback E state code w).1).0
      ≡ throw (error "Invalid or expired SSO state")
handle_callback-once {R} E E' state code code' w =
    handle_callback-absent E' state code' (handle_callback E state code w).1 (
      ap (R.get (state_key state)) (handle_callback-states E state code w)
      ∙ rw (R.get-del (state_key state) (state_key state) w.states, eq_refl (state_key state)) refl)

-- The configuration that is found is a row of the tenant that is enabled.
get_config-row :
    (tenant_id : String) (configs : List TenantSsoConfig) (config : TenantSsoConfig)
    → get_config configs tenant_id ≡ some config
    → Mem config configs × (config.tenant_id ≡ tenant_id) × (config.enabled ≡ true)
unfolding get_config
get_config-row tenant_id [] config e = absurd (cc e)
get_config-row tenant_id (c ∷ configs) config e = elim (Bool-cases (is_enabled_for tenant_id c)) [
  | inl found ↦
      let same : some c ≡ some config = rw (get_config, found) at e in
      let row : c ≡ config = ap (λ o. get_or o c) same in
      (
        subst (λ r. Mem r (c ∷ configs)) row mem-cons_self,
        ap (λ r. r.tenant_id) (sym row)
            ∙ (eq_iff c.tenant_id tenant_id).0
                (and_left (str_eq c.tenant_id tenant_id) c.enabled found),
        ap (λ r. r.enabled) (sym row) ∙ and_right (str_eq c.tenant_id tenant_id) c.enabled found,
      )
  | inr other ↦
      let (there, of_tenant, enabled) =
        get_config-row tenant_id configs config (rw (get_config, other) at e) in
      (mem-cons_of_mem c there, of_tenant, enabled)
]

-- What a sign-in rests on.
pub record IsSignedIn {R : Store StoredState} {C : Store OidcDiscovery} (E : Env)
    (tenant_id nonce : String) (claims : IdTokenClaims) (w : World R C) : Type 0 where
  pub config : TenantSsoConfig
  pub configured : Mem config E.configs
  pub of_tenant : config.tenant_id ≡ tenant_id
  pub enabled : config.enabled ≡ true
  pub discovery : OidcDiscovery
  pub discovered : (discover E config.issuer_url w).0 ≡ ok discovery
  pub token : String
  pub verified : E.jwt_verify token discovery.issuer config.client_id discovery.jwks_uri ≡ ok claims
  pub same_nonce : get_or claims.nonce "" ≡ nonce

abbrev claims_of : Result (String × IdTokenClaims) → Result IdTokenClaims
claims_of (ok (tenant, claims)) = ok claims
claims_of (throw e) = throw e

continue-ok :
    {W A B : Type 0} (r : Result A × W) (f : A → M W B) {b : B}
    → (continue r f).0 ≡ ok b
    → (a : A) × (w : W) × (r ≡ (ok a, w)) × ((f a w).0 ≡ ok b)
continue-ok (ok a, w) f h = (a, w, refl, h)
continue-ok (throw e, w) f h = absurd (cc h)

abbrev tenant_of : Result (String × IdTokenClaims) → String
tenant_of (ok (tenant, claims)) = tenant
tenant_of (throw e) = ""

abbrev nonce_of : Result IdTokenClaims → String
nonce_of (ok claims) = get_or claims.nonce ""
nonce_of (throw e) = ""

module _ {R : Store StoredState} {C : Store OidcDiscovery} (E : Env) where
  verify_id_token-ok :
      (token nonce : String) (config : TenantSsoConfig) (doc : OidcDiscovery)
      (claims : IdTokenClaims) (w : World R C)
      → (verify_id_token E token nonce config doc w).0 ≡ ok claims
      → (E.jwt_verify token doc.issuer config.client_id doc.jwks_uri ≡ ok claims)
        × (get_or claims.nonce "" ≡ nonce)
  unfolding verify_id_token
  verify_id_token-ok token nonce config doc claims w h =
      elim (Result-cases (E.jwt_verify token doc.issuer config.client_id doc.jwks_uri)) [
        | inl (x, e) ↦ absurd (cc (rw (verify_id_token, e) at h))
        | inr (claims', e) ↦ checked claims' e (rw (verify_id_token, e) at h)
      ]
    where
      checked :
          (claims' : IdTokenClaims)
          → E.jwt_verify token doc.issuer config.client_id doc.jwks_uri ≡ ok claims'
          → (verify_nonce E nonce claims' w).0 ≡ ok claims
          → (E.jwt_verify token doc.issuer config.client_id doc.jwks_uri ≡ ok claims)
            × (get_or claims.nonce "" ≡ nonce)
      checked claims' e h' =
          elim (Bool-cases (str_eq (get_or claims'.nonce "") nonce && is_some claims'.nonce)) [
            | inl t ↦
                let same : ok claims' ≡ ok claims = rw (verify_nonce, t) at h' in
                (
                  e ∙ same,
                  ap nonce_of (sym same)
                      ∙ (eq_iff (get_or claims'.nonce "") nonce).0 (
                          and_left (str_eq (get_or claims'.nonce "") nonce) (is_some claims'.nonce)
                            t),
                )
            | inr f ↦ absurd (cc (rw (verify_nonce, f) at h'))
          ]

  redeem-ok :
      (a : TokenAnswer) (nonce : String) (config : TenantSsoConfig) (doc : OidcDiscovery)
      (claims : IdTokenClaims) (w : World R C)
      → (redeem E a nonce config doc w).0 ≡ ok claims
      → (token : String) × (E.jwt_verify token doc.issuer config.client_id doc.jwks_uri ≡ ok claims)
        × (get_or claims.nonce "" ≡ nonce)
  redeem-ok token_refused nonce config doc claims w h = absurd (cc h)
  redeem-ok (tokens id_token) nonce config doc claims w h = elim (Option-cases (truthy id_token)) [
    | inl e ↦ absurd (cc (rw (redeem, e) at h))
    | inr (token, e) ↦
        let (v, n) = verify_id_token-ok token nonce config doc claims w (rw (redeem, e) at h) in
        (token, v, n)
  ]

  sign_in-ok :
      (code tenant_id nonce : String) (tenant : String) (claims : IdTokenClaims) (w : World R C)
      → (sign_in E code tenant_id nonce w).0 ≡ ok (tenant, claims)
      → (tenant_id ≡ tenant) × IsSignedIn E tenant nonce claims w
  unfolding sign_in
  sign_in-ok code tenant_id nonce tenant claims w h =
      elim (Option-cases (get_config E.configs tenant_id)) [
        | inl e ↦ absurd (cc (rw (sign_in, e) at h))
        | inr (config, e) ↦ configured config e (continue-ok _ _ (rw (sign_in, e) at h))
      ]
    where
      redeemed : (config : TenantSsoConfig) → OidcDiscovery → M (World R C) (String × IdTokenClaims)
      redeemed config doc =
          redeem E (E.exchange doc.token_endpoint code config) nonce config doc >>= λ claims'.
          pure (tenant_id, claims')

      configured :
          (config : TenantSsoConfig)
          → get_config E.configs tenant_id ≡ some config
          → (doc : OidcDiscovery) × (w' : World R C) × (discover E config.issuer_url w
              ≡ (ok doc, w'))
            × ((redeemed config doc w').0 ≡ ok (tenant, claims))
          → (tenant_id ≡ tenant) × IsSignedIn E tenant nonce claims w
      configured config e (doc, w', found, done) =
          let (claims', w'', verified, same) =
            continue-ok (redeem E (E.exchange doc.token_endpoint code config) nonce config doc w')
              (λ claims'. pure (tenant_id, claims')) done in
          let same_claims : ok claims' ≡ ok claims = ap claims_of same in
          let same_tenant : tenant_id ≡ tenant = ap tenant_of same in
          let row = get_config-row tenant_id E.configs config e in
          let (token, v, n) =
            redeem-ok (E.exchange doc.token_endpoint code config) nonce config doc claims w'
              (ap (λ r. r.0) verified ∙ same_claims) in
          (
            same_tenant,
            record {
              config = config;
              configured = row.0;
              of_tenant = row.1 ∙ same_tenant;
              enabled = row.2;
              discovery = doc;
              discovered = ap (λ r. r.0) found;
              token = token;
              verified = v;
              same_nonce = n;
            },
          )

  discover-other :
      (issuer_url : String) (w : World R C) (states : R.State)
      → (discover E issuer_url (record w { states = states })).0 ≡ (discover E issuer_url w).0
  unfolding discover
  discover-other issuer_url w states = elim (Option-cases (C.get issuer_url w.cache)) [
    | inr (doc, e) ↦ rw (discover, e) refl
    | inl e ↦ elim (Result-cases (fetch_discovery E issuer_url)) [
      | inl (x, e') ↦ rw (discover, e, e') refl
      | inr (doc, e') ↦ rw (discover, e, e') refl
    ]
  ]

  -- A callback signs in only for a state that is stored and has not expired: for the tenant of that
  -- state, of which a row of the configurations is enabled, with the claims of a token that is
  -- verified for the issuer of the discovered provider, the client and the keys of the provider,
  -- and with the nonce of the state.
  pub handle_callback-IsSignedIn :
      (state code tenant : String) (claims : IdTokenClaims) (w : World R C)
      → (handle_callback E state code w).0 ≡ ok (tenant, claims)
      → (nonce : String) × (expires_at : ℕ) × (R.get (state_key state) w.states
          ≡ some (stored tenant nonce expires_at))
        × (E.now < expires_at)
        × IsSignedIn E tenant nonce claims w
  unfolding handle_callback get_del
  handle_callback-IsSignedIn state code tenant claims w h =
      elim (Option-cases (R.get (state_key state) w.states)) [
        | inl e ↦ absurd (cc (rw (handle_callback, get_del, e) at h))
        | inr (value, e) ↦ found value e (Bool-cases (ltb E.now (expiry_of value)))
      ]
    where
      Found : Type 0
      Found =
          (nonce : String) × (expires_at : ℕ) × (R.get (state_key state) w.states
            ≡ some (stored tenant nonce expires_at))
          × (E.now < expires_at)
          × IsSignedIn E tenant nonce claims w

      found :
          (value : StoredState)
          → R.get (state_key state) w.states ≡ some value
          → (ltb E.now (expiry_of value) ≡ true) ⊎ (ltb E.now (expiry_of value) ≡ false)
          → Found
      found value e (inr late) = absurd (cc (rw (handle_callback, get_del, e, late) at h))
      found (corrupted expires_at) e (inl fresh) =
          absurd (cc (rw (handle_callback, get_del, e, fresh) at h))
      found (stored tenant_id nonce expires_at) e (inl fresh) =
          let (same, v) =
            sign_in-ok code tenant_id nonce tenant claims
              (record w { states = R.del (state_key state) w.states })
              (rw (handle_callback, get_del, e, fresh) at h) in
          (
            nonce,
            expires_at,
            e ∙ ap (λ t. some (stored t nonce expires_at)) same,
            ltb→lt E.now expires_at fresh,
            record {
              config = v.config;
              configured = v.configured;
              of_tenant = v.of_tenant;
              enabled = v.enabled;
              discovery = v.discovery;
              discovered = sym (discover-other v.config.issuer_url w _) ∙ v.discovered;
              token = v.token;
              verified = v.verified;
              same_nonce = v.same_nonce;
            },
          )
