-- ===== src/Impersonation/Sessions.antt =====
-- How long a token of src/services/impersonation_service.ts is good for.
use adonisjs_lasagna_saas_te.Prelude.{
  ℕ, ◌+◌, ◌*◌, ◌<◌, ◌≡◌, ◌≢◌, ◌∙◌, inl, inr, refl, sym, ap, String, true, false, ◌&&◌, ◌||◌, ◌==◌,
  Option, none, some, List, [], ◌∷◌, str_append, str_eq, any_char, is_code, text_length,
  text_length-append, leb, ltb, arith, Bool-cases, Option-cases, eq_refl, longer-ne,
}
use text.Mathlib.TextLemmas.{nil-append, cons-append}
use adonisjs_lasagna_saas_te.Exceptions.{Result, Result-cases, ok, throw}
use adonisjs_lasagna_saas_te.Store.{Store}
use adonisjs_lasagna_saas_te.Impersonation.{
  ImpersonationSession, ImpersonationContext, ImpersonationStartOptions, ImpersonationEnv,
  ImpersonationWorld, is_target_user_id, split_at_dot, duration_of, secret_of, same_bytes, is_empty,
  context_of, new_session, sign, is_signed, check_signature, extract_parts, extract_session_id,
  store_session, verify_session, stop_session, begin_session, start, on_session, verify, stop,
}

split_at_dot-append :
    (a b : String)
    → any_char (is_code b'.') a ≡ false
    → split_at_dot (str_append a (str_append "." b)) ≡ some (a, b)
unfolding split_at_dot
split_at_dot-append String.[] b h =
    rw (nil-append (str_append "." b)) (rw (cons-append _ "" b) (rw (nil-append b) refl))
split_at_dot-append (String.◌∷◌ c a) b h =
    rw (cons-append c a (str_append "." b)) (ground (arith, split_at_dot-append a b))

same_bytes_self : (xs : List ℕ) → same_bytes xs xs ≡ true
unfolding same_bytes
same_bytes_self [] = refl
same_bytes_self (x ∷ xs) = ground (arith, same_bytes_self xs)

module _ (hmac : String → String → String) (hex_bytes : String → List ℕ) where
  extract_session_id-sign :
      (configured : Option String) (secret session_id : String)
      → secret_of configured ≡ ok secret
      → any_char (is_code b'.') session_id ≡ false
      → leb 32 (text_length session_id) ≡ true
      → str_eq (hmac secret session_id) "" ≡ false
      → is_empty (hex_bytes (hmac secret session_id)) ≡ false
      → extract_session_id hmac hex_bytes configured (sign hmac secret session_id)
        ≡ ok (some session_id)
  unfolding extract_session_id extract_parts check_signature is_signed sign
  extract_session_id-sign configured secret id e dotless long sig bytes =
      let split = split_at_dot-append id (hmac secret id) dotless in
      let enough : leb 33 (text_length (str_append id (str_append "." (hmac secret id)))) ≡ true =
        ground (
          arith,
          long,
          text_length-append id (str_append "." (hmac secret id)),
          text_length-append "." (hmac secret id),
        ) in
      let named : str_eq id "" ≡ false = longer-ne id "" (ground arith) in
      let same = same_bytes_self (hex_bytes (hmac secret id)) in
      simp (enough, split, named, sig, e, bytes, same)

same_bytes_eq : (xs ys : List ℕ) → same_bytes xs ys ≡ true → xs ≡ ys
unfolding same_bytes
same_bytes_eq [] [] h = refl
same_bytes_eq [] (y ∷ ys) h = absurd (cc h)
same_bytes_eq (x ∷ xs) [] h = absurd (cc h)
same_bytes_eq (x ∷ xs) (y ∷ ys) h = elim (Bool-cases (x == y)) [
  | inl e ↦
      let first : x ≡ y = ground (arith, e) in
      let rest = same_bytes_eq xs ys (rw e at h) in rw first (ap (λ zs. y ∷ zs) rest)
  | inr e ↦ absurd (cc (rw e at h))
]

-- A token that is a session id, a dot, and the signature of that id under the secret: the bytes
-- that follow the dot are those of the keyed hash, which has some.
pub record IsSigned (hmac : String → String → String) (hex_bytes : String → List ℕ)
    (configured : Option String) (token session_id : String) : Type 0 where
  pub presented : String
  pub split : split_at_dot token ≡ some (session_id, presented)
  pub secret : String
  pub configured_secret : secret_of configured ≡ ok secret
  pub signature : hex_bytes presented ≡ hex_bytes (hmac secret session_id)
  pub has_bytes : is_empty (hex_bytes (hmac secret session_id)) ≡ false

abbrev id_of : Result (Option String) → String
id_of (ok (some id)) = id
id_of _ = ""

module _ (hmac : String → String → String) (hex_bytes : String → List ℕ) where
  is_signed-bytes :
      (secret id presented : String)
      → is_signed hmac hex_bytes secret id presented ≡ true
      → (hex_bytes presented ≡ hex_bytes (hmac secret id))
        × (is_empty (hex_bytes (hmac secret id)) ≡ false)
  unfolding is_signed
  is_signed-bytes secret id presented h =
      elim (Bool-cases (is_empty (hex_bytes (hmac secret id)))) [
        | inl e ↦ absurd (cc (rw e at h))
        | inr e ↦ (same_bytes_eq (hex_bytes presented) (hex_bytes (hmac secret id)) (rw e at h), e)
      ]

  extract_session_id-IsSigned :
      (configured : Option String) (token id : String)
      → extract_session_id hmac hex_bytes configured token ≡ ok (some id)
      → IsSigned hmac hex_bytes configured token id
  unfolding extract_session_id extract_parts check_signature
  extract_session_id-IsSigned configured token id h =
      elim (Bool-cases (leb 33 (text_length token))) [
        | inr short ↦ absurd (cc (rw (extract_session_id, short) at h))
        | inl enough ↦ elim (Option-cases (split_at_dot token)) [
          | inl none_e ↦ absurd (cc (rw (extract_session_id, enough, none_e) at h))
          | inr ((found, presented), e) ↦
              parts found presented e (rw (extract_session_id, enough, e) at h)
        ]
      ]
    where
      parts :
          (found presented : String)
          → split_at_dot token ≡ some (found, presented)
          → extract_parts hmac hex_bytes configured (some (found, presented)) ≡ ok (some id)
          → IsSigned hmac hex_bytes configured token id
      parts found presented e h' = elim (Bool-cases (str_eq found "" || str_eq presented "")) [
        | inl missing ↦ absurd (cc (rw (extract_parts, missing) at h'))
        | inr there ↦ elim (Result-cases (secret_of configured)) [
          | inl (x, thrown) ↦ absurd (cc (rw (extract_parts, there, thrown) at h'))
          | inr (secret, c) ↦ elim (Bool-cases (is_signed hmac hex_bytes secret found presented)) [
            | inr forged ↦ absurd (cc (rw (extract_parts, there, c, forged) at h'))
            | inl signed ↦
                let same : found ≡ id = ap id_of (rw (extract_parts, there, c, signed) at h') in
                let (bytes, some_bytes) = is_signed-bytes secret found presented signed in
                record {
                  presented = presented;
                  split = e ∙ ap (λ i. some (i, presented)) same;
                  secret = secret;
                  configured_secret = c;
                  signature = bytes ∙ ap (λ i. hex_bytes (hmac secret i)) same;
                  has_bytes =
                      ap (λ i. is_empty (hex_bytes (hmac secret i))) (sym same) ∙ some_bytes;
                }
          ]
        ]
      ]

module _ {C : Store ImpersonationSession} (hmac : String → String → String)
    (hex_bytes : String → List ℕ) where
  begin_session-sessions :
      (env : ImpersonationEnv) (opts : ImpersonationStartOptions) (secret : String)
      (w : ImpersonationWorld C)
      → env.write_fails ≡ false
      → (begin_session hmac env opts secret w).1.sessions
        ≡ C.put env.random_id (new_session env opts) w.sessions
  unfolding begin_session store_session
  begin_session-sessions env opts secret w writes = ground arith

  stop_session-sessions :
      (env : ImpersonationEnv) (id : String) (session : ImpersonationSession)
      (w : ImpersonationWorld C)
      → (stop_session env id (some session) w).1.sessions ≡ C.del id w.sessions
  unfolding stop_session
  stop_session-sessions env id session w = ground arith

  -- Whatever a token says, stopping it leaves no session under its id.
  stopped :
      (env env' : ImpersonationEnv) (r : Result (Option String)) (ctx : ImpersonationContext)
      (w : ImpersonationWorld C)
      → (on_session none (verify_session env') r (on_session false (stop_session env) r w).1).0
        ≢ ok (some ctx)
  unfolding on_session verify_session stop_session
  stopped env env' (throw e) ctx w h = cc h
  stopped env env' (ok none) ctx w h = cc h
  stopped env env' (ok (some id)) ctx w h = elim (Option-cases (C.get id w.sessions)) [
    | inl gone ↦ cc (rw gone at (rw gone at h))
    | inr (session, there) ↦
        let gone : C.get id (stop_session env id (some session) w).1.sessions ≡ none =
          rw (stop_session-sessions env id session w)
            (rw (C.get-del id id w.sessions) (rw (eq_refl id) refl)) in
        cc (rw gone at (rw there at h))
  ]

  verified :
      (env : ImpersonationEnv) (r : Result (Option String)) (ctx : ImpersonationContext)
      (w : ImpersonationWorld C)
      → (on_session none (verify_session env) r w).0 ≡ ok (some ctx)
      → (session_id : String) × (session : ImpersonationSession) × (r ≡ ok (some session_id))
        × (C.get session_id w.sessions ≡ some session)
        × (env.now < session.expires_at)
        × (ctx ≡ context_of session)
  unfolding on_session verify_session
  verified env (throw e) ctx w h = absurd (cc h)
  verified env (ok none) ctx w h = absurd (cc h)
  verified env (ok (some id)) ctx w h = elim (Option-cases (C.get id w.sessions)) [
    | inl gone ↦ absurd (cc (rw gone at h))
    | inr (session, there) ↦ elim (Bool-cases (leb session.expires_at env.now)) [
      | inl past ↦ absurd (cc (rw past at (rw there at h)))
      | inr future ↦ (id, session, refl, there, ground arith, cc (rw future at (rw there at h)))
    ]
  ]

  -- A session that was started is what its token is verified as, until it expires: the secret is
  -- the same and long enough, the ids match the pattern, the cache can be written, and the random id
  -- has 32 characters or more, no dot, and a signature with bytes.
  pub verify-start :
      (env env' : ImpersonationEnv) (opts : ImpersonationStartOptions) (secret : String)
      (w : ImpersonationWorld C)
      → secret_of env.secret ≡ ok secret
      → secret_of env'.secret ≡ ok secret
      → (is_target_user_id opts.target_user_id && is_target_user_id opts.admin_id) ≡ true
      → env.write_fails ≡ false
      → any_char (is_code b'.') env.random_id ≡ false
      → leb 32 (text_length env.random_id) ≡ true
      → str_eq (hmac secret env.random_id) "" ≡ false
      → is_empty (hex_bytes (hmac secret env.random_id)) ≡ false
      → ltb env'.now (env.now + duration_of env opts * 1000) ≡ true
      → let token = sign hmac secret env.random_id in
        ((start hmac env opts w).0
          ≡ ok (record {
            token = token;
            session_id = env.random_id;
            expires_at = env.now + duration_of env opts * 1000;
          }))
        × ((verify hmac hex_bytes env' token (start hmac env opts w).1).0
            ≡ ok (some (context_of (new_session env opts))))
  unfolding start begin_session store_session verify on_session verify_session
  verify-start env env' opts secret w e e' ids writes dotless long sig bytes alive =
      let id : String = env.random_id in
      let session : ImpersonationSession = new_session env opts in
      let begun : start hmac env opts w ≡ begin_session hmac env opts secret w =
        simp (start, e, ids) in
      let stored : (start hmac env opts w).1.sessions ≡ C.put id session w.sessions =
        rw begun (begin_session-sessions env opts secret w writes) in
      let found : C.get id (start hmac env opts w).1.sessions ≡ some session =
        rw stored (rw (C.get-put id id session w.sessions) (rw (eq_refl id) refl)) in
      let signed =
        extract_session_id-sign hmac hex_bytes env'.secret secret id e' dotless long sig bytes in
      let late : leb (env.now + duration_of env opts * 1000) env'.now ≡ false =
        ground (arith, alive) in
      (
        rw begun (simp (begin_session, store_session, writes)),
        simp (verify, on_session, verify_session, signed, found, late),
      )

  -- A token that was stopped is never verified again, at no later time and by no server with the
  -- same secret, on the sessions as `stop` leaves them.
  pub verify-stop :
      (env env' : ImpersonationEnv) (token : String) (ctx : ImpersonationContext)
      (w : ImpersonationWorld C)
      → env.secret ≡ env'.secret
      → (verify hmac hex_bytes env' token (stop hmac hex_bytes env token w).1).0 ≢ ok (some ctx)
  unfolding verify stop on_session verify_session stop_session
  verify-stop env env' token ctx w same =
      rw same (stopped env env' (extract_session_id hmac hex_bytes env'.secret token) ctx w)

  -- A token is verified only as a session that is stored and has not expired, and only where the
  -- token is the id of that session, a dot and the signature of the id: the bytes after the dot are
  -- those of the keyed hash of the id under the configured secret, which has some.
  pub verify-session :
      (env : ImpersonationEnv) (token : String) (ctx : ImpersonationContext)
      (w : ImpersonationWorld C)
      → (verify hmac hex_bytes env token w).0 ≡ ok (some ctx)
      → (session_id : String) × (session : ImpersonationSession) × IsSigned hmac hex_bytes
          env.secret token session_id
        × (C.get session_id w.sessions ≡ some session)
        × (env.now < session.expires_at)
        × (ctx ≡ context_of session)
  unfolding verify on_session verify_session
  verify-session env token ctx w e =
      let (session_id, session, extracted, there, alive, same) =
        verified env (extract_session_id hmac hex_bytes env.secret token) ctx w e in
      (
        session_id,
        session,
        extract_session_id-IsSigned hmac hex_bytes env.secret token session_id extracted,
        there,
        alive,
        same,
      )
