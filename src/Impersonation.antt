-- ===== src/Impersonation.antt =====
-- src/services/impersonation_service.ts: sessions in which an admin acts as a user of a tenant.
pub mod Sessions
pub mod Tests
use Prim.Native.Nat.{min, max}
use adonisjs_lasagna_saas_te.Prelude.{
  ℕ, ◌+◌, ◌*◌, String, Char, Bool, true, false, not, ◌&&◌, ◌||◌, Option, none, some, List, [], ◌∷◌,
  str_append, str_eq, if◌then◌else◌, get_or, is_some, within, is_code, all_chars, text_length, leb,
  ltb, push_front, ◌==◌,
}
use adonisjs_lasagna_saas_te.Exceptions.{error, Result, ok, throw, M, ◌>>=◌, continue}
use adonisjs_lasagna_saas_te.Store.{Store}

pub record ImpersonationSession : Type 0 where
  pub id : String
  pub tenant_id : String
  pub target_user_id : String
  pub admin_id : String
  pub admin_type : String
  pub reason : Option String
  pub started_at : String
  pub expires_at : ℕ
  pub ip_address : Option String
  pub first_verify_at : Option String

pub record ImpersonationContext : Type 0 where
  pub session_id : String
  pub tenant_id : String
  pub user_id : String
  pub admin_id : String
  pub admin_type : String
  pub started_at : String

pub record ImpersonationStartOptions : Type 0 where
  pub tenant_id : String
  pub target_user_id : String
  pub admin_id : String
  pub admin_type : Option String
  pub reason : Option String
  pub duration_seconds : Option ℕ
  pub ip_address : Option String

pub record ImpersonationStartResult : Type 0 where
  pub token : String
  pub session_id : String
  pub expires_at : ℕ

-- An entry of the audit log: the action, its actor and tenant, and the session.
pub data AuditEntry : Type 0 where
  audit_entry : String → String → String → String → AuditEntry

-- The configuration, the clock, the random id that is drawn next, whether there is an audit log
-- that works, and whether writes to the cache fail.
pub record ImpersonationEnv : Type 0 where
  pub secret : Option String
  pub default_duration : Option ℕ
  pub max_duration : Option ℕ
  pub now : ℕ
  pub now_text : String
  pub random_id : String
  pub audits : Bool
  pub write_fails : Bool

pub record ImpersonationWorld (C : Store ImpersonationSession) : Type 0 where
  pub sessions : C.State
  pub audit_log : List AuditEntry

-- `[a-zA-Z0-9._:@-]`
abbrev is_id_char : Char → Bool
is_id_char c =
    within b'a' b'z' c
    || within b'A' b'Z' c
    || within b'0' b'9' c
    || is_code b'.' c
    || is_code b'_' c
    || is_code b':' c
    || is_code b'@' c
    || is_code b'-' c

-- `TARGET_USER_ID_RE.test`
unfoldable pub is_target_user_id : String → Bool
is_target_user_id s = all_chars is_id_char s && leb 1 (text_length s) && leb (text_length s) 128

abbrev push_left : Char → Option (String × String) → Option (String × String)
push_left c none = none
push_left c (some (a, b)) = some (String.◌∷◌ c a, b)

-- A text before and after its first dot.
unfoldable pub split_at_dot : String → Option (String × String)
split_at_dot String.[] = none
split_at_dot (String.◌∷◌ c s) =
    let rest = push_left c (split_at_dot s) in if is_code b'.' c then some ("", s) else rest

unfoldable pub duration_of : ImpersonationEnv → ImpersonationStartOptions → ℕ
duration_of env opts =
    min (max (get_or opts.duration_seconds (get_or env.default_duration 900)) 60)
      (get_or env.max_duration 86400)

-- `#secret`
unfoldable pub secret_of : Option String → Result String
secret_of configured = elim configured [
  | none ↦ throw (error "multitenancy.impersonation.secret is not configured")
  | some secret ↦
      if leb 32 (text_length secret)
      then ok secret
      else throw (error "multitenancy.impersonation.secret is shorter than 32 characters")
]

-- `a.length === b.length`, `a.length !== 0` and `timingSafeEqual`, on bytes
unfoldable pub same_bytes : List ℕ → List ℕ → Bool
same_bytes [] [] = true
same_bytes [] (y ∷ ys) = false
same_bytes (x ∷ xs) [] = false
same_bytes (x ∷ xs) (y ∷ ys) = x == y && same_bytes xs ys

abbrev pub is_empty : List ℕ → Bool
is_empty [] = true
is_empty (x ∷ xs) = false

abbrev pub context_of : ImpersonationSession → ImpersonationContext
context_of session = record {
  session_id = session.id;
  tenant_id = session.tenant_id;
  user_id = session.target_user_id;
  admin_id = session.admin_id;
  admin_type = session.admin_type;
  started_at = session.started_at;
}

-- `#sign`
unfoldable pub sign : (String → String → String) → String → String → String
sign hmac secret session_id = str_append session_id (str_append "." (hmac secret session_id))

-- `hmac` is the keyed hash of Node's `crypto` as a hexadecimal text, and `hex_bytes` is
-- `Buffer.from(text, 'hex')`.
module _ (hmac : String → String → String) (hex_bytes : String → List ℕ) where
  unfoldable pub is_signed : String → String → String → Bool
  unfolding same_bytes
  is_signed secret session_id presented =
      let expected = hex_bytes (hmac secret session_id) in
      not (is_empty expected) && same_bytes (hex_bytes presented) expected

  unfoldable pub check_signature : String → String → Result String → Result (Option String)
  unfolding is_signed
  check_signature session_id presented (throw e) = throw e
  check_signature session_id presented (ok secret) =
      ok (if is_signed secret session_id presented then some session_id else none)

  -- The parts of a token, neither of which may be empty.
  unfoldable pub extract_parts : Option String → Option (String × String) → Result (Option String)
  unfolding secret_of check_signature
  extract_parts configured none = ok none
  extract_parts configured (some (session_id, presented)) =
      if str_eq session_id "" || str_eq presented ""
      then ok none
      else check_signature session_id presented (secret_of configured)

  -- `#extractSessionId`
  unfoldable pub extract_session_id : Option String → String → Result (Option String)
  unfolding split_at_dot extract_parts
  extract_session_id configured token =
      if leb 33 (text_length token) then extract_parts configured (split_at_dot token) else ok none

abbrev pub new_session : ImpersonationEnv → ImpersonationStartOptions → ImpersonationSession
new_session env opts = record {
  id = env.random_id;
  tenant_id = opts.tenant_id;
  target_user_id = opts.target_user_id;
  admin_id = opts.admin_id;
  admin_type = get_or opts.admin_type "admin";
  reason = opts.reason;
  started_at = env.now_text;
  expires_at = env.now + duration_of env opts * 1000;
  ip_address = opts.ip_address;
  first_verify_at = none;
}

module _ {C : Store ImpersonationSession} where
  -- `#audit`: a failure of the log is passed over.
  abbrev audit :
      ImpersonationEnv → String → ImpersonationSession → ImpersonationWorld C → ImpersonationWorld C
  audit env action session w =
      if env.audits
      then record w {
        audit_log = audit_entry action session.admin_id session.tenant_id session.id ∷ w.audit_log;
      }
      else w

  unfoldable pub store_session :
      ImpersonationEnv → ImpersonationSession → M (ImpersonationWorld C) (Unit {0})
  store_session env session w =
      if env.write_fails
      then (throw (error "the cache is not writable"), w)
      else (ok tt, record w { sessions = C.put session.id session w.sessions })

  -- The entry of the first use; a failure to store it is passed over.
  unfoldable pub mark_used :
      ImpersonationEnv → ImpersonationSession → ImpersonationWorld C → ImpersonationWorld C
  unfolding store_session
  mark_used env session w =
      if is_some session.first_verify_at || env.write_fails
      then w
      else (let used = record session { first_verify_at = some env.now_text } in
          audit env "admin:impersonate:first-use" used (store_session env used w).1)

  unfoldable pub verify_session :
      ImpersonationEnv
      → String
      → Option ImpersonationSession
      → M (ImpersonationWorld C) (Option ImpersonationContext)
  unfolding mark_used
  verify_session env session_id none w = (ok none, w)
  verify_session env session_id (some session) w =
      if leb session.expires_at env.now
      then (ok none, record w { sessions = C.del session_id w.sessions })
      else (ok (some (context_of session)), mark_used env session w)

  unfoldable pub stop_session :
      ImpersonationEnv → String → Option ImpersonationSession → M (ImpersonationWorld C) Bool
  stop_session env session_id none w = (ok false, w)
  stop_session env session_id (some session) w =
      let w' = record w { sessions = C.del session_id w.sessions } in
      (ok true, audit env "admin:impersonate:stop" session w')

  -- `revokeById`
  unfoldable pub revoke_by_id : String → M (ImpersonationWorld C) Bool
  revoke_by_id session_id w = elim (C.get session_id w.sessions) [
    | none ↦ (ok false, w)
    | some session ↦ (ok true, record w { sessions = C.del session_id w.sessions })
  ]

module _ {C : Store ImpersonationSession} (hmac : String → String → String) where
  -- `start`
  unfoldable pub begin_session :
      ImpersonationEnv
      → ImpersonationStartOptions
      → String
      → M (ImpersonationWorld C) ImpersonationStartResult
  unfolding store_session sign
  begin_session env opts secret w =
      let session = new_session env opts in
      continue (store_session env session w) λ u w'. (
        ok (record {
          token = sign hmac secret session.id;
          session_id = session.id;
          expires_at = session.expires_at;
        }),
        audit env "admin:impersonate:start" session w',
      )

  unfoldable pub start :
      ImpersonationEnv
      → ImpersonationStartOptions
      → M (ImpersonationWorld C) ImpersonationStartResult
  unfolding secret_of is_target_user_id begin_session
  start env opts w = elim (secret_of env.secret) [
    | throw e ↦ (throw e, w)
    | ok secret ↦
        if is_target_user_id opts.target_user_id && is_target_user_id opts.admin_id
        then begin_session env opts secret w
        else (throw (error "the id does not match the pattern"), w)
  ]

-- What follows the extraction of the session id, where there is one.
unfoldable pub on_session :
    {C : Store ImpersonationSession} {A : Type 0}
    → A
    → (String → Option ImpersonationSession → M (ImpersonationWorld C) A)
    → Result (Option String)
    → M (ImpersonationWorld C) A
on_session missing f (throw e) w = (throw e, w)
on_session missing f (ok none) w = (ok missing, w)
on_session {C} missing f (ok (some session_id)) w = f session_id (C.get session_id w.sessions) w

module _ {C : Store ImpersonationSession} (hmac : String → String → String)
    (hex_bytes : String → List ℕ) (env : ImpersonationEnv) where
  -- `verify`
  unfoldable pub verify : String → M (ImpersonationWorld C) (Option ImpersonationContext)
  unfolding extract_session_id verify_session on_session
  verify token =
      on_session none (verify_session env) (extract_session_id hmac hex_bytes env.secret token)

  -- `stop`
  unfoldable pub stop : String → M (ImpersonationWorld C) Bool
  unfolding extract_session_id stop_session on_session
  stop token =
      on_session false (stop_session env) (extract_session_id hmac hex_bytes env.secret token)
