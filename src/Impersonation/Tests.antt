-- ===== src/Impersonation/Tests.antt =====
-- A session of a minute, its end, and a token with another signature.
use adonisjs_lasagna_saas_te.Prelude.{
  ℕ, ◌<◌, ◌≡◌, ◌≢◌, refl, String, true, false, none, some, List, [], ◌∷◌, str_eq, if◌then◌else◌,
}
use adonisjs_lasagna_saas_te.Exceptions.{ok}
use adonisjs_lasagna_saas_te.Store.{Store}
use adonisjs_lasagna_saas_te.Store.Memory.{memory, nothing}
use adonisjs_lasagna_saas_te.Impersonation.{
  ImpersonationSession, ImpersonationStartOptions, ImpersonationEnv, ImpersonationWorld,
  is_target_user_id, split_at_dot, secret_of, same_bytes, is_signed, extract_parts, context_of,
  new_session, sign, duration_of, start, verify, stop,
}
use adonisjs_lasagna_saas_te.Impersonation.Sessions.{
  IsSigned, verify-start, verify-stop, verify-session,
}

abbrev sessions : Store ImpersonationSession
sessions = memory ImpersonationSession

abbrev hmac : String → String → String
hmac secret id = "ff"

abbrev hex_bytes : String → List ℕ
hex_bytes text = if str_eq text "ff" then 255 ∷ [] else []

abbrev env_at : ℕ → ImpersonationEnv
env_at now = record {
  secret = some "0123456789abcdef0123456789abcdef";
  default_duration = none;
  max_duration = none;
  now = now;
  now_text = "2026-01-01T00:00:00Z";
  random_id = "00112233445566778899aabbccddeeff";
  audits = true;
  write_fails = false;
}

abbrev opts : ImpersonationStartOptions
opts = record {
  tenant_id = "acme";
  target_user_id = "user-1";
  admin_id = "admin-1";
  admin_type = none;
  reason = none;
  duration_seconds = some 10;
  ip_address = none;
}

abbrev empty : ImpersonationWorld sessions
empty = record { sessions = nothing; audit_log = [] }

-- The shortest session lasts a minute.
a_minute : duration_of (env_at 0) opts ≡ 60
unfolding duration_of
a_minute = refl

abbrev token : String
token = "00112233445566778899aabbccddeeff.ff"

verify-start_example :
    ((start hmac (env_at 5) opts empty).0
      ≡ ok (record {
        token = token;
        session_id = "00112233445566778899aabbccddeeff";
        expires_at = 60005;
      }))
    × ((verify hmac hex_bytes (env_at 60004) token (start hmac (env_at 5) opts empty).1).0
        ≡ ok (some (context_of (new_session (env_at 5) opts))))
unfolding secret_of is_target_user_id duration_of sign
verify-start_example =
    verify-start hmac hex_bytes (env_at 5) (env_at 60004) opts "0123456789abcdef0123456789abcdef"
      empty refl refl refl refl refl refl refl refl refl

verify-stop_example :
    (verify hmac hex_bytes
      (env_at 7)
      token
      (stop hmac hex_bytes (env_at 6) token (start hmac (env_at 5) opts empty).1).1).0
    ≢ ok (some (context_of (new_session (env_at 5) opts)))
verify-stop_example =
    verify-stop hmac hex_bytes (env_at 6) (env_at 7) token
      (context_of (new_session (env_at 5) opts)) (start hmac (env_at 5) opts empty).1 refl

-- A token with another signature is no token.
forged :
    (verify hmac hex_bytes
      (env_at 6)
      "00112233445566778899aabbccddeeff.fe"
      (start hmac (env_at 5) opts empty).1).0
    ≡ ok none
unfolding verify split_at_dot secret_of extract_parts is_signed same_bytes
forged = refl

alive :
    (verify hmac hex_bytes (env_at 60004) token (start hmac (env_at 5) opts empty).1).0
    ≡ ok (some (context_of (new_session (env_at 5) opts)))
unfolding secret_of is_target_user_id duration_of sign
alive =
    (verify-start hmac hex_bytes (env_at 5) (env_at 60004) opts "0123456789abcdef0123456789abcdef"
      empty refl refl refl refl refl refl refl refl refl).1

verify-session_example :
    let w = (start hmac (env_at 5) opts empty).1 in
    (session_id : String) × (session : ImpersonationSession) × IsSigned hmac hex_bytes
      (env_at 60004).secret
      token
      session_id
    × (sessions.get session_id w.sessions ≡ some session)
    × (60004 < session.expires_at)
    × (context_of (new_session (env_at 5) opts) ≡ context_of session)
verify-session_example =
    verify-session hmac hex_bytes (env_at 60004) token (context_of (new_session (env_at 5) opts))
      (start hmac (env_at 5) opts empty).1 alive
