-- ===== src/Exceptions.antt =====
-- src/exceptions: what the services and the middleware throw, with the HTTP status of each.
pub mod Billing
use adonisjs_lasagna_saas_te.Prelude.{ℕ, ◌≡◌, ◌⊎◌, inl, inr, refl, String, Option, get_or}
use Billing.{BillingErrorCode}

pub data Exception : Type 0 where
  missing_tenant_header : Exception
  tenant_not_found : Exception
  tenant_suspended : Exception
  tenant_not_ready : Exception
  -- `retryAfterSeconds` and `tenantMessage`
  tenant_maintenance : ℕ → Option String → Exception
  circuit_open : Exception
  -- tenant id, quota, limit, current, attempted
  quota_exceeded : String → String → ℕ → ℕ → ℕ → Exception
  -- dependency, operation, tenant id
  dependency_unavailable : String → String → Option String → Exception
  too_many_requests : Exception
  rate_limit_unavailable : Exception
  impersonation_invalid : Exception
  central_route_violation : Exception
  tenant_header_domain_mismatch : Exception
  -- code, message, and the status given to the constructor
  billing : BillingErrorCode → String → Option ℕ → Exception
  -- a plain `Error`, of the package or of a library that it calls
  error : String → Exception

-- The status that the HTTP layer answers with; a plain `Error` is a 500.
unfoldable pub status : Exception → ℕ
status missing_tenant_header = 400
status tenant_not_found = 404
status tenant_suspended = 403
status tenant_not_ready = 503
status (tenant_maintenance _ _) = 503
status circuit_open = 503
status (quota_exceeded _ _ _ _ _) = 429
status (dependency_unavailable _ _ _) = 503
status too_many_requests = 429
status rate_limit_unavailable = 503
status impersonation_invalid = 401
status central_route_violation = 404
status tenant_header_domain_mismatch = 400
status (billing _ _ given) = get_or given 400
status (error _) = 500

-- A promise that resolves, or that rejects with what was thrown.
pub data Result {ℓ} (A : Type ℓ) : Type ℓ where
  ok : A → Result A
  throw : Exception → Result A

pub Result-cases {ℓ} :
    {A : Type ℓ} (r : Result A) → ((e : Exception) × (r ≡ throw e)) ⊎ ((a : A) × (r ≡ ok a))
Result-cases (ok a) = inr (a, refl)
Result-cases (throw e) = inl (e, refl)

-- Code that changes a state `W` and may throw: what it wrote before it threw stays written.
abbrev pub M : Type 0 → Type 0 → Type 0
M W A = W → Result A × W

abbrev pub continue : {W A B : Type 0} → Result A × W → (A → M W B) → Result B × W
continue (ok a, w) f = f a w
continue (throw e, w) f = (throw e, w)

infixl 5 ◌>>=◌ ◌>>◌
abbrev pub ◌>>=◌ : {W A B : Type 0} → M W A → (A → M W B) → M W B
◌>>=◌ m f w = continue (m w) f

abbrev pub ◌>>◌ : {W B : Type 0} → M W (Unit {0}) → M W B → M W B
m >> k = m >>= λ _. k

abbrev pub pure : {W A : Type 0} → A → M W A
pure a w = (ok a, w)

abbrev pub raise : {W A : Type 0} → Exception → M W A
raise e w = (throw e, w)

abbrev pub gets : {W A : Type 0} → (W → A) → M W A
gets f w = (ok (f w), w)

abbrev pub modify : {W : Type 0} → (W → W) → M W (Unit {0})
modify f w = (ok tt, f w)
