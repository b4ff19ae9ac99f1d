-- ===== src/Exceptions/Billing.antt =====
-- src/exceptions/billing_exception.ts: the taxonomy of billing errors, and which are retried.
use adonisjs_lasagna_saas_te.Prelude.{ℕ, String, Bool, true, false, not, str_eq, if◌then◌else◌}

pub data BillingErrorCode : Type 0 where
  peer_missing : BillingErrorCode
  config_missing : BillingErrorCode
  test_in_production : BillingErrorCode
  live_key_outside_production : BillingErrorCode
  invalid_signature : BillingErrorCode
  webhook_body_unreadable : BillingErrorCode
  customer_not_found : BillingErrorCode
  tenant_not_resolvable : BillingErrorCode
  plan_unmapped : BillingErrorCode
  invalid_price : BillingErrorCode
  subscription_not_found : BillingErrorCode
  card_declined : BillingErrorCode
  rate_limited : BillingErrorCode
  api_error : BillingErrorCode
  network_error : BillingErrorCode
  metering_failed : BillingErrorCode
  idempotency_conflict : BillingErrorCode
  queue_unavailable : BillingErrorCode
  authentication_failed : BillingErrorCode
  invalid_stripe_request : BillingErrorCode
  permission_denied : BillingErrorCode

-- `FATAL_CODES.has(code)`
unfoldable pub is_fatal : BillingErrorCode → Bool
is_fatal peer_missing = true
is_fatal config_missing = true
is_fatal test_in_production = true
is_fatal live_key_outside_production = true
is_fatal invalid_signature = true
is_fatal webhook_body_unreadable = true
is_fatal plan_unmapped = true
is_fatal invalid_price = true
is_fatal subscription_not_found = true
is_fatal card_declined = true
is_fatal idempotency_conflict = true
is_fatal authentication_failed = true
is_fatal invalid_stripe_request = true
is_fatal permission_denied = true
is_fatal _ = false

unfoldable pub is_retryable : BillingErrorCode → Bool
unfolding is_fatal
is_retryable code = not (is_fatal code)

-- `fromStripeError`, by the `type` of the SDK's error ("" if it has none) and the message for an
-- unknown one: the code, the message and the status.
unfoldable pub from_stripe_error : String → String → BillingErrorCode × String × ℕ
from_stripe_error type fallback =
    if str_eq type "StripeCardError"
    then (card_declined, "Card was declined", 402)
    else if str_eq type "StripeRateLimitError"
    then (rate_limited, "Stripe API rate limit", 429)
    else if str_eq type "StripeConnectionError"
    then (network_error, "Stripe connection error", 503)
    else if str_eq type "StripeSignatureVerificationError"
    then (invalid_signature, "Invalid webhook signature", 401)
    else if str_eq type "StripeIdempotencyError"
    then (idempotency_conflict, "Stripe idempotency key reused with different params", 409)
    else if str_eq type "StripeAuthenticationError"
    then (authentication_failed, "Stripe API key was rejected — check STRIPE_API_KEY", 401)
    else if str_eq type "StripeInvalidRequestError"
    then (invalid_stripe_request, "Stripe rejected the request as invalid", 400)
    else if str_eq type "StripePermissionError"
    then (permission_denied, "Stripe API key does not have permission for this resource", 403)
    else (api_error, fallback, 500)
