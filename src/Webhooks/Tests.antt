-- ===== src/Webhooks/Tests.antt =====
-- A webhook that is retried, and one whose secret cannot be decrypted.
use adonisjs_lasagna_saas_te.Prelude.{
  ℕ, ◌≤◌, ◌≡◌, refl, arith, String, true, Option, none, some, List, [], ◌∷◌, if◌then◌else◌, take,
  any, map,
}
use adonisjs_lasagna_saas_te.Exceptions.{error, throw}
use adonisjs_lasagna_saas_te.Webhooks.{
  TenantWebhook, TenantWebhookDelivery, pending, success, failed, retrying, Answer, responded,
  unreachable, World, Env, dispatch, process_retries, max_attempts, backoff_with_jitter,
}
use adonisjs_lasagna_saas_te.Webhooks.Attempts.{attempts, delivered_by, attempts-outcome}

abbrev first_delivery : TenantWebhookDelivery
first_delivery = record {
  webhook_id = "w";
  event = "user.created";
  payload = "{}";
  status_code = none;
  response_body = none;
  attempt = 1;
  status = pending;
  next_retry_at = none;
}

abbrev answers : List (ℕ × ℕ × Answer)
answers =
    (0, 0, responded 500 none)
    ∷ (10, 0, unreachable "timeout")
    ∷ (70, 0, responded 200 (some "ok"))
    ∷ (80, 0, responded 200 none)
    ∷ (90, 0, responded 200 none)
    ∷ []

attempts-outcome_example :
    ((attempts answers first_delivery).1 ≤ max_attempts)
    × ((attempts answers first_delivery).0.status
        ≡ (if any delivered_by (take max_attempts answers) then success else failed))
attempts-outcome_example = attempts-outcome answers first_delivery refl (omega arith)

three_attempts : (attempts answers first_delivery).1 ≡ 3
unfolding attempts
three_attempts = refl

shortest_delay : backoff_with_jitter 0 1 ≡ 8
unfolding backoff_with_jitter
shortest_delay = refl

abbrev hook : String → Option String → TenantWebhook
hook id secret = record {
  id = id;
  tenant_id = "acme";
  url = "https://example.com";
  events = "user.created" ∷ [];
  secret = secret;
  enabled = true;
}

abbrev accept_all : Env
accept_all = record {
  now = 100;
  random = 0;
  fresh_id = λ w. "d1";
  decrypt = λ s. throw (error "bad key");
  encrypt = λ s. s;
  hmac = λ secret body. "00";
  fetch = λ r. responded 200 none;
}

abbrev due : String → TenantWebhookDelivery
due id = record first_delivery {
  webhook_id = id;
  status = retrying;
  attempt = 2;
  next_retry_at = some 50;
}

-- Ten deliveries of a webhook whose secret cannot be decrypted, and one of another webhook.
abbrev blocked : World
blocked = record {
  hooks = hook "bad" (some "x") ∷ hook "good" none ∷ [];
  deliveries =
      ("1", due "bad")
      ∷ ("2", due "bad")
      ∷ ("3", due "bad")
      ∷ ("4", due "bad")
      ∷ ("5", due "bad")
      ∷ ("6", due "bad")
      ∷ ("7", due "bad")
      ∷ ("8", due "bad")
      ∷ ("9", due "bad")
      ∷ ("10", due "bad")
      ∷ ("11", due "good")
      ∷ [];
  sent = [];
}

-- The delivery of the other webhook is not sent, now or in any later run.
blocked_retries : process_retries accept_all blocked ≡ (throw (error "bad key"), blocked)
unfolding process_retries
blocked_retries = refl

dispatched :
    map
      (λ r. r.delivery_id)
      (dispatch accept_all "acme" "user.created" "{}"
        (record blocked { hooks = hook "good" none ∷ []; deliveries = [] })).1.sent
    ≡ "d1" ∷ []
unfolding dispatch
dispatched = refl
