-- ===== src/Webhooks.antt =====
-- src/services/webhook_service.ts, with src/models/satellites/tenant_webhook_delivery.ts: webhooks
-- of tenants, their deliveries and retries.
pub mod Backoff
pub mod Attempts
pub mod Tests
use adonisjs_lasagna_saas_te.Prelude.{
  ℕ, zero, suc, ◌+◌, ◌-◌, ◌*◌, ◌/◌, String, Bool, true, false, not, ◌&&◌, Option, none, some, List,
  [], ◌∷◌, ◌++◌, if◌then◌else◌, leb, ltb, ◌==◌, take, drop, filter, map, length, includes, str_eq,
  truthy, get_elem?, get_or, text_length,
}
use adonisjs_lasagna_saas_te.Exceptions.{
  Exception, Result, ok, throw, M, continue, ◌>>=◌, ◌>>◌, pure, raise, error,
}

-- `MAX_ATTEMPTS`
abbrev pub max_attempts : ℕ
max_attempts = 5

-- `BACKOFF_BASE_SECONDS`
abbrev pub backoff_base_seconds : List ℕ
backoff_base_seconds = 10 ∷ 60 ∷ 300 ∷ 1800 ∷ 7200 ∷ []

-- `Math.random()` is a number of these parts.
abbrev pub random_parts : ℕ
random_parts = 9007199254740992

-- `Math.round(base + base * 0.2 * (random * 2 - 1))`
unfoldable pub backoff_with_jitter : ℕ → ℕ → ℕ
backoff_with_jitter random attempt =
    let base = get_or (get_elem? backoff_base_seconds (attempt - 1)) 7200 in
    (base * (8 * random_parts + 4 * random) + 5 * random_parts) / (10 * random_parts)

pub data DeliveryStatus : Type 0 where
  pending success failed retrying : DeliveryStatus

pub record TenantWebhook : Type 0 where
  pub id : String
  pub tenant_id : String
  pub url : String
  pub events : List String
  -- encrypted
  pub secret : Option String
  pub enabled : Bool

pub record TenantWebhookDelivery : Type 0 where
  pub webhook_id : String
  pub event : String
  pub payload : String
  pub status_code : Option ℕ
  pub response_body : Option String
  pub attempt : ℕ
  pub status : DeliveryStatus
  -- in seconds
  pub next_retry_at : Option ℕ

-- What `fetch` ends in: a response with its status and its body, or an error.
pub data Answer : Type 0 where
  responded : (status : ℕ) (body : Option String) → Answer
  unreachable : (reason : String) → Answer

pub record Request : Type 0 where
  pub url : String
  pub event : String
  pub delivery_id : String
  pub body : String
  pub signature : Option String

abbrev pub is_retrying : DeliveryStatus → Bool
is_retrying retrying = true
is_retrying _ = false

-- `res.ok`
abbrev pub is_ok : ℕ → Bool
is_ok status = leb 200 status && leb status 299

abbrev pub retry : ℕ → ℕ → TenantWebhookDelivery → TenantWebhookDelivery
retry now random d = record d {
  status = retrying;
  next_retry_at = some (now + backoff_with_jitter random d.attempt);
  attempt = d.attempt + 1;
}

-- The delivery after an answer, at the instant `now`.
unfoldable pub settle : ℕ → ℕ → Answer → TenantWebhookDelivery → TenantWebhookDelivery
unfolding backoff_with_jitter
settle now random (responded status body) d =
    let answered = record d {
      status_code = some status;
      response_body = body;
      status = if is_ok status then success else failed;
    } in
    if not (is_ok status) && ltb d.attempt max_attempts then retry now random answered else answered
settle now random (unreachable reason) d =
    let answered = record d { status_code = none; response_body = some reason; status = failed } in
    if ltb d.attempt max_attempts then retry now random answered else answered

-- The tables, a delivery by its id, and the requests that were sent.
pub record World : Type 0 where
  pub hooks : List TenantWebhook
  pub deliveries : List (String × TenantWebhookDelivery)
  pub sent : List Request

-- What the environment decides: the clock in seconds, the random number and the id of a new row,
-- the cipher, the keyed hash as a hexadecimal text, and the answer to a request.
pub record Env : Type 0 where
  pub now : ℕ
  pub random : ℕ
  pub fresh_id : World → String
  pub decrypt : String → Result String
  pub encrypt : String → String
  pub hmac : String → String → String
  pub fetch : Request → Answer

unfoldable pub save :
    String
    → TenantWebhookDelivery
    → List (String × TenantWebhookDelivery)
    → List (String × TenantWebhookDelivery)
save id d [] = (id, d) ∷ []
save id d ((j, e) ∷ rows) =
    let rest = (j, e) ∷ save id d rows in if str_eq j id then (id, d) ∷ rows else rest

module _ (E : Env) where
  -- `headers['x-webhook-signature']`; a secret that cannot be decrypted throws.
  unfoldable pub sign : TenantWebhook → String → Result (Option String)
  sign hook body = elim (truthy hook.secret) [
    | none ↦ ok none
    | some secret ↦ elim (E.decrypt secret) [
      | ok plain ↦ ok (some (E.hmac plain body))
      | throw e ↦ throw e
    ]
  ]

  abbrev request_of : TenantWebhook → String → TenantWebhookDelivery → Option String → Request
  request_of hook id d signature = record {
    url = hook.url;
    event = d.event;
    delivery_id = id;
    body = d.payload;
    signature = signature;
  }

  abbrev post : Request → String → TenantWebhookDelivery → World → World
  post request id d w = record w {
    deliveries = save id (settle E.now E.random (E.fetch request) d) w.deliveries;
    sent = w.sent ++ (request ∷ []);
  }

  unfoldable pub send : TenantWebhook → String → TenantWebhookDelivery → M World (Unit {0})
  unfolding sign save settle
  send hook id d w = elim (sign hook d.payload) [
    | throw e ↦ (throw e, w)
    | ok signature ↦ (ok tt, post (request_of hook id d signature) id d w)
  ]

  -- `Promise.all`: every call is made, and the first error is thrown at the end.
  unfoldable pub promise_all : List (M World (Unit {0})) → M World (Unit {0})
  promise_all [] w = (ok tt, w)
  promise_all (f ∷ fs) w =
      let (r, w') = f w in
      let (rs, w'') = promise_all fs w' in (elim r [ ok _ ↦ rs | throw e ↦ throw e ], w'')

  abbrev fresh_delivery : TenantWebhook → String → String → TenantWebhookDelivery
  fresh_delivery hook event payload = record {
    webhook_id = hook.id;
    event = event;
    payload = payload;
    status_code = none;
    response_body = none;
    attempt = 1;
    status = pending;
    next_retry_at = none;
  }

  deliver : String → String → TenantWebhook → M World (Unit {0})
  unfolding send save
  deliver event payload hook w =
      let id = E.fresh_id w in
      let d = fresh_delivery hook event payload in
      send hook id d (record w { deliveries = save id d w.deliveries })

  abbrev listens : String → String → TenantWebhook → Bool
  listens tenant_id event hook =
      str_eq hook.tenant_id tenant_id && (hook.enabled && includes event hook.events)

  unfoldable pub dispatch : String → String → String → M World (Unit {0})
  unfolding deliver promise_all
  dispatch tenant_id event payload w =
      promise_all (map (deliver event payload) (filter (listens tenant_id event) w.hooks)) w

  -- `mapConcurrent`, with fuel for its rounds: a chunk that throws ends the loop.
  unfoldable pub map_concurrent : ℕ → ℕ → List (M World (Unit {0})) → M World (Unit {0})
  unfolding promise_all
  map_concurrent zero concurrency calls = pure tt
  map_concurrent (suc fuel) concurrency [] = pure tt
  map_concurrent (suc fuel) concurrency (call ∷ calls) =
      promise_all (take concurrency (call ∷ calls))
      >> map_concurrent fuel concurrency (drop concurrency (call ∷ calls))

  abbrev is_due : String × TenantWebhookDelivery → Bool
  is_due (id, d) =
      is_retrying d.status && elim d.next_retry_at [ none ↦ false | some at ↦ leb at E.now ]

  find_hook : String → List TenantWebhook → Option TenantWebhook
  find_hook id [] = none
  find_hook id (hook ∷ hooks) =
      let rest = find_hook id hooks in if str_eq hook.id id then some hook else rest

  -- `this.send(d.webhook, d)`
  resend : List TenantWebhook → String × TenantWebhookDelivery → M World (Unit {0})
  unfolding send find_hook
  resend hooks (id, d) = elim (find_hook d.webhook_id hooks) [
    | none ↦ raise (error "Cannot read properties of null")
    | some hook ↦ send hook id d
  ]

  unfoldable pub process_retries : M World (Unit {0})
  unfolding resend map_concurrent
  process_retries w =
      map_concurrent 10 10 (map (resend w.hooks) (take 100 (filter is_due w.deliveries))) w

  unfoldable pub register_webhook :
      String → String → List String → Option String → String → World → World
  register_webhook tenant_id url events secret id w = record w {
    hooks =
        w.hooks
        ++ (record {
          id = id;
          tenant_id = tenant_id;
          url = url;
          events = events;
          secret = elim (truthy secret) [ none ↦ none | some plain ↦ some (E.encrypt plain) ];
          enabled = true;
        }
            ∷ []);
  }

-- `deleteWebhook`
unfoldable pub delete_webhook : String → String → World → World
delete_webhook id tenant_id w = record w {
  hooks = filter (λ hook. not (str_eq hook.id id && str_eq hook.tenant_id tenant_id)) w.hooks;
}
