-- ===== src/Billing/Samples.antt =====
-- A customer, a subscription, an invoice and the environment around them, for the tests.
use adonisjs_lasagna_saas_te.Prelude.{
  ℕ, String, true, false, Option, none, some, [], ◌∷◌, str_eq, if◌then◌else◌,
}
use adonisjs_lasagna_saas_te.Store.Memory.{nothing}
use adonisjs_lasagna_saas_te.Quota.{up}
use adonisjs_lasagna_saas_te.Quota.Samples.{env_at, empty}
use adonisjs_lasagna_saas_te.Billing.{
  missing, bare, Item, StripeObject, StripeEvent, StripeCustomer, StripeSubscription, World, Env,
  BillingConfig, downgrade, StripeReply,
}
use adonisjs_lasagna_saas_te.Billing.Memory.{backend}

abbrev blank : StripeObject
blank = record {
  id = none;
  customer = missing;
  status = none;
  cancel_at_period_end = none;
  cancel_at = none;
  canceled_at = none;
  trial_end = none;
  current_period_start = none;
  current_period_end = none;
  items = none;
  subscription = missing;
  parent_subscription = missing;
  invoice = missing;
  currency = none;
  attempt_count = none;
  amount = none;
  amount_paid = none;
  amount_due = none;
  next_payment_attempt = none;
  mode = none;
  client_reference_id = none;
  others = [];
}

abbrev item : Item
item = record {
  price = some (record { id = some "price_1"; product = bare "prod_1" });
  current_period_start = some 100;
  current_period_end = some 200;
}

abbrev pub subscription : StripeObject
subscription = record blank {
  id = some "sub_1";
  customer = bare "cus_1";
  status = some "active";
  items = some (item ∷ []);
}

abbrev pub invoice : StripeObject
invoice = record blank {
  id = some "in_1";
  customer = bare "cus_1";
  subscription = bare "sub_1";
  attempt_count = some 3;
  amount_due = some 900;
  others = ("customer_email", "someone@example.com") ∷ [];
}

abbrev pub event_of : String → ℕ → StripeObject → StripeEvent
event_of type created object = record {
  id = "evt_1";
  type = type;
  created = created;
  api_version = none;
  object = object;
}

abbrev pub billing : BillingConfig
billing = record {
  products = ("prod_1", "pro") ∷ [];
  default_plan = "free";
  max_attempts = none;
  action = some downgrade;
}

abbrev pub env_with : (String → StripeReply) → Env
env_with retrieve = record {
  quota = env_at up;
  billing = some billing;
  now = 5000;
  peer_installed = true;
  retrieve = retrieve;
  save_error = none;
  queue_up = true;
}

abbrev pub row_with : String → ℕ → StripeSubscription
row_with status last = record {
  tenant_id = "acme";
  status = status;
  current_period_start = 100;
  current_period_end = 200;
  cancel_at_period_end = false;
  cancel_at = none;
  canceled_at = none;
  trial_end = none;
  plan_name = "pro";
  last_event_at = last;
  raw = subscription;
}

abbrev pub customer : StripeCustomer
customer = record {
  tenant_id = "acme";
  stripe_customer_id = "cus_1";
  currency = none;
  deleted_at = none;
}

-- A world with the customer, and with this subscription where one is given.
abbrev pub world_with : Option StripeSubscription → World backend
world_with row = record {
  customers = (
    λ k. if str_eq "acme" k then some customer else none,
    λ k. if str_eq "cus_1" k then some customer else none,
  );
  subscriptions = λ k. if str_eq "sub_1" k then row else none;
  ledger = nothing;
  quota = empty;
  queue = [];
  events = [];
}
