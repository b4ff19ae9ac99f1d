-- ===== src/Billing/Redaction.antt =====
-- src/services/billing/redact.ts: what of an event may be logged, and what is kept for a replay.
use adonisjs_lasagna_saas_te.Prelude.{
  ℕ, String, Option, none, some, [], map, str_eq, if◌then◌else◌, truthy, or_else,
}
use mathlib.Core.Option
use text.Mathlib.Text.{starts_with}
use adonisjs_lasagna_saas_te.Billing.{
  Ref, missing, bare, ref_id, Price, Item, StripeObject, StripeEvent, Payload, replayable, legacy,
}

pub record RedactedStripeEvent : Type 0 where
  pub id : String
  pub type : String
  pub created : ℕ
  pub api_version : Option String
  pub customer_id : Option String
  pub subscription_id : Option String
  pub invoice_id : Option String
  pub amount : Option ℕ
  pub currency : Option String
  pub attempt_count : Option ℕ
  pub status : Option String

-- `typeof x === 'string' ? x : undefined`
abbrev only_bare : Ref → Option String
only_bare (bare s) = some s
only_bare _ = none

-- The object's own id if it has the prefix, else the bare id of the related field.
abbrev own_or : Option String → String → Ref → Option String
own_or none prefix related = only_bare related
own_or (some id) prefix related = if starts_with id prefix then some id else only_bare related

unfoldable pub redact_stripe_event : StripeEvent → RedactedStripeEvent
redact_stripe_event e = record {
  id = e.id;
  type = e.type;
  created = e.created;
  api_version = e.api_version;
  customer_id = truthy (ref_id e.object.customer);
  subscription_id = truthy (own_or e.object.id "sub_" e.object.subscription);
  invoice_id = truthy (own_or e.object.id "in_" e.object.invoice);
  amount = or_else e.object.amount_due e.object.amount;
  currency = e.object.currency;
  attempt_count = e.object.attempt_count;
  status = e.object.status;
}

-- A field that is set to a bare id, or left out.
abbrev pub ref_of : Option String → Ref
ref_of none = missing
ref_of (some id) = bare id

-- `{}`
abbrev pub empty_object : StripeObject
empty_object = record {
  id = none;
  customer = missing;
  status = none;
  cancel_at_period_end = none;
  cancel_at = none;
  canceled_at = none;
  trial_end = none;
  current_period_start = none;
  current_period_end = none;
  items = none;
  subscription = missing;
  parent_subscription = missing;
  invoice = missing;
  currency = none;
  attempt_count = none;
  amount = none;
  amount_paid = none;
  amount_due = none;
  next_payment_attempt = none;
  mode = none;
  client_reference_id = none;
  others = [];
}

unfoldable pub replayable_price : Price → Price
replayable_price p = record { id = p.id; product = ref_of (truthy (ref_id p.product)) }

unfoldable pub replayable_item : Item → Item
unfolding replayable_price
replayable_item i = record {
  price = Option.map replayable_price i.price;
  current_period_start = i.current_period_start;
  current_period_end = i.current_period_end;
}

unfoldable pub replayable_subscription : StripeObject → StripeObject
unfolding replayable_item
replayable_subscription o = record empty_object {
  id = o.id;
  customer = ref_of (truthy (ref_id o.customer));
  status = o.status;
  cancel_at_period_end = o.cancel_at_period_end;
  cancel_at = o.cancel_at;
  canceled_at = o.canceled_at;
  trial_end = o.trial_end;
  current_period_start = o.current_period_start;
  current_period_end = o.current_period_end;
  items = Option.map (map replayable_item) o.items;
}

unfoldable pub replayable_invoice : StripeObject → StripeObject
replayable_invoice o = record empty_object {
  id = o.id;
  customer = ref_of (truthy (ref_id o.customer));
  status = o.status;
  currency = o.currency;
  attempt_count = o.attempt_count;
  amount_paid = o.amount_paid;
  amount_due = o.amount_due;
  next_payment_attempt = o.next_payment_attempt;
  subscription = ref_of (truthy (or_else (ref_id o.subscription) (ref_id o.parent_subscription)));
}

unfoldable pub replayable_session : StripeObject → StripeObject
replayable_session o = record empty_object {
  id = o.id;
  customer = ref_of (truthy (ref_id o.customer));
  mode = o.mode;
  client_reference_id = o.client_reference_id;
}

unfoldable pub replayable_object : String → StripeObject → StripeObject
unfolding replayable_subscription replayable_invoice replayable_session
replayable_object type o =
    if starts_with type "customer.subscription."
    then replayable_subscription o
    else if starts_with type "invoice."
    then replayable_invoice o
    else if str_eq type "checkout.session.completed"
    then replayable_session o
    else record empty_object { id = o.id }

unfoldable pub to_replayable_payload : StripeEvent → StripeEvent
unfolding replayable_object
to_replayable_payload e = record e { object = replayable_object e.type e.object }

unfoldable pub rebuild_stripe_event : Payload → Option StripeEvent
rebuild_stripe_event (replayable e) = some e
rebuild_stripe_event legacy = none
