-- ===== src/Billing.antt =====
-- src/services/billing: the parts of a Stripe event that the handlers read, and the state that
-- billing keeps.
pub mod Redaction
pub mod Sync
pub mod Outcome
pub mod Dispatch
pub mod Ledger
pub mod Webhook
pub mod Frames
pub mod Lifecycle
pub mod Delivery
pub mod Attempts
pub mod Mirror
pub mod Replay
pub mod Dunning
pub mod Privacy
pub mod Memory
pub mod Samples
pub mod Tests
pub mod MirrorTests
use adonisjs_lasagna_saas_te.Prelude.{
  ℕ, String, Bool, Option, none, some, List, ◌≡◌, str_eq, if◌then◌else◌,
}
use adonisjs_lasagna_saas_te.Store.{Store}
use adonisjs_lasagna_saas_te.Exceptions.{Exception}
use adonisjs_lasagna_saas_te.Exceptions.Billing.{BillingErrorCode}
use adonisjs_lasagna_saas_te.Quota.{RedisServer, TenantPlan}
use adonisjs_lasagna_saas_te.Quota

-- A related object: absent or null, a bare id, or expanded with the id that it carries.
pub data Ref : Type 0 where
  missing : Ref
  bare : String → Ref
  expanded : Option String → Ref

-- `typeof x === 'string' ? x : x?.id`
abbrev pub ref_id : Ref → Option String
ref_id missing = none
ref_id (bare s) = some s
ref_id (expanded id) = id

pub record Price : Type 0 where
  pub id : Option String
  pub product : Ref

pub record Item : Type 0 where
  pub price : Option Price
  pub current_period_start : Option ℕ
  pub current_period_end : Option ℕ

-- `event.data.object`: a subscription, an invoice, a checkout session or a customer, by the
-- fields that the package reads. `others` holds all other fields, personal data among them.
pub record StripeObject : Type 0 where
  pub id : Option String
  pub customer : Ref
  pub status : Option String
  pub cancel_at_period_end : Option Bool
  pub cancel_at : Option ℕ
  pub canceled_at : Option ℕ
  pub trial_end : Option ℕ
  pub current_period_start : Option ℕ
  pub current_period_end : Option ℕ
  pub items : Option (List Item)
  pub subscription : Ref
  -- `parent.subscription_details.subscription`
  pub parent_subscription : Ref
  pub invoice : Ref
  pub currency : Option String
  pub attempt_count : Option ℕ
  pub amount : Option ℕ
  pub amount_paid : Option ℕ
  pub amount_due : Option ℕ
  pub next_payment_attempt : Option ℕ
  pub mode : Option String
  pub client_reference_id : Option String
  pub others : List (String × String)

-- `created` is in seconds.
pub record StripeEvent : Type 0 where
  pub id : String
  pub type : String
  pub created : ℕ
  pub api_version : Option String
  pub object : StripeObject

-- src/models/satellites/stripe_customer.ts
pub record StripeCustomer : Type 0 where
  pub tenant_id : String
  pub stripe_customer_id : String
  pub currency : Option String
  pub deleted_at : Option ℕ

-- src/models/satellites/stripe_subscription.ts, with times in seconds
pub record StripeSubscription : Type 0 where
  pub tenant_id : String
  pub status : String
  pub current_period_start : ℕ
  pub current_period_end : ℕ
  pub cancel_at_period_end : Bool
  pub cancel_at : Option ℕ
  pub canceled_at : Option ℕ
  pub trial_end : Option ℕ
  pub plan_name : String
  pub last_event_at : ℕ
  pub raw : StripeObject

-- What the webhook stored of an event: a payload that can be replayed, or the flat summary of
-- older releases.
pub data Payload : Type 0 where
  replayable : StripeEvent → Payload
  legacy : Payload

pub data LedgerStatus : Type 0 where
  pending completed failed : LedgerStatus

-- src/models/satellites/stripe_processed_event.ts
pub record StripeProcessedEvent : Type 0 where
  pub event_type : String
  pub status : LedgerStatus
  pub attempts : ℕ
  pub completed_at : Option ℕ
  pub tenant_id : Option String
  pub last_error : Option String
  pub payload : Option Payload

-- The table `stripe_customers`: by tenant, and by the unique Stripe id.
pub record CustomerTable : Type 1 where
  pub rows : Store StripeCustomer
  pub open rows use *
  pub find_by_stripe_id : String → State → Option StripeCustomer
  pub find_by_stripe_id-put :
      (row : StripeCustomer) (s : State)
      → find_by_stripe_id row.stripe_customer_id s ≡ none
      → find_by_stripe_id row.stripe_customer_id (put row.tenant_id row s) ≡ some row

-- Everything that billing stores.
pub record Backend : Type 1 where
  pub redis : RedisServer
  pub tenant_plans : Store TenantPlan
  pub cache : Store (Option String)
  pub customers : CustomerTable
  pub subscriptions : Store StripeSubscription
  pub ledger : Store StripeProcessedEvent

pub data Event : Type 0 where
  -- tenant, subscription, days left
  trial_ending : String → Option String → ℕ → Event
  -- tenant, invoice, amount, currency
  payment_succeeded : String → Option String → ℕ → String → Event
  -- tenant, invoice, amount, currency, attempts, final, next retry
  payment_failed : String → Option String → ℕ → String → ℕ → Bool → Option ℕ → Event
  -- subscription, product, price
  billing_misconfigured : String → Option String → Option String → Event
  -- event, error code (none is `unhandled_error`), details
  billing_event_dead_lettered : String → Option BillingErrorCode → Option String → Event
  -- a line of the log that reports trouble
  logged : String → Event

pub record World (B : Backend) : Type 0 where
  pub customers : B.customers.rows.State
  pub subscriptions : B.subscriptions.State
  pub ledger : B.ledger.State
  pub quota : Quota.World B.redis B.tenant_plans B.cache
  pub queue : List String
  pub events : List Event

pub data DunningAction : Type 0 where
  leave downgrade : DunningAction

-- `config.billing`, as far as the handlers read it
pub record BillingConfig : Type 0 where
  pub products : List (String × String)
  pub default_plan : String
  pub max_attempts : Option ℕ
  pub action : Option DunningAction

-- Stripe's answer to `events.retrieve`: the event, or an error with its type, code and status.
pub data StripeReply : Type 0 where
  retrieved : StripeEvent → StripeReply
  refused : String → String → ℕ → StripeReply

-- What the environment decides: configuration, the clock in milliseconds, the SDK, Stripe, whether
-- the queue accepts a job, and what the save of a row of the mirror throws, if anything.
pub record Env : Type 0 where
  pub quota : Quota.Env
  pub billing : Option BillingConfig
  pub now : ℕ
  pub peer_installed : Bool
  pub retrieve : String → StripeReply
  pub queue_up : Bool
  pub save_error : Option Exception
