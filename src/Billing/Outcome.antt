-- ===== src/Billing/Outcome.antt =====
-- src/services/billing/stripe_event_dispatcher.ts: the outcomes of the handlers, and what they
-- compute from an event and a row.
use adonisjs_lasagna_saas_te.Prelude.{
  ℕ, ◌+◌, ◌-◌, ◌*◌, ◌/◌, String, Bool, true, false, ◌||◌, Option, none, some, str_eq, leb, get_or,
  truthy,
}
use adonisjs_lasagna_saas_te.Billing.{
  Ref, missing, bare, expanded, StripeObject, StripeSubscription, BillingConfig, DunningAction,
  leave, downgrade,
}
use adonisjs_lasagna_saas_te.Billing.Sync.{SyncResult}

pub data Outcome : Type 0 where
  synced stale unmapped noop event_emitted : Outcome

pub record DispatchResult : Type 0 where
  pub outcome : Outcome
  pub tenant_id : Option String

abbrev pub outcome_of : Outcome → Option String → DispatchResult
outcome_of o t = record { outcome = o; tenant_id = t }

-- `extractInvoiceSubscriptionId`
abbrev chosen : Ref → Ref → Ref
chosen missing parent = parent
chosen r parent = r

abbrev nonempty_id : Ref → Option String
nonempty_id missing = none
nonempty_id (bare s) = truthy (some s)
nonempty_id (expanded id) = id

unfoldable pub invoice_subscription_id : StripeObject → Option String
invoice_subscription_id invoice =
    nonempty_id (chosen invoice.subscription invoice.parent_subscription)

-- `Math.max(0, Math.ceil(trialEnd.diff(now, 'days').days))`, with the clock in milliseconds
unfoldable pub days_left : Option ℕ → ℕ → ℕ
days_left none now = 0
days_left (some trial_end) now = (trial_end * 1000 - now + 86399999) / 86400000

-- `eventAt >= lastEventAt - 5s`
abbrev pub in_order : StripeSubscription → ℕ → Bool
in_order row created = leb row.last_event_at (created + 5)

abbrev pub in_dunning : String → Bool
in_dunning status = str_eq status "past_due" || str_eq status "unpaid"

abbrev pub is_settled : String → Bool
is_settled status = str_eq status "past_due" || str_eq status "canceled"

abbrev pub applies : Option DunningAction → Bool
applies none = false
applies (some leave) = false
applies (some downgrade) = true

-- `attempts >= maxAttempts`, three by default
unfoldable pub is_final : Option BillingConfig → ℕ → Bool
is_final cfg attempts = leb (elim cfg [ none ↦ 3 | some c ↦ get_or c.max_attempts 3 ]) attempts

abbrev pub is_checkout_mode : Option String → Bool
is_checkout_mode none = false
is_checkout_mode (some m) = str_eq m "subscription" || str_eq m "payment"

abbrev pub sync_outcome : Option SyncResult → DispatchResult
sync_outcome none = outcome_of stale none
sync_outcome (some r) = outcome_of synced (some r.tenant_id)
