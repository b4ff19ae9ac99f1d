-- ===== src/Billing/Sync.antt =====
-- src/services/billing_service.ts: `syncSubscription`, from a Stripe subscription to the local
-- mirror and the plan of the tenant.
use adonisjs_lasagna_saas_te.Prelude.{
  ℕ, ◌+◌, String, Bool, false, ◌||◌, Option, none, some, List, [], ◌∷◌, ◌++◌, str_eq, ltb,
  if◌then◌else◌, get_or, or_else, is_some, truthy, lookup, includes, ◌==◌,
}
use mathlib.Core.Option
use adonisjs_lasagna_saas_te.Exceptions.{
  billing, ok, throw, M, ◌>>=◌, ◌>>◌, pure, raise, gets, modify,
}
use adonisjs_lasagna_saas_te.Exceptions.Billing.{config_missing, tenant_not_resolvable}
use adonisjs_lasagna_saas_te.Quota.Plans.{assign_plan}
use adonisjs_lasagna_saas_te.Billing.{
  ref_id, Price, Item, StripeObject, StripeCustomer, StripeSubscription, Backend, World, Env,
  BillingConfig, Event, billing_misconfigured, logged,
}

-- `LEGAL_SUBSCRIPTION_TRANSITIONS`
abbrev pub legal_subscription_transitions : List (String × List String)
legal_subscription_transitions =
    ("incomplete", "active" ∷ "trialing" ∷ "incomplete_expired" ∷ "canceled" ∷ [])
    ∷ ("incomplete_expired", [])
    ∷ ("trialing", "active" ∷ "past_due" ∷ "unpaid" ∷ "canceled" ∷ "paused" ∷ [])
    ∷ ("active", "past_due" ∷ "unpaid" ∷ "canceled" ∷ "paused" ∷ "trialing" ∷ [])
    ∷ ("past_due", "active" ∷ "canceled" ∷ "unpaid" ∷ "paused" ∷ [])
    ∷ ("canceled", [])
    ∷ ("unpaid", "active" ∷ "past_due" ∷ "canceled" ∷ [])
    ∷ ("paused", "active" ∷ "canceled" ∷ [])
    ∷ []

-- What the state machine guard reports; it blocks nothing.
unfoldable pub transition_warning : String → String → List Event
transition_warning from to =
    if str_eq from to then [] else elim (lookup from legal_subscription_transitions) [
      | none ↦ logged "stripe.subscription.unknown_source_state" ∷ []
      | some allowed ↦
          if includes to allowed then [] else logged "stripe.subscription.illegal_transition" ∷ []
    ]

unfoldable pub existing_warning : Option StripeSubscription → String → List Event
unfolding transition_warning
existing_warning none to = []
existing_warning (some row) to = transition_warning row.status to

-- `sub.items?.data?.[0]`
abbrev pub first_item : Option (List Item) → Option Item
first_item none = none
first_item (some []) = none
first_item (some (i ∷ _)) = some i

abbrev price_of : Option Item → Option Price
price_of none = none
price_of (some i) = i.price

abbrev pub product_id : Option Item → Option String
product_id item = elim (price_of item) [ none ↦ none | some p ↦ ref_id p.product ]

abbrev pub price_id : Option Item → Option String
price_id item = elim (price_of item) [ none ↦ none | some p ↦ p.id ]

-- `id && products[id]`: an absent id looks nothing up, and an empty one stands for itself.
abbrev mapped_by : List (String × String) → Option String → Option String
mapped_by products none = none
mapped_by products (some id) = if is_some (truthy (some id)) then lookup id products else some id

-- The plan that the products of the configuration give to a subscription.
unfoldable pub mapped_plan : List (String × String) → Option Item → Option String
mapped_plan products item =
    truthy (or_else (mapped_by products (product_id item)) (mapped_by products (price_id item)))

-- The plan of a sync that does not downgrade, and what it reports.
unfoldable pub resolve_plan : BillingConfig → Option String → Option Item → String × List Event
unfolding mapped_plan
resolve_plan cfg id item = elim (mapped_plan cfg.products item) [
  | some plan ↦ (plan, [])
  | none ↦ (
    cfg.default_plan,
    if is_some (truthy (product_id item)) || is_some (truthy (price_id item))
        then logged "stripe.product.unmapped"
          ∷ billing_misconfigured (get_or id "") (product_id item) (price_id item)
          ∷ []
        else [],
  )
]

abbrev item_start : Option Item → Option ℕ
item_start none = none
item_start (some i) = i.current_period_start

abbrev item_end : Option Item → Option ℕ
item_end none = none
item_end (some i) = i.current_period_end

-- `x ? DateTime.fromSeconds(x) : null`: the number 0 counts as absent
abbrev pub nonzero : Option ℕ → Option ℕ
nonzero none = none
nonzero (some t) = if t == 0 then none else some t

-- The row that a sync writes.
unfoldable pub mirror : StripeCustomer → StripeObject → ℕ → String → StripeSubscription
mirror customer sub created plan =
    let item = first_item sub.items in
    record {
      tenant_id = customer.tenant_id;
      status = get_or sub.status "";
      current_period_start = get_or (or_else (item_start item) sub.current_period_start) created;
      current_period_end = get_or (or_else (item_end item) sub.current_period_end) created;
      cancel_at_period_end = get_or sub.cancel_at_period_end false;
      cancel_at = nonzero sub.cancel_at;
      canceled_at = nonzero sub.canceled_at;
      trial_end = nonzero sub.trial_end;
      plan_name = plan;
      last_event_at = created;
      raw = sub;
    }

-- The ordering guard: an event that is more than five seconds older than the last one.
abbrev pub is_stale : Option StripeSubscription → ℕ → Bool
is_stale none created = false
is_stale (some row) created = ltb (created + 5) row.last_event_at

pub record SyncResult : Type 0 where
  pub tenant_id : String
  pub plan : String
  pub previous_plan : Option String

unfoldable pub report : {B : Backend} → List Event → World B → World B
report es w = record w { events = w.events ++ es }

module _ {B : Backend} (env : Env) where
  -- A call of the quota service, on its part of the state.
  unfoldable pub assign : String → String → String → M (World B) (Unit {0})
  assign tenant plan source w =
      let (r, q) =
        assign_plan env.quota tenant plan (record { source = some source; expires_at = none })
          w.quota in
      (r, record w { quota = q })

  -- `row.save()`
  save_mirror : String → StripeSubscription → M (World B) (Unit {0})
  save_mirror id row w = elim env.save_error [
    | some e ↦ (throw e, w)
    | none ↦ (ok tt, record w { subscriptions = B.subscriptions.put id row w.subscriptions })
  ]

  -- The part of the sync behind the ordering guard. The plan is assigned before the mirror is
  -- saved: where either throws, the mirror stays as it was, and where the save throws, the plan has
  -- been assigned.
  unfoldable pub apply_sync :
      StripeCustomer
      → Option StripeSubscription
      → StripeObject
      → ℕ
      → String × List Event
      → M (World B) (Option SyncResult)
  unfolding report assign save_mirror existing_warning
  apply_sync customer existing sub created (plan, reports) = do
    modify (report (reports ++ existing_warning existing (get_or sub.status "")))
    assign customer.tenant_id plan "stripe"
    save_mirror (get_or sub.id "") (mirror customer sub created plan)
    pure (
        some (record {
          tenant_id = customer.tenant_id;
          plan = plan;
          previous_plan = Option.map (λ (row : StripeSubscription). row.plan_name) existing;
        }))

  unfoldable pub guard_stale :
      BillingConfig
      → StripeCustomer
      → Option StripeSubscription
      → StripeObject
      → ℕ
      → Bool
      → M (World B) (Option SyncResult)
  unfolding apply_sync resolve_plan
  guard_stale cfg customer existing sub created downgrade w =
      if is_stale existing created
      then (ok none, report (logged "stripe.event.stale" ∷ []) w)
      else apply_sync customer existing sub created
          (if downgrade
            then (cfg.default_plan, [])
            else resolve_plan cfg sub.id (first_item sub.items))
          w

  customer_of : String → M (World B) StripeCustomer
  customer_of id w = elim (B.customers.find_by_stripe_id id w.customers) [
    | none ↦ raise (billing tenant_not_resolvable "no local stripe_customers row" none) w
    | some row ↦ (ok row, w)
  ]

  configured : M (World B) BillingConfig
  configured w = elim env.billing [
    | none ↦ raise (billing config_missing "config.billing is not configured" none) w
    | some cfg ↦ (ok cfg, w)
  ]

  customer_id_of : StripeObject → M (World B) String
  customer_id_of sub w = elim (truthy (ref_id sub.customer)) [
    | none ↦ raise (billing tenant_not_resolvable "subscription has no customer id" none) w
    | some id ↦ (ok id, w)
  ]

  unfoldable pub sync_subscription : StripeObject → ℕ → Bool → M (World B) (Option SyncResult)
  unfolding guard_stale customer_of configured customer_id_of
  sync_subscription sub created downgrade = do
    cfg ← configured
    id ← customer_id_of sub
    customer ← customer_of id
    w ← gets (λ w. w)
    guard_stale cfg customer (B.subscriptions.get (get_or sub.id "") w.subscriptions) sub created
        downgrade
