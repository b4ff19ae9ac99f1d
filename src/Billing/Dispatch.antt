-- ===== src/Billing/Dispatch.antt =====
-- src/services/billing/stripe_event_dispatcher.ts: the handler of each type of event.
use adonisjs_lasagna_saas_te.Prelude.{
  ℕ, String, Bool, true, false, not, ◌&&◌, Option, none, some, List, [], ◌∷◌, str_eq, if◌then◌else◌,
  get_or, is_some, truthy, lookup,
}
use adonisjs_lasagna_saas_te.Exceptions.{Result, ok, throw, M, ◌>>=◌, pure}
use adonisjs_lasagna_saas_te.Billing.{
  ref_id, StripeEvent, StripeCustomer, Backend, World, Env, trial_ending, payment_succeeded,
  payment_failed, logged,
}
use adonisjs_lasagna_saas_te.Billing.Outcome.{
  DispatchResult, synced, noop, event_emitted, outcome_of, invoice_subscription_id, days_left,
  in_order, in_dunning, is_settled, applies, is_final, is_checkout_mode, sync_outcome,
}
use adonisjs_lasagna_saas_te.Billing.Sync.{sync_subscription, report, assign, nonzero}

module _ {B : Backend} (env : Env) where
  -- The row of the customer that an object names, by its Stripe id.
  unfoldable pub customer_row : Option String → World B → Option StripeCustomer
  customer_row id w = elim (truthy id) [
    | none ↦ none
    | some c ↦ B.customers.find_by_stripe_id c w.customers
  ]

  -- `StripeSubscription.find`, the change of status, and the save
  unfoldable pub set_status : (String → Bool) → String → ℕ → Option String → World B → World B
  set_status eligible status created none w = w
  set_status eligible status created (some id) w = elim (B.subscriptions.get id w.subscriptions) [
    | none ↦ w
    | some row ↦
        if eligible row.status && in_order row created
        then record w {
          subscriptions =
              B.subscriptions.put id (record row { status = status; last_event_at = created })
                w.subscriptions;
        }
        else w
  ]

  new_customer : String → String → World B → World B
  new_customer tenant id w = record w {
    customers =
        B.customers.rows.put tenant
          (record {
            tenant_id = tenant;
            stripe_customer_id = id;
            currency = none;
            deleted_at = none;
          })
          w.customers;
  }

  checkout_customer : String → String → M (World B) DispatchResult
  unfolding new_customer report
  checkout_customer tenant id w = elim (B.customers.rows.get tenant w.customers) [
    | some existing ↦ (
      ok (outcome_of noop (some tenant)),
      if str_eq existing.stripe_customer_id id
          then w
          else report (logged "stripe.checkout.duplicate_customer" ∷ []) w,
    )
    | none ↦ (ok (outcome_of synced (some tenant)), new_customer tenant id w)
  ]

  unfoldable pub handle_checkout_completed : StripeEvent → M (World B) DispatchResult
  unfolding checkout_customer
  handle_checkout_completed e w =
      if is_checkout_mode e.object.mode
      then elim (truthy e.object.client_reference_id) [
        | none ↦ (ok (outcome_of noop none), w)
        | some tenant ↦ elim (truthy (ref_id e.object.customer)) [
          | none ↦ (ok (outcome_of noop none), w)
          | some id ↦ checkout_customer tenant id w
        ]
      ]
      else (ok (outcome_of noop none), w)

  unfoldable pub handle_subscription_upsert : StripeEvent → M (World B) DispatchResult
  handle_subscription_upsert e = do
    r ← sync_subscription env e.object e.created false
    pure (sync_outcome r)

  unfoldable pub handle_subscription_deleted : StripeEvent → M (World B) DispatchResult
  handle_subscription_deleted e = do
    r ← sync_subscription env e.object e.created true
    pure (sync_outcome r)

  unfoldable pub handle_subscription_paused : StripeEvent → M (World B) DispatchResult
  handle_subscription_paused e = handle_subscription_upsert e

  unfoldable pub handle_subscription_resumed : StripeEvent → M (World B) DispatchResult
  handle_subscription_resumed e = handle_subscription_upsert e

  -- What a handler does for the customer of the event, and nothing where there is none.
  for_customer : Option String → (StripeCustomer → World B → World B) → M (World B) DispatchResult
  unfolding customer_row
  for_customer id f w = elim (customer_row id w) [
    | none ↦ (ok (outcome_of noop none), w)
    | some row ↦ (ok (outcome_of event_emitted (some row.tenant_id)), f row w)
  ]

  unfoldable pub handle_trial_will_end : StripeEvent → M (World B) DispatchResult
  unfolding for_customer days_left report
  handle_trial_will_end e = for_customer (ref_id e.object.customer) λ row.
      report (
        trial_ending row.tenant_id e.object.id (days_left (nonzero e.object.trial_end) env.now)
        ∷ [])

  unfoldable pub handle_payment_succeeded : StripeEvent → M (World B) DispatchResult
  unfolding for_customer report
  handle_payment_succeeded e = for_customer (ref_id e.object.customer) λ row w.
      report
        (payment_succeeded row.tenant_id e.object.id (get_or e.object.amount_paid 0)
            (get_or e.object.currency "usd")
          ∷ [])
        (set_status in_dunning "active" e.created (truthy (invoice_subscription_id e.object)) w)

  -- The quota write of the dunning policy; a failure is logged and goes no further.
  downgrade_outcome : Result (Unit {0}) × World B → World B
  unfolding report
  downgrade_outcome (ok _, w) = w
  downgrade_outcome (throw e, w) = report (logged "stripe.dunning.downgrade_failed" ∷ []) w

  unfoldable pub dunning_downgrade : String → World B → World B
  unfolding downgrade_outcome assign
  dunning_downgrade tenant w = elim env.billing [
    | none ↦ w
    | some cfg ↦
        if applies cfg.action && is_some (truthy (some cfg.default_plan))
        then downgrade_outcome (assign env tenant cfg.default_plan "dunning" w)
        else w
  ]

  -- The final failure: the mirror goes past due, then the dunning policy applies.
  unfoldable pub final_failure : StripeEvent → StripeCustomer → World B → World B
  unfolding dunning_downgrade
  final_failure e row w = dunning_downgrade row.tenant_id (
      set_status (λ s. not (is_settled s)) "past_due" e.created
        (truthy (invoice_subscription_id e.object)) w)

  unfoldable pub handle_payment_failed : StripeEvent → M (World B) DispatchResult
  unfolding for_customer report
  handle_payment_failed e = for_customer (ref_id e.object.customer) λ row w.
      let attempts = get_or e.object.attempt_count 0 in
      let final = is_final env.billing attempts in
      report
        (payment_failed row.tenant_id e.object.id (get_or e.object.amount_due 0)
            (get_or e.object.currency "usd") attempts final (nonzero e.object.next_payment_attempt)
          ∷ [])
        (if final then final_failure e row w else w)

  -- `StripeCustomer.query().where('stripeCustomerId', id).first()`: the id is not tested here.
  unfoldable pub handle_customer_deleted : StripeEvent → M (World B) DispatchResult
  handle_customer_deleted e w =
      elim (B.customers.find_by_stripe_id (get_or e.object.id "") w.customers) [
        | none ↦ (ok (outcome_of noop none), w)
        | some row ↦ (
          ok (outcome_of synced (some row.tenant_id)),
          record w {
            customers =
                B.customers.rows.put row.tenant_id (record row { deleted_at = some env.now })
                  w.customers;
          },
        )
      ]

  -- `HANDLERS`
  abbrev pub handlers : List (String × (StripeEvent → M (World B) DispatchResult))
  handlers =
      ("checkout.session.completed", handle_checkout_completed)
      ∷ ("customer.subscription.created", handle_subscription_upsert)
      ∷ ("customer.subscription.updated", handle_subscription_upsert)
      ∷ ("customer.subscription.deleted", handle_subscription_deleted)
      ∷ ("customer.subscription.paused", handle_subscription_paused)
      ∷ ("customer.subscription.resumed", handle_subscription_resumed)
      ∷ ("customer.subscription.trial_will_end", handle_trial_will_end)
      ∷ ("invoice.payment_succeeded", handle_payment_succeeded)
      ∷ ("invoice.payment_failed", handle_payment_failed)
      ∷ ("customer.deleted", handle_customer_deleted)
      ∷ []

  -- An event with no handler is a no-op.
  unfoldable pub dispatch_stripe_event : StripeEvent → M (World B) DispatchResult
  dispatch_stripe_event e = elim (lookup e.type handlers) [
    | none ↦ pure (outcome_of noop none)
    | some handler ↦ handler e
  ]
