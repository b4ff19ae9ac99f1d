-- ===== src/Billing/Dunning.antt =====
-- The invoice handlers of src/services/billing/stripe_event_dispatcher.ts and the mirror.
use adonisjs_lasagna_saas_te.Prelude.{
  ℕ, ◌+◌, ◌≤◌, ◌≡◌, inl, inr, String, Bool, true, false, not, Option, none, some, arith, eq_iff,
  eq_refl, get_or, truthy, Option-cases,
}
use adonisjs_lasagna_saas_te.Billing.{
  ref_id, StripeEvent, StripeSubscription, StripeCustomer, Backend, World, Env,
}
use adonisjs_lasagna_saas_te.Billing.Outcome.{
  in_dunning, is_settled, is_final, invoice_subscription_id,
}
use adonisjs_lasagna_saas_te.Billing.Dispatch.{
  set_status, handle_payment_succeeded, handle_payment_failed, customer_row, final_failure,
  dunning_downgrade,
}

abbrev tenant_of : Option StripeCustomer → String
tenant_of none = ""
tenant_of (some row) = row.tenant_id

module _ {B : Backend} (env : Env) where
  -- A status that is not eligible is left alone, whichever subscription the invoice names.
  set_status-ineligible :
      (eligible : String → Bool) (status : String) (created : ℕ) (named : Option String)
      (id : String) (row : StripeSubscription) (w : World B)
      → B.subscriptions.get id w.subscriptions ≡ some row
      → eligible row.status ≡ false
      → B.subscriptions.get id (set_status env eligible status created named w).subscriptions
        ≡ some row
  unfolding set_status
  set_status-ineligible eligible status created none id row w e h = e
  set_status-ineligible eligible status created (some k) id row w e h =
      elim (Option-cases (B.subscriptions.get k w.subscriptions)) [
        | inl missing ↦ ground arith
        | inr (other, found) ↦ ground (
          arith,
          eq_iff k id,
          B.subscriptions.get-put id k (record other { status = status; last_event_at = created })
              w.subscriptions,
        )
      ]

  -- A payment that succeeds leaves every subscription that is not in dunning as it was.
  pub payment_succeeded-kept :
      (e : StripeEvent) (id : String) (row : StripeSubscription) (w : World B)
      → B.subscriptions.get id w.subscriptions ≡ some row
      → in_dunning row.status ≡ false
      → B.subscriptions.get id (handle_payment_succeeded env e w).1.subscriptions ≡ some row
  unfolding handle_payment_succeeded
  payment_succeeded-kept e id row w there h = ground (
    arith,
    set_status-ineligible in_dunning "active" e.created (truthy (invoice_subscription_id e.object))
        id row w,
  )

  dunning_downgrade-subscriptions :
      (tenant : String) (w : World B)
      → (dunning_downgrade env tenant w).subscriptions ≡ w.subscriptions
  unfolding dunning_downgrade
  dunning_downgrade-subscriptions tenant w = ground arith

  -- A payment that fails leaves every subscription that is canceled or past due as it was.
  pub payment_failed-kept :
      (e : StripeEvent) (id : String) (row : StripeSubscription) (w : World B)
      → B.subscriptions.get id w.subscriptions ≡ some row
      → is_settled row.status ≡ true
      → B.subscriptions.get id (handle_payment_failed env e w).1.subscriptions ≡ some row
  unfolding handle_payment_failed final_failure
  payment_failed-kept e id row w there h =
      let named = truthy (invoice_subscription_id e.object) in
      let eligible : String → Bool = λ s. not (is_settled s) in
      let marked = set_status env eligible "past_due" e.created named w in
      ground (
        arith,
        set_status-ineligible eligible "past_due" e.created named id row w,
        dunning_downgrade-subscriptions (tenant_of (customer_row env (ref_id e.object.customer) w))
            marked,
      )

  -- The final failure of a payment of a known customer puts the subscription of its invoice past due, as of the event,
  -- where the event is in order and the subscription was neither past due nor canceled.
  pub payment_failed-past_due :
      (e : StripeEvent) (id : String) (row : StripeSubscription) (customer : StripeCustomer)
      (w : World B)
      → customer_row env (ref_id e.object.customer) w ≡ some customer
      → truthy (invoice_subscription_id e.object) ≡ some id
      → B.subscriptions.get id w.subscriptions ≡ some row
      → is_settled row.status ≡ false
      → row.last_event_at ≤ e.created + 5
      → is_final env.billing (get_or e.object.attempt_count 0) ≡ true
      → B.subscriptions.get id (handle_payment_failed env e w).1.subscriptions
        ≡ some (record row { status = "past_due"; last_event_at = e.created })
  unfolding handle_payment_failed final_failure set_status
  payment_failed-past_due e id row customer w known named there open_row ordered final =
      let eligible : String → Bool = λ s. not (is_settled s) in
      ground (
        arith,
        eq_refl id,
        dunning_downgrade-subscriptions customer.tenant_id
            (set_status env eligible "past_due" e.created (some id) w),
        B.subscriptions.get-put id id
            (record row { status = "past_due"; last_event_at = e.created }) w.subscriptions,
      )

  -- Until the attempts are used up, a failed payment is an event for the host and nothing else.
  pub payment_failed-not_final :
      (e : StripeEvent) (w : World B)
      → is_final env.billing (get_or e.object.attempt_count 0) ≡ false
      → let w' = (handle_payment_failed env e w).1 in
        (w'.subscriptions ≡ w.subscriptions) × (w'.quota ≡ w.quota) × (w'.customers ≡ w.customers)
  unfolding handle_payment_failed
  payment_failed-not_final e w h = ground arith
