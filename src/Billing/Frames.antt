-- ===== src/Billing/Frames.antt =====
-- The handlers of src/services/billing/stripe_event_dispatcher.ts and the ledger.
use adonisjs_lasagna_saas_te.Prelude.{
  ℕ, String, Bool, true, false, ◌≡◌, refl, arith, Option-cases, inl, inr, lookup, lookup-All, All,
}
use adonisjs_lasagna_saas_te.Exceptions.{M}
use adonisjs_lasagna_saas_te.Billing.{StripeObject, StripeEvent, Backend, World, Env}
use adonisjs_lasagna_saas_te.Billing.Sync.{sync_subscription}
use adonisjs_lasagna_saas_te.Billing.Outcome.{DispatchResult}
use adonisjs_lasagna_saas_te.Billing.Dispatch.{
  set_status, final_failure, handlers, dispatch_stripe_event, handle_checkout_completed,
  handle_subscription_upsert, handle_subscription_deleted, handle_trial_will_end,
  handle_payment_succeeded, handle_payment_failed, handle_customer_deleted,
  handle_subscription_paused, handle_subscription_resumed,
}

-- The ledger, the queue: the parts that the handlers of events do not touch.
pub record SameLedger {B : Backend} (w w' : World B) : Type 0 where
  pub ledger : w'.ledger ≡ w.ledger
  pub queue : w'.queue ≡ w.queue

module _ {B : Backend} (env : Env) where
  sync_subscription-SameLedger :
      (sub : StripeObject) (created : ℕ) (downgrade : Bool) (w : World B)
      → SameLedger w (sync_subscription env sub created downgrade w).1
  unfolding sync_subscription
  sync_subscription-SameLedger sub created downgrade w = ground arith

  checkout-SameLedger :
      (e : StripeEvent) (w : World B) → SameLedger w (handle_checkout_completed env e w).1
  unfolding handle_checkout_completed
  checkout-SameLedger e w = ground arith

  upsert-SameLedger :
      (e : StripeEvent) (w : World B) → SameLedger w (handle_subscription_upsert env e w).1
  unfolding handle_subscription_upsert
  upsert-SameLedger e w = ground (arith, sync_subscription-SameLedger e.object e.created false w)

  deleted-SameLedger :
      (e : StripeEvent) (w : World B) → SameLedger w (handle_subscription_deleted env e w).1
  unfolding handle_subscription_deleted
  deleted-SameLedger e w = ground (arith, sync_subscription-SameLedger e.object e.created true w)

  trial-SameLedger :
      (e : StripeEvent) (w : World B) → SameLedger w (handle_trial_will_end env e w).1
  unfolding handle_trial_will_end
  trial-SameLedger e w = ground arith

  succeeded-SameLedger :
      (e : StripeEvent) (w : World B) → SameLedger w (handle_payment_succeeded env e w).1
  unfolding handle_payment_succeeded set_status
  succeeded-SameLedger e w = ground arith

  failed-SameLedger :
      (e : StripeEvent) (w : World B) → SameLedger w (handle_payment_failed env e w).1
  unfolding handle_payment_failed final_failure set_status
  failed-SameLedger e w = ground arith

  customer_deleted-SameLedger :
      (e : StripeEvent) (w : World B) → SameLedger w (handle_customer_deleted env e w).1
  unfolding handle_customer_deleted
  customer_deleted-SameLedger e w = ground arith

  handlers-SameLedger :
      All
        (λ (b : String × (StripeEvent → M (World B) DispatchResult)).
          (e : StripeEvent) (w : World B) → SameLedger w (b.1 e w).1)
        (handlers env)
  unfolding handle_subscription_paused handle_subscription_resumed
  handlers-SameLedger = (
    checkout-SameLedger,
    (
      upsert-SameLedger,
      (
        upsert-SameLedger,
        (
          deleted-SameLedger,
          (
            upsert-SameLedger,
            (
              upsert-SameLedger,
              (
                trial-SameLedger,
                (succeeded-SameLedger, (failed-SameLedger, (customer_deleted-SameLedger, tt))),
              ),
            ),
          ),
        ),
      ),
    ),
  )

  -- No handler writes the ledger row of the event that it handles, or enqueues anything.
  pub dispatch-SameLedger :
      (e : StripeEvent) (w : World B) → SameLedger w (dispatch_stripe_event env e w).1
  unfolding dispatch_stripe_event
  dispatch-SameLedger e w = elim (Option-cases (lookup e.type (handlers {B = B} env))) [
    | inl unmapped ↦ rw (unmapped, dispatch_stripe_event) (record { ledger = refl; queue = refl })
    | inr (handler, found) ↦
        rw (found, dispatch_stripe_event)
          (lookup-All
            (λ (h : StripeEvent → M (World B) DispatchResult).
              (e : StripeEvent) (w : World B) → SameLedger w (h e w).1)
            e.type (handlers env) handlers-SameLedger found e w)
  ]
