-- ===== src/Billing/Replay.antt =====
-- The payload that src/services/billing/redact.ts stores, replayed through the handlers of
-- src/services/billing/stripe_event_dispatcher.ts.
use adonisjs_lasagna_saas_te.Prelude.{
  ◌≡◌, refl, sym, subst, String, true, Option, none, some, arith, truthy, lookup, List, [], ◌∷◌,
  includes, includes-elim,
}
use adonisjs_lasagna_saas_te.Billing.{
  Ref, missing, bare, expanded, ref_id, StripeObject, StripeEvent, Backend, World, Env,
}
use adonisjs_lasagna_saas_te.Billing.Redaction.{
  to_replayable_payload, replayable_invoice, replayable_session, replayable_subscription, ref_of,
}
use adonisjs_lasagna_saas_te.Billing.Outcome.{invoice_subscription_id}
use adonisjs_lasagna_saas_te.Billing.Dispatch.{
  dispatch_stripe_event, handle_checkout_completed, handle_payment_failed, handle_payment_succeeded,
  handle_trial_will_end, handle_customer_deleted, set_status, final_failure,
}

-- Stripe's expanded objects carry their id.
abbrev pub HasId : Ref → Type 0
HasId (expanded none) = ⊥
HasId _ = Unit {0}

customer_kept : (x : Option String) → truthy (ref_id (ref_of (truthy x))) ≡ truthy x
customer_kept none = refl
customer_kept (some String.[]) = refl
customer_kept (some (String.◌∷◌ c s)) = refl

subscription_kept :
    (o : StripeObject) (r p : Ref)
    → HasId r
    → o.subscription ≡ r
    → o.parent_subscription ≡ p
    → truthy (invoice_subscription_id (replayable_invoice o)) ≡ truthy (invoice_subscription_id o)
unfolding invoice_subscription_id replayable_invoice
subscription_kept o missing missing h e f = ground arith
subscription_kept o missing (bare String.[]) h e f = ground arith
subscription_kept o missing (bare (String.◌∷◌ c s)) h e f = ground arith
subscription_kept o missing (expanded none) h e f = ground arith
subscription_kept o missing (expanded (some String.[])) h e f = ground arith
subscription_kept o missing (expanded (some (String.◌∷◌ c s))) h e f = ground arith
subscription_kept o (bare String.[]) p h e f = ground arith
subscription_kept o (bare (String.◌∷◌ c s)) p h e f = ground arith
subscription_kept o (expanded none) p h e f = absurd h
subscription_kept o (expanded (some String.[])) p h e f = ground arith
subscription_kept o (expanded (some (String.◌∷◌ c s))) p h e f = ground arith

module _ {B : Backend} (env : Env) (e : StripeEvent) (w : World B) where
  payment_failed-replayable :
      HasId e.object.subscription
      → handle_payment_failed env (record e { object = replayable_invoice e.object }) w
        ≡ handle_payment_failed env e w
  unfolding handle_payment_failed final_failure set_status replayable_invoice
  payment_failed-replayable h = ground (
    arith,
    customer_kept (ref_id e.object.customer),
    subscription_kept e.object e.object.subscription e.object.parent_subscription h refl refl,
  )

  payment_succeeded-replayable :
      HasId e.object.subscription
      → handle_payment_succeeded env (record e { object = replayable_invoice e.object }) w
        ≡ handle_payment_succeeded env e w
  unfolding handle_payment_succeeded set_status replayable_invoice
  payment_succeeded-replayable h = ground (
    arith,
    customer_kept (ref_id e.object.customer),
    subscription_kept e.object e.object.subscription e.object.parent_subscription h refl refl,
  )

  checkout-replayable :
      handle_checkout_completed env (record e { object = replayable_session e.object }) w
      ≡ handle_checkout_completed env e w
  unfolding handle_checkout_completed replayable_session
  checkout-replayable = ground (arith, customer_kept (ref_id e.object.customer))

  trial-replayable :
      handle_trial_will_end env (record e { object = replayable_subscription e.object }) w
      ≡ handle_trial_will_end env e w
  unfolding handle_trial_will_end replayable_subscription
  trial-replayable = ground (arith, customer_kept (ref_id e.object.customer))

-- The types of events whose handlers do not store the event itself.
abbrev pub stateless_types : List String
stateless_types =
    "checkout.session.completed" ∷ "customer.subscription.trial_will_end"
    ∷ "invoice.payment_succeeded" ∷ "invoice.payment_failed" ∷ "customer.deleted" ∷ []

module _ {B : Backend} (env : Env) (e : StripeEvent) (w : World B) where
  abbrev SameDispatch : StripeEvent → Type 0
  SameDispatch e =
      dispatch_stripe_event env (to_replayable_payload e) w ≡ dispatch_stripe_event env e w

  failed-SameDispatch :
      HasId e.object.subscription → SameDispatch (record e { type = "invoice.payment_failed" })
  unfolding dispatch_stripe_event to_replayable_payload lookup
  failed-SameDispatch h =
      payment_failed-replayable env (record e { type = "invoice.payment_failed" }) w h

  succeeded-SameDispatch :
      HasId e.object.subscription → SameDispatch (record e { type = "invoice.payment_succeeded" })
  unfolding dispatch_stripe_event to_replayable_payload lookup
  succeeded-SameDispatch h =
      payment_succeeded-replayable env (record e { type = "invoice.payment_succeeded" }) w h

  checkout-SameDispatch : SameDispatch (record e { type = "checkout.session.completed" })
  unfolding dispatch_stripe_event to_replayable_payload lookup
  checkout-SameDispatch =
      checkout-replayable env (record e { type = "checkout.session.completed" }) w

  trial-SameDispatch : SameDispatch (record e { type = "customer.subscription.trial_will_end" })
  unfolding dispatch_stripe_event to_replayable_payload lookup
  trial-SameDispatch =
      trial-replayable env (record e { type = "customer.subscription.trial_will_end" }) w

  deleted-SameDispatch : SameDispatch (record e { type = "customer.deleted" })
  unfolding dispatch_stripe_event to_replayable_payload lookup handle_customer_deleted
  deleted-SameDispatch = refl

  -- An event of these types, replayed from what the webhook stored, has the same outcome and leaves
  -- the same state as the event itself, where the invoice's subscription, if it is expanded,
  -- carries its id.
  pub dispatch-to_replayable_payload :
      includes e.type stateless_types ≡ true
      → HasId e.object.subscription
      → dispatch_stripe_event env (to_replayable_payload e) w ≡ dispatch_stripe_event env e w
  dispatch-to_replayable_payload listed h =
      includes-elim e.type stateless_types
        (
          (λ p. at_type p checkout-SameDispatch),
          (
            (λ p. at_type p trial-SameDispatch),
            (
              (λ p. at_type p (succeeded-SameDispatch h)),
              (
                (λ p. at_type p (failed-SameDispatch h)),
                ((λ p. at_type p deleted-SameDispatch), tt),
              ),
            ),
          ),
        )
        listed
    where
      at_type : {t : String} → e.type ≡ t → SameDispatch (record e { type = t }) → SameDispatch e
      at_type p same = subst (λ t. SameDispatch (record e { type = t })) (sym p) same
