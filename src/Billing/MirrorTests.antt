-- ===== src/Billing/MirrorTests.antt =====
-- The mirror of subscriptions on concrete events.
use adonisjs_lasagna_saas_te.Prelude.{
  ℕ, ◌≡◌, ◌≢◌, refl, true, false, none, some, truthy, lookup, includes,
}
use adonisjs_lasagna_saas_te.Exceptions.{Exception, ok, throw, error}
use adonisjs_lasagna_saas_te.Billing.{StripeEvent, refused, World, Env}
use adonisjs_lasagna_saas_te.Billing.Memory.{backend}
use adonisjs_lasagna_saas_te.Quota.Plans.{assign_plan}
use adonisjs_lasagna_saas_te.Billing.Samples.{
  subscription, invoice, event_of, billing, env_with, row_with, customer, world_with,
}
use adonisjs_lasagna_saas_te.Billing.Redaction.{to_replayable_payload}
use adonisjs_lasagna_saas_te.Billing.Sync.{sync_subscription, SyncResult}
use adonisjs_lasagna_saas_te.Billing.Outcome.{is_final, invoice_subscription_id}
use adonisjs_lasagna_saas_te.Billing.Dispatch.{customer_row, dispatch_stripe_event}
use adonisjs_lasagna_saas_te.Billing.Mirror.{
  Applied, IsOlder, subscription_of, sync_subscription-HalfApplied, HalfApplied,
  sync_subscription-Applied, sync_subscription-walks_back,
}
use adonisjs_lasagna_saas_te.Billing.Replay.{stateless_types, dispatch-to_replayable_payload}

abbrev env : Env
env = env_with (λ id. refused "StripeConnectionError" "" 0)

-- An environment whose configuration declares no plan of the default's name.
abbrev env_undeclared : Env
env_undeclared = record env { billing = some (record billing { default_plan = "gold" }) }

abbrev active_at : ℕ → World backend
active_at last = world_with (some (row_with "active" last))

gold_throws :
    (sync_subscription env_undeclared subscription 50 true (active_at 40)).0
    ≡ throw (error "plan is not declared in config.plans.definitions")
unfolding sync_subscription lookup assign_plan
gold_throws = refl

abbrev lost_connection : Exception
lost_connection = error "Connection terminated unexpectedly"

-- An environment in which the save of a row of the mirror fails.
abbrev env_unsaved : Env
env_unsaved = record env { save_error = some lost_connection }

abbrev half_applied : World backend
half_applied = (sync_subscription env_unsaved subscription 50 false (active_at 40)).1

save_throws :
    (sync_subscription env_unsaved subscription 50 false (active_at 40)).0 ≡ throw lost_connection
unfolding sync_subscription lookup assign_plan
save_throws = refl

sync_subscription-HalfApplied_example :
    HalfApplied env_unsaved subscription lost_connection (active_at 40) half_applied
sync_subscription-HalfApplied_example =
    sync_subscription-HalfApplied env_unsaved subscription 50 false (active_at 40) lost_connection
      save_throws

late_is_stale : (sync_subscription env subscription 50 false (active_at 60)).0 ≡ ok none
unfolding sync_subscription
late_is_stale = refl

abbrev synced_pro : SyncResult
synced_pro = record { tenant_id = "acme"; plan = "pro"; previous_plan = some "pro" }

late_applies : (sync_subscription env subscription 55 false (active_at 60)).0 ≡ ok (some synced_pro)
unfolding sync_subscription lookup assign_plan
late_applies = refl

sync_subscription-Applied_example :
    Applied env subscription 55 synced_pro
      (active_at 60)
      (sync_subscription env subscription 55 false (active_at 60)).1
sync_subscription-Applied_example =
    sync_subscription-Applied env subscription 55 false (active_at 60) synced_pro late_applies

sync_subscription-walks_back_example :
    let w' = (sync_subscription env subscription 55 false (active_at 60)).1 in
    (IsOlder 50 (subscription_of subscription (active_at 60)))
    × ((sync_subscription env subscription 50 false w').0 ≢ ok none)
sync_subscription-walks_back_example =
    sync_subscription-walks_back env subscription 50 (row_with "active" 60) (active_at 60)
      synced_pro refl refl late_applies

abbrev failed_invoice : StripeEvent
failed_invoice = event_of "invoice.payment_failed" 50 invoice

abbrev paid_invoice : StripeEvent
paid_invoice = event_of "invoice.payment_succeeded" 50 invoice

stateless_failed : includes "invoice.payment_failed" stateless_types ≡ true
stateless_failed = refl

dispatch-to_replayable_payload_example :
    dispatch_stripe_event env (to_replayable_payload failed_invoice) (active_at 40)
    ≡ dispatch_stripe_event env failed_invoice (active_at 40)
dispatch-to_replayable_payload_example =
    dispatch-to_replayable_payload env failed_invoice (active_at 40) stateless_failed tt

abbrev canceled : World backend
canceled = world_with (some (row_with "canceled" 40))

third_is_final : is_final (some billing) 3 ≡ true
unfolding is_final
third_is_final = refl

acme_is_billed : customer_row env (some "cus_1") (active_at 40) ≡ some customer
unfolding customer_row
acme_is_billed = refl

names_sub : truthy (invoice_subscription_id invoice) ≡ some "sub_1"
unfolding invoice_subscription_id
names_sub = refl

abbrev first_failure : StripeEvent
first_failure = record failed_invoice { object = record invoice { attempt_count = some 1 } }

first_is_not_final : is_final (some billing) 1 ≡ false
unfolding is_final
first_is_not_final = refl
