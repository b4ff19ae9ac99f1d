-- ===== src/Billing/Tests.antt =====
-- The ledger of webhook events on a concrete payment.
use adonisjs_lasagna_saas_te.Prelude.{
  ◌≡◌, refl, none, some, List, [], ◌∷◌, str_eq, lookup, if◌then◌else◌,
}
use adonisjs_lasagna_saas_te.Exceptions.{ok, error}
use adonisjs_lasagna_saas_te.Exceptions.Billing.{is_retryable, from_stripe_error}
use adonisjs_lasagna_saas_te.Billing.{
  StripeEvent, retrieved, refused, StripeProcessedEvent, completed, World, Env,
}
use adonisjs_lasagna_saas_te.Billing.Memory.{backend}
use adonisjs_lasagna_saas_te.Billing.Samples.{invoice, event_of, env_with, row_with, world_with}
use adonisjs_lasagna_saas_te.Billing.Dispatch.{dispatch_stripe_event, handle_payment_succeeded}
use adonisjs_lasagna_saas_te.Billing.Ledger.{execute, dead_letter}
use adonisjs_lasagna_saas_te.Billing.Webhook.{
  act, handle, Action, deliver, work, give_up, run, new_row,
}
use adonisjs_lasagna_saas_te.Billing.Lifecycle.{row_of, Advance, run-Advance}
use adonisjs_lasagna_saas_te.Billing.Delivery.{Accounted, acknowledged-Accounted}
use adonisjs_lasagna_saas_te.Billing.Attempts.{Settled, execute-Settled}

abbrev paid : StripeEvent
paid = event_of "invoice.payment_succeeded" 50 invoice

abbrev unpaid_invoice : StripeEvent
unpaid_invoice = event_of "invoice.payment_failed" 50 invoice

abbrev env : Env
env = env_with (λ id. retrieved paid)

abbrev env_failing : Env
env_failing = env_with (λ id. refused "StripeConnectionError" "" 0)

-- A world in which the payment was delivered, with the subscription active.
abbrev delivered : World backend
delivered = record (world_with (some (row_with "active" 40))) {
  ledger = λ k. if str_eq "evt_1" k then some (new_row paid) else none;
}

abbrev actions : List Action
actions =
    work env_failing "evt_1"
    ∷ deliver env (some paid)
    ∷ work env "evt_1"
    ∷ give_up "evt_1" (error "late")
    ∷ []

-- The payment fails to be fetched once, is retried, and ends completed after two attempts.
run_completed :
    row_of "evt_1" (run actions delivered)
    ≡ some (record (new_row paid) {
      status = completed;
      attempts = 2;
      completed_at = some 5000;
      tenant_id = some "acme";
    })
unfolding run act dead_letter execute handle is_retryable from_stripe_error dispatch_stripe_event
    lookup handle_payment_succeeded
run_completed = refl

there : row_of "evt_1" delivered ≡ some (new_row paid)
there = refl

run-Advance_example :
    (row : StripeProcessedEvent) × (row_of "evt_1" (run actions delivered) ≡ some row)
    × Advance (new_row paid) row
run-Advance_example = run-Advance actions delivered "evt_1" (new_row paid) there

-- The delivery of the payment to a world without its row is acknowledged.
abbrev fresh : World backend
fresh = world_with (some (row_with "active" 40))

acked : (handle env (some paid) fresh).0 ≡ ok tt
unfolding handle
acked = refl

acknowledged-Accounted_example : Accounted "evt_1" (run actions (handle env (some paid) fresh).1)
acknowledged-Accounted_example = acknowledged-Accounted env paid fresh actions acked

execute-Settled_example :
    Settled "evt_1"
      (new_row paid)
      (execute env_failing "evt_1" delivered).0
      (execute env_failing "evt_1" delivered).1
execute-Settled_example = execute-Settled env_failing "evt_1" (new_row paid) delivered there refl

abbrev done_row : StripeProcessedEvent
done_row = record (new_row paid) { status = completed; attempts = 1; completed_at = some 60 }

abbrev done : World backend
done = record fresh { ledger = λ k. if str_eq "evt_1" k then some done_row else none }
