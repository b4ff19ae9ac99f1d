-- ===== src/Billing/Privacy.antt =====
-- What src/services/billing/redact.ts lets through to the database and to the logs.
use adonisjs_lasagna_saas_te.Prelude.{◌≡◌, String, List, [], arith}
use adonisjs_lasagna_saas_te.Billing.{StripeEvent}
use adonisjs_lasagna_saas_te.Billing.Redaction.{
  redact_stripe_event, to_replayable_payload, replayable_object,
}

-- The fields that are not on the lists of the redaction reach neither the stored payload nor the
-- log line: whatever they hold, both are the same, and the payload holds none of them.
pub to_replayable_payload-others :
    (e : StripeEvent) (others : List (String × String))
    → let e' : StripeEvent = record e { object = record e.object { others = others } } in
      (to_replayable_payload e' ≡ to_replayable_payload e)
      × (redact_stripe_event e' ≡ redact_stripe_event e)
      × ((to_replayable_payload e).object.others ≡ [])
unfolding to_replayable_payload redact_stripe_event replayable_object
to_replayable_payload-others e others = ground arith
