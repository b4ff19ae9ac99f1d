-- ===== src/Billing/Webhook.antt =====
-- src/controllers/stripe_webhook_controller.ts, and the life of an event across deliveries, jobs
-- and dead letters.
use adonisjs_lasagna_saas_te.Prelude.{
  String, Bool, ◌&&◌, Option, none, some, List, [], ◌∷◌, ◌++◌, ◌==◌, if◌then◌else◌,
}
use adonisjs_lasagna_saas_te.Exceptions.{Exception, billing, ok, M, raise}
use adonisjs_lasagna_saas_te.Exceptions.Billing.{invalid_signature, queue_unavailable}
use adonisjs_lasagna_saas_te.Billing.{
  StripeEvent, StripeProcessedEvent, pending, replayable, Backend, World, Env, logged,
}
use adonisjs_lasagna_saas_te.Billing.Redaction.{to_replayable_payload}
use adonisjs_lasagna_saas_te.Billing.Sync.{report}
use adonisjs_lasagna_saas_te.Billing.Ledger.{is_pending, execute, dead_letter}

-- The row of the `INSERT`.
abbrev pub new_row : StripeEvent → StripeProcessedEvent
new_row e = record {
  event_type = e.type;
  status = pending;
  attempts = 0;
  completed_at = none;
  tenant_id = none;
  last_error = none;
  payload = some (replayable (to_replayable_payload e));
}

-- A row that no worker has touched.
abbrev pub is_untouched : StripeProcessedEvent → Bool
is_untouched row = is_pending row.status && (row.attempts == 0)

module _ {B : Backend} (env : Env) where
  enqueue : String → M (World B) (Unit {0})
  unfolding report
  enqueue id w =
      if env.queue_up
      then (ok tt, record w { queue = w.queue ++ id ∷ [] })
      else raise
          (billing queue_unavailable "failed to enqueue stripe event for processing" (some 503))
          (report (logged "stripe.webhook.dispatch_failed" ∷ []) w)

  -- `INSERT … ON CONFLICT DO NOTHING`, and what a duplicate leads to.
  receive : StripeEvent → M (World B) (Unit {0})
  unfolding enqueue report
  receive e w = elim (B.ledger.get e.id w.ledger) [
    | none ↦ enqueue e.id (record w { ledger = B.ledger.put e.id (new_row e) w.ledger })
    | some row ↦
        if is_untouched row
        then enqueue e.id (report (logged "stripe.webhook.redispatch" ∷ []) w)
        else (ok tt, w)
  ]

  -- `handle`, for the event that the signature middleware attached to the request.
  unfoldable pub handle : Option StripeEvent → M (World B) (Unit {0})
  unfolding receive
  handle none w = raise (billing invalid_signature "no verified event" none) w
  handle (some e) w = receive e w

-- What can happen to the ledger: a delivery, an attempt of a queued job, a job given up. The
-- environment of each step is arbitrary.
pub data Action : Type 0 where
  deliver : Env → Option StripeEvent → Action
  work : Env → String → Action
  give_up : String → Exception → Action

unfoldable pub act : {B : Backend} → Action → World B → World B
act (deliver env e) w = (handle env e w).1
act (work env id) w = (execute env id w).1
act (give_up id e) w = dead_letter id e w

unfoldable pub run : {B : Backend} → List Action → World B → World B
run [] w = w
run (a ∷ rest) w = run rest (act a w)
