-- ===== src/Billing/Ledger.antt =====
-- src/jobs/process_stripe_event_job.ts, the job of an event, and `retrieveEvent` of
-- src/services/billing_service.ts.
use adonisjs_lasagna_saas_te.Prelude.{
  ℕ, zero, suc, ◌+◌, String, Bool, true, false, not, ◌||◌, Option, none, some, [], ◌∷◌, str_eq,
  ◌==◌, if◌then◌else◌, get_or, or_else, truthy,
}
use adonisjs_lasagna_saas_te.Exceptions.{Exception, billing, Result, ok, throw, M, ◌>>◌, raise}
use adonisjs_lasagna_saas_te.Exceptions.Billing.{
  BillingErrorCode, config_missing, peer_missing, is_retryable, from_stripe_error,
}
use adonisjs_lasagna_saas_te.Billing.{
  StripeEvent, StripeProcessedEvent, LedgerStatus, pending, completed, failed, Backend, World, Env,
  StripeReply, retrieved, refused, billing_event_dead_lettered, logged,
}
use adonisjs_lasagna_saas_te.Billing.Redaction.{rebuild_stripe_event}
use adonisjs_lasagna_saas_te.Billing.Sync.{report}
use adonisjs_lasagna_saas_te.Billing.Outcome.{DispatchResult}
use adonisjs_lasagna_saas_te.Billing.Dispatch.{dispatch_stripe_event}

-- `text.slice(0, n)`
unfoldable pub truncate : ℕ → String → String
truncate zero s = String.[]
truncate (suc n) String.[] = String.[]
truncate (suc n) (String.◌∷◌ c s) = String.◌∷◌ c (truncate n s)

-- `classifyError`: the code (none is `unhandled_error`) and the details.
unfoldable pub classify_error : Exception → Option BillingErrorCode × Option String
classify_error (billing code message _) = (some code, some message)
classify_error _ = (none, none)

-- What `last_error` may hold: a message of the package's own, or a stable code.
unfoldable pub error_text : Exception → String
unfolding classify_error truncate
error_text e = truncate 500 (get_or (classify_error e).1 "unhandled_error")

abbrev pub is_completed : LedgerStatus → Bool
is_completed completed = true
is_completed _ = false

abbrev pub is_pending : LedgerStatus → Bool
is_pending pending = true
is_pending _ = false

-- A known-fatal billing error, with its code and message.
abbrev pub is_fatal_error : Exception → Bool
is_fatal_error (billing code message _) = not (is_retryable code)
is_fatal_error _ = false

-- The row of an event that was dispatched.
unfoldable pub complete : ℕ → StripeProcessedEvent → DispatchResult → StripeProcessedEvent
complete now row r = record row {
  status = completed;
  completed_at = some now;
  last_error = none;
  tenant_id = or_else (truthy r.tenant_id) row.tenant_id;
}

unfoldable pub save_row : {B : Backend} → String → StripeProcessedEvent → World B → World B
save_row {B} id row w = record w { ledger = B.ledger.put id row w.ledger }

module _ {B : Backend} (env : Env) where
  get_stripe : M (World B) (Unit {0})
  get_stripe w = elim env.billing [
    | none ↦ raise (billing config_missing "config.billing is not configured" none) w
    | some _ ↦
        if env.peer_installed
        then (ok tt, w)
        else raise (billing peer_missing "the stripe peer dep is not installed" none) w
  ]

  replay_from_local_payload : String → World B → Option StripeEvent
  replay_from_local_payload id w = elim (B.ledger.get id w.ledger) [
    | none ↦ none
    | some row ↦ elim row.payload [ none ↦ none | some p ↦ rebuild_stripe_event p ]
  ]

  stripe_error : {A : Type 0} → String → M (World B) A
  stripe_error type =
      let (code, message, status) = from_stripe_error type "failed to retrieve event" in
      raise (billing code message (some status))

  unfoldable pub retrieve_reply : String → StripeReply → M (World B) StripeEvent
  unfolding replay_from_local_payload stripe_error
  retrieve_reply id (retrieved e) w = (ok e, w)
  retrieve_reply id (refused type code status) w =
      if str_eq code "resource_missing" || (status == 404)
      then elim (replay_from_local_payload id w) [ some e ↦ (ok e, w) | none ↦ stripe_error type w ]
      else stripe_error type w

  unfoldable pub retrieve_event : String → M (World B) StripeEvent
  unfolding get_stripe retrieve_reply
  retrieve_event id = do get_stripe; retrieve_reply id (env.retrieve id)

  -- The catch clauses: a fatal error ends the event, any other is recorded and thrown again.
  unfoldable pub settle_failure : String → StripeProcessedEvent → Exception → M (World B) (Unit {0})
  unfolding save_row report error_text
  settle_failure id row e w =
      if is_fatal_error e
      then (
        ok tt,
        report
            (logged "stripe.event.fatal"
              ∷ billing_event_dead_lettered id (classify_error e).0 (classify_error e).1
              ∷ [])
            (save_row id (record row { status = failed; last_error = some (error_text e) }) w),
      )
      else (throw e, save_row id (record row { last_error = some (error_text e) }) w)

  unfoldable pub finish :
      String → StripeProcessedEvent → Result DispatchResult × World B → Result (Unit {0}) × World B
  unfolding settle_failure complete save_row
  finish id row (ok r, w) = (ok tt, save_row id (complete env.now row r) w)
  finish id row (throw e, w) = settle_failure id row e w

  unfoldable pub process :
      String → StripeProcessedEvent → Result StripeEvent × World B → Result (Unit {0}) × World B
  unfolding finish settle_failure
  process id row (ok event, w) = finish id row (dispatch_stripe_event env event w)
  process id row (throw e, w) = settle_failure id row e w

  -- `execute`, from the ledger row that it finds.
  unfoldable pub attempt : String → StripeProcessedEvent → M (World B) (Unit {0})
  unfolding process save_row retrieve_event
  attempt id row w =
      let tried = record row { attempts = row.attempts + 1 } in
      process id tried (retrieve_event id (save_row id tried w))

  unfoldable pub execute : String → M (World B) (Unit {0})
  unfolding attempt report
  execute id w = elim (B.ledger.get id w.ledger) [
    | none ↦ (ok tt, report (logged "stripe.event.no_ledger_row" ∷ []) w)
    | some row ↦ if is_completed row.status then (ok tt, w) else attempt id row w
  ]

-- `failed`: the queue has given up on the job.
unfoldable pub dead_letter : {B : Backend} → String → Exception → World B → World B
unfolding save_row report error_text
dead_letter {B} id e w =
    report
      (logged "stripe.event.dead_lettered"
        ∷ billing_event_dead_lettered id (classify_error e).0 (classify_error e).1
        ∷ [])
      (elim (B.ledger.get id w.ledger) [
        | none ↦ w
        | some row ↦
            if is_completed row.status
            then w
            else save_row id (record row { status = failed; last_error = some (error_text e) }) w
      ])
