-- ===== src/Metering.antt =====
-- src/services/billing_service.ts, reportUsage, with src/models/satellites/stripe_meter_event.ts
-- and src/jobs/report_usage_batch_job.ts: usage that is reported to a meter of Stripe.
pub mod Bridge
pub mod Audit
pub mod Minutes
pub mod Batches
pub mod Tests
use adonisjs_lasagna_saas_te.Prelude.{
  ℕ, ◌+◌, ◌/◌, String, Bool, true, false, Option, none, some, str_append, if◌then◌else◌, get_or,
  decimal, ◌==◌,
}
use adonisjs_lasagna_saas_te.Prelude.Int.{ℤ, pos, negsuc}
use adonisjs_lasagna_saas_te.Store.{Store}
use adonisjs_lasagna_saas_te.Exceptions.{
  Exception, billing, Result, ok, throw, M, continue, ◌>>=◌, ◌>>◌, pure, raise,
}
use adonisjs_lasagna_saas_te.Exceptions.Billing.{
  metering_failed, customer_not_found, from_stripe_error,
}
use adonisjs_lasagna_saas_te.Billing.Ledger.{truncate}

pub data MeterStatus : Type 0 where
  pending sent failed : MeterStatus

pub record StripeMeterEvent : Type 0 where
  pub tenant_id : String
  pub meter_event_name : String
  pub quantity : ℕ
  pub idempotency_key : String
  pub reported_at : Option ℕ
  pub status : MeterStatus
  pub last_error : Option String
  pub attempts : ℕ

-- `billing.meterEvents.create`, with the idempotency key; the timestamp is in seconds.
pub record MeterRequest : Type 0 where
  pub event_name : String
  pub stripe_customer_id : String
  pub value : String
  pub timestamp : ℕ
  pub key : String

-- What a call of Stripe ends in: an error has its type and its message.
pub data MeterAnswer : Type 0 where
  accepted : MeterAnswer
  refused : (type message : String) → MeterAnswer

pub data Quantity : Type 0 where
  finite : ℤ → Quantity
  -- `NaN` or an infinity
  not_finite : Quantity

pub record ReportUsageOptions : Type 0 where
  pub idempotency_key : Option String
  -- in milliseconds
  pub timestamp : Option ℕ

-- The table is keyed by its unique idempotency key. `stripe` is what Stripe keeps.
pub record World (T : Store StripeMeterEvent) (S : Type 0) : Type 0 where
  pub audits : T.State
  pub stripe : S

-- What the environment decides: the customers, the SDK, the clock in milliseconds, the rows that
-- other workers write between the query of a key and the insert, whether a save of a row that was
-- sent or has failed is written, and Stripe.
pub record Env (T : Store StripeMeterEvent) (S : Type 0) : Type 0 where
  pub customer_of : String → Option String
  pub client : Result (Unit {0})
  pub now : ℕ
  pub rival : T.State → T.State
  pub saves_sent : Bool
  pub saves_failed : Bool
  pub create : MeterRequest → S → MeterAnswer × S

abbrev pub stripe_failure : String → String → Exception
stripe_failure type fallback =
    let (code, message, status) = from_stripe_error type fallback in
    billing code message (some status)

abbrev pub is_sent : StripeMeterEvent → Bool
is_sent row = elim row.status [ sent ↦ true | _ ↦ false ]

-- `<tenant>:<meter>:<minute-bucket>`
unfoldable pub minute_key : String → String → ℕ → String
unfolding decimal
minute_key tenant_id event_name at =
    str_append tenant_id
      (str_append ":" (str_append event_name (str_append ":" (decimal (at / 60000)))))

abbrev pub fresh_row : String → String → ℕ → String → StripeMeterEvent
fresh_row tenant_id event_name quantity key = record {
  tenant_id = tenant_id;
  meter_event_name = event_name;
  quantity = quantity;
  idempotency_key = key;
  reported_at = none;
  status = pending;
  last_error = none;
  attempts = 0;
}

abbrev pub sent_row : ℕ → StripeMeterEvent → StripeMeterEvent
sent_row now row = record row {
  status = sent;
  reported_at = some now;
  attempts = row.attempts + 1;
  last_error = none;
}

unfoldable pub failed_row : String → StripeMeterEvent → StripeMeterEvent
unfolding truncate
failed_row message row = record row {
  status = failed;
  last_error = some (truncate 500 message);
  attempts = row.attempts + 1;
}

module _ {T : Store StripeMeterEvent} {S : Type 0} (E : Env T S) where
  abbrev put_if : Bool → String → StripeMeterEvent → World T S → World T S
  put_if saves key row w = if saves then record w { audits = T.put key row w.audits } else w

  -- The `catch` of the call of Stripe.
  fail_report : String → StripeMeterEvent → String → String → M (World T S) (Unit {0})
  unfolding from_stripe_error failed_row
  fail_report key row type message w = (
    throw (stripe_failure type "failed to report meter event"),
    put_if E.saves_failed key (failed_row message row) w,
  )

  -- A save that fails after Stripe has accepted ends in the `catch` as well.
  unfoldable pub settle : String → StripeMeterEvent → MeterAnswer → M (World T S) (Unit {0})
  unfolding fail_report
  settle key row accepted w =
      if E.saves_sent
      then (ok tt, record w { audits = T.put key (sent_row E.now row) w.audits })
      else fail_report key (sent_row E.now row) "" "the row could not be saved" w
  settle key row (refused type message) w = fail_report key row type message w

  -- The call of Stripe for a row.
  unfoldable pub send : MeterRequest → StripeMeterEvent → M (World T S) (Unit {0})
  unfolding settle
  send request row w = elim E.client [
    | throw e ↦ (throw e, w)
    | ok _ ↦
        let (answer, stripe) = E.create request w.stripe in
        settle request.key row answer (record w { stripe = stripe })
  ]

  send_unless_sent : MeterRequest → StripeMeterEvent → M (World T S) (Unit {0})
  unfolding send
  send_unless_sent request row = if is_sent row then pure tt else send request row

  -- The insert, which collides where another worker has written the key.
  insert_audit : MeterRequest → StripeMeterEvent → M (World T S) (Unit {0})
  unfolding send send_unless_sent
  insert_audit request row w =
      let audits = E.rival w.audits in
      elim (T.get request.key audits) [
        | some winner ↦ send_unless_sent request winner (record w { audits = audits })
        | none ↦ send request row (record w { audits = T.put request.key row audits })
      ]

  unfoldable pub report_row : MeterRequest → StripeMeterEvent → M (World T S) (Unit {0})
  unfolding send_unless_sent insert_audit
  report_row request row w = elim (T.get request.key w.audits) [
    | some audit ↦ send_unless_sent request audit w
    | none ↦ insert_audit request row w
  ]

  unfoldable pub report_amount : String → String → ℕ → ReportUsageOptions → M (World T S) (Unit {0})
  unfolding report_row minute_key
  report_amount tenant_id event_name quantity opts = elim (E.customer_of tenant_id) [
    | none ↦
        raise
          (billing customer_not_found "tenant has no Stripe customer — cannot report usage" none)
    | some customer_id ↦
        let at = get_or opts.timestamp E.now in
        let key = get_or opts.idempotency_key (minute_key tenant_id event_name at) in
        report_row
          (record {
            event_name = event_name;
            stripe_customer_id = customer_id;
            value = decimal quantity;
            timestamp = at / 1000;
            key = key;
          })
          (fresh_row tenant_id event_name quantity key)
  ]

  unfoldable pub report_usage :
      String → String → Quantity → ReportUsageOptions → M (World T S) (Unit {0})
  unfolding report_amount
  report_usage tenant_id event_name (finite (pos quantity)) opts =
      report_amount tenant_id event_name quantity opts
  report_usage tenant_id event_name _ opts =
      raise
        (billing metering_failed "reportUsage: quantity must be a non-negative finite number" none)

  -- `ReportUsageBatchJob.execute`: `configured` says that billing is, `tenant_exists` that the
  -- repository has the tenant.
  unfoldable pub execute_batch :
      Bool → (String → Bool) → String → String → ℕ → M (World T S) (Unit {0})
  unfolding report_usage
  execute_batch configured tenant_exists tenant_id event_name quantity =
      if quantity == 0
      then pure tt
      else if configured
      then if tenant_exists tenant_id
        then report_usage tenant_id event_name (finite (pos quantity)) (record {
          idempotency_key = some (minute_key tenant_id event_name E.now);
          timestamp = none;
        })
        else pure tt
      else pure tt
