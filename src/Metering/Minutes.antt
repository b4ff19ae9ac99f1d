-- ===== src/Metering/Minutes.antt =====
-- Batches of usage within one minute, which share an idempotency key.
use adonisjs_lasagna_saas_te.Prelude.{
  ℕ, ◌/◌, ◌≡◌, refl, ap, inl, inr, String, Bool, true, false, none, some, Bool-cases, Option-cases,
  subst, get_or, ◌==◌, str_append, decimal,
}
use adonisjs_lasagna_saas_te.Store.{Store}
use adonisjs_lasagna_saas_te.Exceptions.{ok}
use adonisjs_lasagna_saas_te.Metering.{
  StripeMeterEvent, MeterRequest, World, Env, fresh_row, send_unless_sent, report_row,
  report_amount, report_usage, execute_batch, minute_key, ReportUsageOptions,
}
use adonisjs_lasagna_saas_te.Metering.Audit.{sent_at, IsMeter, report_amount-Reported}

minute_key-same :
    (tenant_id event_name : String) (a b : ℕ)
    → a / 60000 ≡ b / 60000
    → minute_key tenant_id event_name a ≡ minute_key tenant_id event_name b
unfolding minute_key
minute_key-same tenant_id event_name a b e =
    ap
      (λ n.
        str_append tenant_id (str_append ":" (str_append event_name (str_append ":" (decimal n)))))
      e

module _ {T : Store StripeMeterEvent} {S : Type 0} (E : Env T S) where
  report_row-sent :
      (request : MeterRequest) (row : StripeMeterEvent) (w : World T S)
      → sent_at T request.key w.audits ≡ true
      → report_row E request row w ≡ (ok tt, w)
  unfolding report_row send_unless_sent sent_at
  report_row-sent request row w h = elim (Option-cases (T.get request.key w.audits)) [
    | inl e ↦ absurd (cc (rw e at h))
    | inr (audit, e) ↦ rw (report_row, e) (rw (send_unless_sent, (rw e at h)) refl)
  ]

  report_amount-sent :
      (tenant_id event_name customer : String) (quantity : ℕ) (opts : ReportUsageOptions)
      (w : World T S)
      → E.customer_of tenant_id ≡ some customer
      → sent_at T
          (get_or opts.idempotency_key
            (minute_key tenant_id event_name (get_or opts.timestamp E.now)))
          w.audits
        ≡ true
      → report_amount E tenant_id event_name quantity opts w ≡ (ok tt, w)
  unfolding report_amount
  report_amount-sent tenant_id event_name customer quantity opts w known h =
      rw (report_amount, known) (report_row-sent _ (fresh_row tenant_id event_name quantity _) w h)

  abbrev batch_options : String → String → ReportUsageOptions
  batch_options tenant_id event_name = record {
    idempotency_key = some (minute_key tenant_id event_name E.now);
    timestamp = none;
  }

  -- A report that resolves leaves a row that says that it was sent.
  report_amount-records :
      (tenant_id event_name : String) (quantity : ℕ) (opts : ReportUsageOptions) (w w' : World T S)
      → report_amount E tenant_id event_name quantity opts w ≡ (ok tt, w')
      → sent_at T
          (get_or opts.idempotency_key
            (minute_key tenant_id event_name (get_or opts.timestamp E.now)))
          w'.audits
        ≡ true
  report_amount-records tenant_id event_name quantity opts w w' e =
      let any_meter : IsMeter E (λ k s. true) = record {
        accepts = λ r s s' a. refl;
        keeps = λ k r s a. refl;
      } in
      let reported =
        report_amount-Reported any_meter tenant_id event_name quantity opts w (λ k. inr refl)
          (λ k. inr refl) in
      elim reported.recorded [
        | inl failed ↦ absurd (cc (rw e at failed))
        | inr recorded ↦ rw e at recorded
      ]

-- With billing configured and a tenant that the repository has and that has a customer at the later
-- time: once a batch of usage that is not zero has resolved, every later batch of the same tenant
-- and meter in the same minute resolves and changes nothing, Stripe included, whatever its
-- quantity.
pub execute_batch-same_minute :
    {T : Store StripeMeterEvent} {S : Type 0} (E E' : Env T S) (tenant_exists : String → Bool)
    (tenant_id event_name customer : String) (quantity quantity' : ℕ) (w w' : World T S)
    → E.now / 60000 ≡ E'.now / 60000
    → tenant_exists tenant_id ≡ true
    → E'.customer_of tenant_id ≡ some customer
    → (quantity == 0) ≡ false
    → execute_batch E true tenant_exists tenant_id event_name quantity w ≡ (ok tt, w')
    → execute_batch E' true tenant_exists tenant_id event_name quantity' w' ≡ (ok tt, w')
unfolding execute_batch report_usage
execute_batch-same_minute {T} E E' tenant_exists tenant_id event_name customer quantity quantity' w
      w' minute exists known some_usage first =
    elim (Bool-cases (quantity' == 0)) [
      | inl none_left ↦ rw (none_left) refl
      | inr some_left ↦
          rw (exists, some_left)
            (report_amount-sent E' tenant_id event_name customer quantity'
              (batch_options E' tenant_id event_name) w' known
              (subst (λ key. sent_at T key w'.audits ≡ true)
                (minute_key-same tenant_id event_name E.now E'.now minute)
                (report_amount-records E tenant_id event_name quantity
                  (batch_options E tenant_id event_name) w w' (rw (exists, some_usage) at first))))
    ]
