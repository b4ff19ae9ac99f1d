-- ===== src/Metering/Audit.antt =====
-- The rows that src/services/billing_service.ts, reportUsage, keeps of its reports, and Stripe.
use adonisjs_lasagna_saas_te.Prelude.{
  ℕ, ◌≡◌, refl, ap, inl, inr, ◌⊎◌, String, Bool, true, false, Option, none, some, str_eq,
  if◌then◌else◌, Bool-cases, Option-cases, eq_iff, eq_refl, subst, get_or, arith,
}
use adonisjs_lasagna_saas_te.Prelude.Int.{pos, negsuc}
use adonisjs_lasagna_saas_te.Store.{Store}
use adonisjs_lasagna_saas_te.Exceptions.{Exception, Result, ok, throw}
use adonisjs_lasagna_saas_te.Metering.{
  StripeMeterEvent, MeterRequest, MeterAnswer, accepted, refused, World, Env, is_sent, fresh_row,
  settle, send, send_unless_sent, insert_audit, report_row, report_amount, report_usage, minute_key,
  sent_row, failed_row, Quantity, finite, not_finite, ReportUsageOptions, fail_report,
}

abbrev is_sent_row : Option StripeMeterEvent → Bool
is_sent_row none = false
is_sent_row (some row) = is_sent row

abbrev pub is_ok {ℓ} : {A : Type ℓ} → Result A → Bool
is_ok (ok a) = true
is_ok (throw e) = false

Result-cases {ℓ} :
    {A : Type ℓ} (r : Result A) → ((e : Exception) × (r ≡ throw e)) ⊎ ((a : A) × (r ≡ ok a))
Result-cases (ok a) = inr (a, refl)
Result-cases (throw e) = inl (e, refl)

module _ (T : Store StripeMeterEvent) where
  -- Whether the row of a key says that it was sent.
  unfoldable pub sent_at : String → T.State → Bool
  sent_at key audits = is_sent_row (T.get key audits)

  pub sent_at-put :
      (k key : String) (row : StripeMeterEvent) (audits : T.State)
      → sent_at k (T.put key row audits) ≡ (if str_eq key k then is_sent row else sent_at k audits)
  unfolding sent_at
  sent_at-put k key row audits = rw (T.get-put k key row audits) (ground arith)

  pub sent_at-found :
      (key : String) (row : StripeMeterEvent) (audits : T.State)
      → T.get key audits ≡ some row
      → sent_at key audits ≡ is_sent row
  unfolding sent_at
  sent_at-found key row audits e = rw e refl

-- What is documented of Stripe: a key that it has accepted stays accepted.
pub record IsMeter {T : Store StripeMeterEvent} {S : Type 0} (E : Env T S)
    (has_key : String → S → Bool) : Type 0 where
  pub accepts :
      (r : MeterRequest) (s s' : S) → E.create r s ≡ (accepted, s') → has_key r.key s' ≡ true
  pub keeps :
      (k : String) (r : MeterRequest) (s : S)
      → has_key k s ≡ true
      → has_key k (E.create r s).1 ≡ true

module _ (T : Store StripeMeterEvent) {S : Type 0} (has_key : String → S → Bool) where
  -- Every row that says that it was sent is of a key that Stripe has accepted.
  abbrev pub Accounted : T.State → S → Type 0
  Accounted audits stripe = (k : String) → (sent_at T k audits ≡ false) ⊎ (has_key k stripe ≡ true)

  -- A report that resolves is of a key that Stripe has accepted and whose row says so, and the rows
  -- stay accounted.
  pub record Reported (key : String) (out : Result (Unit {0}) × World T S) : Type 0 where
    pub settled : (is_ok out.0 ≡ false) ⊎ (has_key key out.1.stripe ≡ true)
    pub recorded : (is_ok out.0 ≡ false) ⊎ (sent_at T key out.1.audits ≡ true)
    pub accounted : Accounted out.1.audits out.1.stripe

  put-Accounted :
      (key : String) (row : StripeMeterEvent) (audits : T.State) (stripe : S)
      → Accounted audits stripe
      → (is_sent row ≡ false) ⊎ (has_key key stripe ≡ true)
      → Accounted (T.put key row audits) stripe
  put-Accounted key row audits stripe h fresh k = elim (Bool-cases (str_eq key k)) [
    | inl e ↦ rw (sent_at-put T k key row audits, e, ← (eq_iff key k).0 e) fresh
    | inr e ↦ rw (sent_at-put T k key row audits, e) (h k)
  ]

module _ {T : Store StripeMeterEvent} {S : Type 0} {E : Env T S} {has_key : String → S → Bool}
    (P : IsMeter E has_key) where
  fail_report-Reported :
      (key : String) (row : StripeMeterEvent) (type message : String) (w : World T S)
      → Accounted T has_key w.audits w.stripe
      → Reported T has_key key (fail_report E key row type message w)
  unfolding fail_report failed_row
  fail_report-Reported key row type message w h = elim (Bool-cases E.saves_failed) [
    | inl e ↦ record {
      settled = inl refl;
      recorded = inl refl;
      accounted = rw e (put-Accounted T has_key key _ w.audits w.stripe h (inl refl));
    }
    | inr e ↦ record { settled = inl refl; recorded = inl refl; accounted = rw e h }
  ]

  settle-accepted :
      (key : String) (row : StripeMeterEvent) (w : World T S)
      → Accounted T has_key w.audits w.stripe
      → has_key key w.stripe ≡ true
      → Reported T has_key key (settle E key row accepted w)
  unfolding settle
  settle-accepted key row w h known = elim (Bool-cases E.saves_sent) [
    | inl e ↦
        rw (settle, e)
          (record {
            settled = inr known;
            recorded =
                inr (rw (sent_at-put T key key (sent_row E.now row) w.audits, eq_refl key) refl);
            accounted =
                put-Accounted T has_key key (sent_row E.now row) w.audits w.stripe h (inr known);
          })
    | inr e ↦
        rw (settle, e)
          (fail_report-Reported key (sent_row E.now row) "" "the row could not be saved" w h)
  ]

  kept :
      (request : MeterRequest) (audits : T.State) (stripe : S) {a : MeterAnswer} {s : S}
      → Accounted T has_key audits stripe
      → E.create request stripe ≡ (a, s)
      → Accounted T has_key audits s
  kept request audits stripe h e k = elim (h k) [
    | inl unsent ↦ inl unsent
    | inr known ↦
        inr (subst (λ s. has_key k s ≡ true) (ap (λ r. r.1) e) (P.keeps k request stripe known))
  ]

  answered :
      (request : MeterRequest) (row : StripeMeterEvent) (w : World T S) (a : MeterAnswer) (s : S)
      → Accounted T has_key w.audits w.stripe
      → E.create request w.stripe ≡ (a, s)
      → Reported T has_key request.key (settle E request.key row a (record w { stripe = s }))
  unfolding settle
  answered request row w accepted s h e =
      settle-accepted request.key row (record w { stripe = s }) (kept request w.audits w.stripe h e)
        (P.accepts request w.stripe s e)
  answered request row w (refused type message) s h e =
      fail_report-Reported request.key row type message (record w { stripe = s })
        (kept request w.audits w.stripe h e)

  send-Reported :
      (request : MeterRequest) (row : StripeMeterEvent) (w : World T S)
      → Accounted T has_key w.audits w.stripe
      → Reported T has_key request.key (send E request row w)
  unfolding send
  send-Reported request row w h = elim (Result-cases E.client) [
    | inl (e, thrown) ↦
        rw (send, thrown) (record { settled = inl refl; recorded = inl refl; accounted = h })
    | inr (done, resolved) ↦ rw (send, resolved) (answered request row w _ _ h refl)
  ]

  send_unless_sent-Reported :
      (request : MeterRequest) (row : StripeMeterEvent) (w : World T S)
      → Accounted T has_key w.audits w.stripe
      → T.get request.key w.audits ≡ some row
      → Reported T has_key request.key (send_unless_sent E request row w)
  unfolding send_unless_sent
  send_unless_sent-Reported request row w h found = elim (Bool-cases (is_sent row)) [
    | inl e ↦
        rw (send_unless_sent, e)
          (record {
            settled = inr (elim (h request.key) [
              | inl unsent ↦ absurd (cc (sent_at-found T request.key row w.audits found))
              | inr known ↦ known
            ]);
            recorded = inr (rw (sent_at-found T request.key row w.audits found) e);
            accounted = h;
          })
    | inr e ↦ rw (send_unless_sent, e) (send-Reported request row w h)
  ]

  insert_audit-Reported :
      (request : MeterRequest) (row : StripeMeterEvent) (w : World T S)
      → Accounted T has_key (E.rival w.audits) w.stripe
      → is_sent row ≡ false
      → Reported T has_key request.key (insert_audit E request row w)
  unfolding insert_audit
  insert_audit-Reported request row w h fresh =
      elim (Option-cases (T.get request.key (E.rival w.audits))) [
        | inl e ↦
            rw (insert_audit, e)
              (send-Reported request row
                (record w { audits = T.put request.key row (E.rival w.audits) })
                (put-Accounted T has_key request.key row (E.rival w.audits) w.stripe h (inl fresh)))
        | inr (winner, e) ↦
            rw (insert_audit, e)
              (send_unless_sent-Reported request winner (record w { audits = E.rival w.audits }) h
                e)
      ]

  report_row-Reported :
      (request : MeterRequest) (row : StripeMeterEvent) (w : World T S)
      → Accounted T has_key w.audits w.stripe
      → Accounted T has_key (E.rival w.audits) w.stripe
      → is_sent row ≡ false
      → Reported T has_key request.key (report_row E request row w)
  unfolding report_row
  report_row-Reported request row w h h' fresh = elim (Option-cases (T.get request.key w.audits)) [
    | inl e ↦ rw (report_row, e) (insert_audit-Reported request row w h' fresh)
    | inr (audit, e) ↦ rw (report_row, e) (send_unless_sent-Reported request audit w h e)
  ]

  pub report_amount-Reported :
      (tenant_id event_name : String) (quantity : ℕ) (opts : ReportUsageOptions) (w : World T S)
      → Accounted T has_key w.audits w.stripe
      → Accounted T has_key (E.rival w.audits) w.stripe
      → Reported T has_key
          (get_or opts.idempotency_key
            (minute_key tenant_id event_name (get_or opts.timestamp E.now)))
          (report_amount E tenant_id event_name quantity opts w)
  unfolding report_amount
  report_amount-Reported tenant_id event_name quantity opts w h h' =
      elim (Option-cases (E.customer_of tenant_id)) [
        | inl e ↦
            rw (report_amount, e)
              (record { settled = inl refl; recorded = inl refl; accounted = h })
        | inr (customer, e) ↦
            rw (report_amount, e)
              (report_row-Reported _ (fresh_row tenant_id event_name quantity _) w h h' refl)
      ]

  -- A report, on a table whose rows are accounted for (every row that says that it was sent is of a
  -- key that Stripe has accepted), and with the rows that other workers write accounted for too,
  -- leaves them accounted for, on every branch; where it resolves, Stripe has accepted its key, and
  -- the row of the key says so.
  pub report_usage-Reported :
      (tenant_id event_name : String) (quantity : Quantity) (opts : ReportUsageOptions)
      (w : World T S)
      → Accounted T has_key w.audits w.stripe
      → Accounted T has_key (E.rival w.audits) w.stripe
      → Reported T has_key
          (get_or opts.idempotency_key
            (minute_key tenant_id event_name (get_or opts.timestamp E.now)))
          (report_usage E tenant_id event_name quantity opts w)
  unfolding report_usage
  report_usage-Reported tenant_id event_name not_finite opts w h h' = record {
    settled = inl refl;
    recorded = inl refl;
    accounted = h;
  }
  report_usage-Reported tenant_id event_name (finite (negsuc n)) opts w h h' = record {
    settled = inl refl;
    recorded = inl refl;
    accounted = h;
  }
  report_usage-Reported tenant_id event_name (finite (pos n)) opts w h h' =
      report_amount-Reported tenant_id event_name n opts w h h'
